-- ===== src/Chain/Anchor.antt =====
-- apps/relayer/src/chain/block-anchor.ts: the block at a number, and whether it is still the one that
-- was selected.
use drand_quicknet_evm.Base.{
  ap, ℕ, ◌==◌, ◌&&◌, ◌≡◌, refl, Bool, false, Option, none, some, ok, err, ◌>>=◌, ◌>>◌, require,
  true, arith, if◌then◌else◌, and_split,
}
use drand_quicknet_evm.Text.{is_fixed_hex}
use drand_quicknet_evm.Journal.{BlockAnchor, block_anchors_match}
use drand_quicknet_evm.Chain.{Client, Checked, rpc_failed, invalid_anchor_response}

-- `block.number === blockNumber`
abbrev pub is_number : Option ℕ → ℕ → Bool
is_number none n = false
is_number (some m) n = m == n

-- `getBlockAnchor`
unfoldable pub get_block_anchor : Client → ℕ → ℕ → Checked BlockAnchor
get_block_anchor client moment number = elim (client.get_block moment number) [
  | none ↦ err rpc_failed
  | some block ↦ do
    require (is_number block.number number && is_fixed_hex block.hash 32) invalid_anchor_response
    ok (record { block_number = number; block_hash = block.hash })
]

-- `checkBlockAnchor`: the block that stands there instead, if another does.
unfoldable pub check_block_anchor : Client → ℕ → BlockAnchor → Checked (Option BlockAnchor)
check_block_anchor client moment expected = do
  observed ← get_block_anchor client moment expected.block_number
  ok (if block_anchors_match expected observed then none else some observed)

pub is_number_lem :
    (block : Option ℕ) (number : ℕ) → is_number block number ≡ true → block ≡ some number
is_number_lem none number h = absurd (ground arith)
is_number_lem (some n) number h = ap some (ground arith)

-- At that moment the client has this block at its number.
pub record Stands (client : Client) (moment : ℕ) (anchor : BlockAnchor) : Type 0 where
  pub observed : BlockAnchor
  pub is_read : get_block_anchor client moment anchor.block_number ≡ ok observed
  pub is_same : block_anchors_match anchor observed ≡ true

pub get_block_anchor_lem :
    (client : Client) (moment number : ℕ) (a : BlockAnchor)
    → get_block_anchor client moment number ≡ ok a
    → (a.block_number ≡ number) × (is_fixed_hex a.block_hash 32 ≡ true)
unfolding get_block_anchor
get_block_anchor_lem client moment number a h =
    elim (client.get_block moment number)
        as (λ reply.
          client.get_block moment number ≡ reply
          → (a.block_number ≡ number) × (is_fixed_hex a.block_hash 32 ≡ true)) [
            | none ↦ λ e. absurd (ground (arith, e))
            | some block ↦ λ e.
                let split =
                  and_split (is_number block.number number) (is_fixed_hex block.hash 32)
                    (ground (arith, e)) in
                (ground (arith, e), ground (arith, e, split.1))
          ]
      refl

pub check_block_anchor-Stands :
    (client : Client) (moment : ℕ) (anchor : BlockAnchor)
    → check_block_anchor client moment anchor ≡ ok none
    → Stands client moment anchor
unfolding check_block_anchor
check_block_anchor-Stands client moment anchor h =
    elim (get_block_anchor client moment anchor.block_number)
        as (λ call.
          get_block_anchor client moment anchor.block_number ≡ call → Stands client moment anchor) [
            | err e ↦ λ eq. absurd (ground (arith, eq))
            | ok a ↦ λ eq. record { observed = a; is_read = eq; is_same = ground (arith, eq) }
          ]
      refl
