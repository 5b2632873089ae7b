-- ===== src/Chain/Search/Spec.antt =====
-- What a search for a replacement is to find on a chain of linked blocks:
-- apps/relayer/src/chain/search-attempt-replacement.ts.
use drand_quicknet_evm.Base.{
  ℕ, zero, suc, ◌+◌, ◌-◌, ◌<◌, ◌≤◌, ◌≡◌, refl, true, Option, none, some, List, [], ◌∷◌, arith, inl,
  inr, Option-cases, ap, length, keep, All, if◌then◌else◌,
}
use drand_quicknet_evm.Text.{Text, is_fixed_hex, same}
use drand_quicknet_evm.Journal.{BlockAnchor, ReplacementSearch}
use drand_quicknet_evm.Chain.{Client, RpcTransaction, RpcBlock}
use drand_quicknet_evm.Chain.Anchor.{is_number}
use drand_quicknet_evm.Chain.Search.{SearchInput, Scan, is_match, is_transaction, block_anchor}

-- A chain, by the number of its blocks: each block is on top of the one before, its transactions can be
-- read, and a sender uses a nonce once in a block at most.
pub record IsChain (chain : ℕ → RpcBlock) : Type 0 where
  pub numbered : (n : ℕ) → is_number (chain n).number n ≡ true
  pub hashed : (n : ℕ) → is_fixed_hex (chain n).hash 32 ≡ true
  pub parent_hashed : (n : ℕ) → is_fixed_hex (chain n).parent_hash 32 ≡ true
  pub linked : (n : ℕ) → same (chain (n + 1)).parent_hash (chain n).hash ≡ true
  pub readable : (n : ℕ) → All (λ tx. is_transaction tx ≡ true) (chain n).transactions
  pub once : (i : SearchInput) (n : ℕ) → length (keep (is_match i) (chain n).transactions) ≤ 1

-- The node answers with the blocks of that chain at every moment.
abbrev pub Serves : Client → (ℕ → RpcBlock) → Type 0
Serves client chain = (moment n : ℕ) → client.get_block moment n ≡ some (chain n)

abbrev pub at : (ℕ → RpcBlock) → ℕ → BlockAnchor
at chain n = block_anchor n (chain n)

-- The hash of the transaction that matches.
unfoldable pub use_in : SearchInput → List RpcTransaction → Option Text
use_in i [] = none
use_in i (tx ∷ rest) = let later = use_in i rest in if is_match i tx then some (tx.hash) else later

-- The first of the `left` blocks behind number `n` with a transaction that matches.
unfoldable pub first_use : (ℕ → RpcBlock) → SearchInput → ℕ → ℕ → Option (Text × ℕ)
first_use chain i n zero = none
first_use chain i n (suc left) = elim (use_in i (chain (n + 1)).transactions) [
  | none ↦ first_use chain i (n + 1) left
  | some hash ↦ some (hash, n + 1)
]

-- Where a loop ends that reads `left` blocks behind number `n`, after `count` blocks.
unfoldable pub scan_end : (ℕ → RpcBlock) → SearchInput → ℕ → ℕ → ℕ → Scan
scan_end chain i n left count = elim (first_use chain i n left) [
  | none ↦ record { previous = at chain (n + left); scanned_blocks = count + left; match = none }
  | some (hash, m) ↦ record {
    previous = at chain m;
    scanned_blocks = count + (m - n);
    match = some (hash, at chain m);
  }
]

pub first_use_bounds :
    (chain : ℕ → RpcBlock) (i : SearchInput) (n left m : ℕ) (hash : Text)
    → first_use chain i n left ≡ some (hash, m)
    → (n < m) × (m ≤ n + left)
unfolding first_use
first_use_bounds chain i n zero m hash h = absurd (ground arith)
first_use_bounds chain i n (suc left) m hash h =
    elim (Option-cases (use_in i (chain (n + 1)).transactions)) [
      | inl e ↦ ground (arith, e, first_use_bounds chain i (n + 1) left m hash)
      | inr (found, e) ↦ ground (arith, e)
    ]

pub scan_end-zero :
    (chain : ℕ → RpcBlock) (i : SearchInput) (n count : ℕ)
    → scan_end chain i n 0 count
      ≡ record { previous = at chain n; scanned_blocks = count; match = none }
unfolding scan_end first_use
scan_end-zero chain i n count =
    let n' : n + 0 ≡ n = omega arith in
    let count' : count + 0 ≡ count = omega arith in rw (n', count') refl

pub scan_end-here :
    (chain : ℕ → RpcBlock) (i : SearchInput) (n left count : ℕ) (hash : Text)
    → use_in i (chain (n + 1)).transactions ≡ some hash
    → scan_end chain i n (suc left) count ≡ record {
      previous = at chain (n + 1);
      scanned_blocks = count + 1;
      match = some (hash, at chain (n + 1));
    }
unfolding scan_end first_use
scan_end-here chain i n left count hash e = ground (arith, e)

pub scan_end-suc :
    (chain : ℕ → RpcBlock) (i : SearchInput) (n left count : ℕ)
    → use_in i (chain (n + 1)).transactions ≡ none
    → scan_end chain i n (suc left) count ≡ scan_end chain i (n + 1) left (count + 1)
unfolding scan_end first_use
scan_end-suc chain i n left count e = elim (Option-cases (first_use chain i (n + 1) left)) [
  | inl e' ↦
      let further : n + suc left ≡ n + 1 + left = omega arith in
      ground (arith, e, e', ap (at chain) further)
  | inr ((hash, m), e') ↦ ground (arith, e, e', first_use_bounds chain i (n + 1) left m hash e')
]

-- Searching one stretch and then the next is searching both.
pub first_use-split :
    (chain : ℕ → RpcBlock) (i : SearchInput) (n a b : ℕ)
    → first_use chain i n a ≡ none
    → first_use chain i n (a + b) ≡ first_use chain i (n + a) b
unfolding first_use
first_use-split chain i n zero b h =
    let b' : 0 + b ≡ b = omega arith in let n' : n + 0 ≡ n = omega arith in rw (b', n') refl
first_use-split chain i n (suc a) b h =
    let next : suc a + b ≡ suc (a + b) = omega arith in
    let place : n + suc a ≡ n + 1 + a = omega arith in
    rw (next, place)
      (elim (Option-cases (use_in i (chain (n + 1)).transactions)) [
        | inl e ↦ ground (arith, e, first_use-split chain i (n + 1) a b)
        | inr (hash, e) ↦ absurd (ground (arith, e))
      ])

-- Where a search starts does not change what it looks for.
use_in-resumed :
    (i : SearchInput) (start : Option ReplacementSearch) (txs : List RpcTransaction)
    → use_in (record i { replacement_search = start }) txs ≡ use_in i txs
unfolding use_in
use_in-resumed i start [] = refl
use_in-resumed i start (tx ∷ rest) = ground (arith, use_in-resumed i start rest)

first_use-resumed :
    (chain : ℕ → RpcBlock) (i : SearchInput) (start : Option ReplacementSearch) (n left : ℕ)
    → first_use chain (record i { replacement_search = start }) n left ≡ first_use chain i n left
unfolding first_use
first_use-resumed chain i start n zero = refl
first_use-resumed chain i start n (suc left) = ground (
  arith,
  use_in-resumed i start (chain (n + 1)).transactions,
  first_use-resumed chain i start (n + 1) left,
)

pub scan_end-resumed :
    (chain : ℕ → RpcBlock) (i : SearchInput) (start : Option ReplacementSearch) (n left count : ℕ)
    → scan_end chain (record i { replacement_search = start }) n left count
      ≡ scan_end chain i n left count
unfolding scan_end
scan_end-resumed chain i start n left count =
    rw (first_use-resumed chain i start n left, scan_end) refl
