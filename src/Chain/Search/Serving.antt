-- ===== src/Chain/Search/Serving.antt =====
-- The search of apps/relayer/src/chain/search-attempt-replacement.ts over a node that serves one chain
-- of linked blocks, and what it is to find there.
use drand_quicknet_evm.Base.{
  ℕ, zero, suc, ◌+◌, ◌-◌, ◌≤◌, ◌≡◌, refl, true, false, none, some, List, [], ◌∷◌, arith, ok, min,
  inl, inr, Bool-cases, Option-cases, subst, sym, length, keep, All, ==_iff, ◌==◌,
}
use drand_quicknet_evm.Text.{Text}
use drand_quicknet_evm.Text.Equality.{same_refl}
use drand_quicknet_evm.Journal.{BlockAnchor, block_anchors_match}
use drand_quicknet_evm.Chain.{Client, RpcTransaction, RpcBlock}
use drand_quicknet_evm.Chain.Anchor.{get_block_anchor, check_block_anchor}
use drand_quicknet_evm.Chain.Search.Spec.{
  IsChain, Serves, at, use_in, scan_end, scan_end-zero, scan_end-here, scan_end-suc,
}
use drand_quicknet_evm.Chain.Search.{
  SearchInput, ended, is_match, is_transaction, find_match, read_search_block, scan_block,
  scan_blocks, has_moved, search_result,
}
use drand_quicknet_evm.Chain.Search.Checks.{search_from}

find_match-some :
    (i : SearchInput) (txs : List RpcTransaction) (hash : Text)
    → All (λ tx. is_transaction tx ≡ true) txs
    → length (keep (is_match i) txs) ≤ 0
    → find_match i txs (some hash) ≡ ok (some hash)
unfolding find_match
find_match-some i [] hash r k = refl
find_match-some i (tx ∷ rest) hash r k = elim (Bool-cases (is_match i tx)) [
  | inl e ↦ absurd (ground (arith, e))
  | inr e ↦ ground (arith, e, find_match-some i rest hash r.1)
]

find_match_lem :
    (i : SearchInput) (txs : List RpcTransaction)
    → All (λ tx. is_transaction tx ≡ true) txs
    → length (keep (is_match i) txs) ≤ 1
    → find_match i txs none ≡ ok (use_in i txs)
unfolding find_match use_in
find_match_lem i [] r k = refl
find_match_lem i (tx ∷ rest) r k = elim (Bool-cases (is_match i tx)) [
  | inl e ↦ ground (arith, e, find_match-some i rest tx.hash r.1)
  | inr e ↦ ground (arith, e, find_match_lem i rest r.1)
]

pub match_refl : (b : BlockAnchor) → block_anchors_match b b ≡ true
unfolding block_anchors_match
match_refl b = ground (arith, same_refl b.block_hash)

module _ (client : Client) (chain : ℕ → RpcBlock) (is_chain : IsChain chain)
    (serves : Serves client chain) where
  pub get_block_anchor-at : (moment n : ℕ) → get_block_anchor client moment n ≡ ok (at chain n)
  unfolding get_block_anchor
  get_block_anchor-at moment n =
      ground (arith, serves moment n, is_chain.numbered n, is_chain.hashed n)

  pub get_block_anchor-on :
      (moment n : ℕ) (b : BlockAnchor)
      → b ≡ at chain n
      → get_block_anchor client moment b.block_number ≡ ok b
  get_block_anchor-on moment n b h =
      subst (λ (x : BlockAnchor). get_block_anchor client moment x.block_number ≡ ok x) (sym h)
        (get_block_anchor-at moment n)

  pub check_block_anchor-at :
      (moment n : ℕ) → check_block_anchor client moment (at chain n) ≡ ok none
  unfolding check_block_anchor block_anchors_match
  check_block_anchor-at moment n =
      ground (arith, get_block_anchor-at moment n, same_refl (chain n).hash)

  pub check_block_anchor-on :
      (moment n : ℕ) (b : BlockAnchor)
      → b ≡ at chain n
      → check_block_anchor client moment b ≡ ok none
  check_block_anchor-on moment n b h =
      subst (λ x. check_block_anchor client moment x ≡ ok none) (sym h)
        (check_block_anchor-at moment n)

  read_search_block-at :
      (moment n : ℕ) → read_search_block client moment (at chain n) ≡ ok (chain (n + 1))
  unfolding read_search_block
  read_search_block-at moment n = ground (
    arith,
    serves moment (n + 1),
    is_chain.numbered (n + 1),
    is_chain.hashed (n + 1),
    is_chain.parent_hashed (n + 1),
    is_chain.linked n,
  )

  has_moved-at : (m n : ℕ) → has_moved (at chain m) (at chain n) ≡ false
  unfolding block_anchors_match
  has_moved-at m n = elim (Bool-cases (n == m)) [
    | inl e ↦ let q : n ≡ m = (==_iff n m).0 e in rw q (ground (arith, same_refl (chain m).hash))
    | inr e ↦ rw e
  ]

  scan_block-at :
      (moment n a : ℕ) (i : SearchInput)
      → i.observation.anchor ≡ at chain a
      → scan_block client moment i (at chain n)
        ≡ ok (at chain (n + 1), some (use_in i (chain (n + 1)).transactions))
  unfolding scan_block
  scan_block-at moment n a i h =
      let stays : has_moved i.observation.anchor (at chain (n + 1)) ≡ false =
        rw h (has_moved-at a (n + 1)) in
      ground (
        arith,
        read_search_block-at moment n,
        stays,
        find_match_lem i (chain (n + 1)).transactions (is_chain.readable (n + 1))
            (is_chain.once i (n + 1)),
      )

  -- The loop that reads `left` blocks behind number `n` ends there.
  pub scan_blocks-at :
      (moment n a left : ℕ) (i : SearchInput) (count : ℕ)
      → i.observation.anchor ≡ at chain a
      → scan_blocks client moment i left
          (record { previous = at chain n; scanned_blocks = count; match = none })
        ≡ ok (ended (scan_end chain i n left count))
  unfolding scan_blocks
  scan_blocks-at moment n a zero i count h = rw (scan_end-zero chain i n count) refl
  scan_blocks-at moment n a (suc left) i count h =
      elim (Option-cases (use_in i (chain (n + 1)).transactions)) [
        | inl e ↦ ground (
          arith,
          scan_block-at moment n a i h,
          e,
          scan_blocks-at (moment + 1) (n + 1) a left i (count + 1) h,
          scan_end-suc chain i n left count e,
        )
        | inr (hash, e) ↦
            ground
              (arith, scan_block-at moment n a i h, e, scan_end-here chain i n left count hash e)
      ]

  pub search_from-at :
      (moment b a : ℕ) (i : SearchInput)
      → i.observation.anchor ≡ at chain a
      → search_from client moment i (at chain b)
        ≡ ok (
            search_result i (
              scan_end chain i b (min i.max_block_range (i.observation.anchor.block_number - b)) 0))
  unfolding search_from
  search_from-at moment b a i h =
      let left = min i.max_block_range (i.observation.anchor.block_number - b) in
      let closes = check_block_anchor-on (moment + left) a i.observation.anchor h in
      ground (arith, scan_blocks-at moment b a left i 0 h, closes)
