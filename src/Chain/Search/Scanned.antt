-- ===== src/Chain/Search/Scanned.antt =====
-- What the loops of apps/relayer/src/chain/search-attempt-replacement.ts establish, whatever the node
-- answers.
use drand_quicknet_evm.Base.{
  ℕ, zero, suc, ◌+◌, ◌≤◌, ◌≡◌, refl, Bool, true, false, Option, none, some, List, [], ◌∷◌, arith,
  ok, err, Bool-cases, inl, inr, Option-cases, subst, sym, Result-cases,
}
use drand_quicknet_evm.Text.{Text, is_fixed_hex}
use drand_quicknet_evm.Journal.{BlockAnchor}
use drand_quicknet_evm.Chain.{Client, RpcTransaction, RpcBlock}
use drand_quicknet_evm.Chain.Search.{
  SearchInput, find_match, is_match, is_transaction, Scan, ended, read_search_block, scan_block,
  scan_blocks, has_moved, block_anchor,
}

-- A hash that the loop over a block's transactions may return.
abbrev pub IsHash : Option Text → Type 0
IsHash none = Unit
IsHash (some hash) = is_fixed_hex hash 32 ≡ true

transaction_hash : (tx : RpcTransaction) → is_transaction tx ≡ true → is_fixed_hex tx.hash 32 ≡ true
transaction_hash tx h = ground arith

find_match-IsHash :
    (i : SearchInput) (txs : List RpcTransaction) (match m : Option Text)
    → IsHash match
    → find_match i txs match ≡ ok m
    → IsHash m
unfolding find_match
find_match-IsHash i [] match m k h = let e : match ≡ m = cc in subst IsHash e k
find_match-IsHash i (tx ∷ rest) none m k h = elim (Bool-cases (is_transaction tx)) [
  | inr e ↦ absurd (ground (arith, e))
  | inl e ↦ elim (Bool-cases (is_match i tx)) [
    | inl e' ↦
        find_match-IsHash i rest (some (tx.hash)) m (transaction_hash tx e) (ground (arith, e, e'))
    | inr e' ↦ find_match-IsHash i rest none m tt (ground (arith, e, e'))
  ]
]
find_match-IsHash i (tx ∷ rest) (some hash) m k h = elim (Bool-cases (is_transaction tx)) [
  | inr e ↦ absurd (ground (arith, e))
  | inl e ↦ elim (Bool-cases (is_match i tx)) [
    | inl e' ↦ absurd (ground (arith, e, e'))
    | inr e' ↦ find_match-IsHash i rest (some hash) m k (ground (arith, e, e'))
  ]
]

-- Each turn reads the block with the next number, whose hash is one; it is the anchor's block, where
-- its number is the anchor's.
pub record IsTurn (i : SearchInput) (previous inclusion : BlockAnchor) (match : Option Text)
    : Type 0 where
  pub is_next : inclusion.block_number ≡ previous.block_number + 1
  pub is_hash : is_fixed_hex inclusion.block_hash 32 ≡ true
  pub has_stayed : has_moved i.observation.anchor inclusion ≡ false
  pub is_match_hash : IsHash match

read_search_block_lem :
    (client : Client) (moment : ℕ) (previous : BlockAnchor) (block : RpcBlock)
    → read_search_block client moment previous ≡ ok block
    → is_fixed_hex block.hash 32 ≡ true
unfolding read_search_block
read_search_block_lem client moment previous block h =
    elim (Option-cases (client.get_block moment (previous.block_number + 1))) [
      | inl e ↦ absurd (ground (arith, e))
      | inr (b, e) ↦ ground (arith, e)
    ]

scan_block_lem :
    (client : Client) (moment : ℕ) (i : SearchInput) (previous inclusion : BlockAnchor)
    (match : Option Text)
    → scan_block client moment i previous ≡ ok (inclusion, some match)
    → IsTurn i previous inclusion match
unfolding scan_block
scan_block_lem client moment i previous inclusion match h =
    elim (Result-cases (read_search_block client moment previous)) [
      | inr (x, e) ↦ absurd (ground (arith, e))
      | inl (block, e) ↦
          let here = block_anchor (previous.block_number + 1) block in
          elim (Bool-cases (has_moved i.observation.anchor here)) [
            | inl e' ↦ absurd (ground (arith, e, e'))
            | inr e' ↦ elim (Result-cases (find_match i block.transactions none)) [
              | inr (x, e'') ↦ absurd (ground (arith, e, e', e''))
              | inl (m, e'') ↦
                  let same_end : (here ≡ inclusion) × (m ≡ match) = ground (arith, e, e', e'') in
                  record {
                    is_next = ground (arith, same_end);
                    is_hash =
                        ground
                          (arith, same_end, read_search_block_lem client moment previous block e);
                    has_stayed = ground (arith, same_end, e');
                    is_match_hash =
                        subst IsHash same_end.1
                          (find_match-IsHash i block.transactions none m tt e'');
                  }
            ]
          ]
    ]

-- The end of the loop: the match is in the last block.
abbrev pub IsMatchAt : BlockAnchor → Option (Text × BlockAnchor) → Type 0
IsMatchAt last none = Unit
IsMatchAt last (some (hash, b)) = (b ≡ last) × (is_fixed_hex hash 32 ≡ true)

abbrev pub is_none : Option (Text × BlockAnchor) → Bool
is_none none = true
is_none (some _) = false

pub record IsScanned (i : SearchInput) (left : ℕ) (s e : Scan) : Type 0 where
  pub counted :
      e.previous.block_number + s.scanned_blocks ≡ s.previous.block_number + e.scanned_blocks
  pub bounded : e.scanned_blocks ≤ s.scanned_blocks + left
  pub whole : is_none e.match ≡ true → e.scanned_blocks ≡ s.scanned_blocks + left
  pub match_at_end : IsMatchAt e.previous e.match
  pub has_hash : is_fixed_hex e.previous.block_hash 32 ≡ true
  pub has_stayed : is_none e.match ≡ false → has_moved i.observation.anchor e.previous ≡ false

pub scan_blocks-IsScanned :
    (client : Client) (moment : ℕ) (i : SearchInput) (left : ℕ) (s e : Scan)
    → s.match ≡ none
    → is_fixed_hex s.previous.block_hash 32 ≡ true
    → scan_blocks client moment i left s ≡ ok (ended e)
    → IsScanned i left s e
unfolding scan_blocks
scan_blocks-IsScanned client moment i zero s e n k h =
    let stopped : s ≡ e = cc in
    subst (IsScanned i 0 s) stopped (record {
      counted = refl;
      bounded = omega arith;
      whole = λ _. omega arith;
      match_at_end = subst (IsMatchAt s.previous) (sym n) tt;
      has_hash = k;
      has_stayed = λ x. cc;
    })
scan_blocks-IsScanned client moment i (suc left) s e n k h =
    elim (scan_block client moment i s.previous)
        as (λ call. scan_block client moment i s.previous ≡ call → IsScanned i (suc left) s e) [
          | err x ↦ λ eq. absurd (ground (arith, eq))
          | ok (inclusion, none) ↦ λ eq. absurd (ground (arith, eq))
          | ok (inclusion, some none) ↦ λ eq.
              let t = scan_block_lem client moment i s.previous inclusion none eq in
              let rest =
                scan_blocks-IsScanned client (moment + 1) i left
                  (record {
                    previous = inclusion;
                    scanned_blocks = s.scanned_blocks + 1;
                    match = none;
                  })
                  e refl t.is_hash (ground (arith, eq)) in
              record {
                counted = omega (arith, t.is_next, rest.counted);
                bounded = omega (arith, rest.bounded);
                whole = λ x. omega (arith, rest.whole x);
                match_at_end = rest.match_at_end;
                has_hash = rest.has_hash;
                has_stayed = rest.has_stayed;
              }
          | ok (inclusion, some (some hash)) ↦ λ eq.
              let t = scan_block_lem client moment i s.previous inclusion (some hash) eq in
              let stopped : record {
                previous = inclusion;
                scanned_blocks = s.scanned_blocks + 1;
                match = some (hash, inclusion);
              }
                  ≡ e =
                ground (arith, eq) in
              subst (IsScanned i (suc left) s) stopped (record {
                counted = omega (arith, t.is_next);
                bounded = omega arith;
                whole = λ x. cc;
                match_at_end = (refl, t.is_match_hash);
                has_hash = t.is_hash;
                has_stayed = λ x. t.has_stayed;
              })
        ]
      refl
