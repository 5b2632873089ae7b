-- ===== src/Chain/Search/Bounds.antt =====
-- How far one search moves: apps/relayer/src/chain/search-attempt-replacement.ts, for any answers of the
-- node.
use drand_quicknet_evm.Base.{
  ℕ, ◌+◌, ◌-◌, ◌<◌, ◌≤◌, ◌≡◌, refl, Bool, true, false, none, some, arith, ok, err, min, Bool-cases,
  inl, inr, Option-cases, Result-cases, ap,
}
use drand_quicknet_evm.Text.{is_fixed_hex}
use drand_quicknet_evm.Journal.{BlockAnchor, ReplacementSearch}
use drand_quicknet_evm.Journal.Check.{is_anchor}
use drand_quicknet_evm.Chain.{Client}
use drand_quicknet_evm.Chain.Anchor.{check_block_anchor}
use drand_quicknet_evm.Chain.Search.{
  SearchInput, ReplacementSearchResult, recorded_transaction_found, replacement_found, not_found,
  Scan, ended, moved, scan_blocks, search_result, recorded_hash,
}
use drand_quicknet_evm.Chain.Search.Checks.{
  search_from, boundary_of, check_boundary, search_checked, saved_search_guard, is_behind,
  search_saved, search_input_guard, search_attempt_replacement,
}
use drand_quicknet_evm.Chain.Search.Scanned.{is_none, IsScanned, scan_blocks-IsScanned}

-- The results that a scan ends with.
abbrev pub is_scan_result : ReplacementSearchResult → Bool
is_scan_result (recorded_transaction_found _ _ _) = true
is_scan_result (replacement_found _) = true
is_scan_result (not_found _ _ _) = true
is_scan_result _ = false

-- The blocks that one search may read.
abbrev pub reach : SearchInput → ReplacementSearch → ℕ
reach i search =
    min i.max_block_range (i.observation.anchor.block_number - (boundary_of search).block_number)

abbrev pub scan_start : BlockAnchor → Scan
scan_start boundary = record { previous = boundary; scanned_blocks = 0; match = none }

-- A search that came to its scan, with the end of the scan.
pub record IsSearched (i : SearchInput) (result : ReplacementSearchResult) : Type 0 where
  pub saved : ReplacementSearch
  pub is_saved : i.replacement_search ≡ some saved
  pub input_valid : search_input_guard i ≡ ok tt
  pub saved_valid : saved_search_guard i.nonce saved ≡ ok tt
  pub in_front : is_behind i.observation.anchor saved ≡ false
  pub scan : Scan
  pub is_scanned : IsScanned i (reach i saved) (scan_start (boundary_of saved)) scan
  pub is_result : search_result i scan ≡ result

search_from_lem :
    (client : Client) (moment : ℕ) (i : SearchInput) (boundary : BlockAnchor)
    (result : ReplacementSearchResult)
    → search_from client moment i boundary ≡ ok result
    → is_scan_result result ≡ true
    → is_fixed_hex boundary.block_hash 32 ≡ true
    → (scan : Scan) × IsScanned i
        (min i.max_block_range (i.observation.anchor.block_number - boundary.block_number))
        (scan_start boundary)
        scan
      × (search_result i scan ≡ result)
unfolding search_from
search_from_lem client moment i boundary result h k b =
    let left = min i.max_block_range (i.observation.anchor.block_number - boundary.block_number) in
    elim (scan_blocks client moment i left (scan_start boundary))
        as (λ call.
          scan_blocks client moment i left (scan_start boundary) ≡ call
          → (scan : Scan) × IsScanned i left (scan_start boundary) scan
            × (search_result i scan ≡ result)) [
              | err x ↦ λ e. absurd (ground (arith, e))
              | ok (moved a) ↦ λ e. absurd (ground (arith, e))
              | ok (ended s) ↦ λ e.
                  elim (Result-cases
                    (check_block_anchor client (moment + left) i.observation.anchor)) [
                      | inr (x, e') ↦ absurd (ground (arith, e, e'))
                      | inl (none, e') ↦ (
                        s,
                        scan_blocks-IsScanned client moment i left (scan_start boundary) s refl b e,
                        ground (arith, e, e'),
                      )
                      | inl (some a, e') ↦ absurd (ground (arith, e, e'))
                    ]
            ]
      refl

saved_hash :
    (nonce : ℕ) (saved : ReplacementSearch)
    → saved_search_guard nonce saved ≡ ok tt
    → is_anchor (boundary_of saved) ≡ true
unfolding saved_search_guard
saved_hash nonce saved h = elim (Option-cases saved.searched_through) [
  | inl e ↦ ground (arith, e)
  | inr (through, e) ↦ ground (arith, e)
]

anchor_hash : (a : BlockAnchor) → is_anchor a ≡ true → is_fixed_hex a.block_hash 32 ≡ true
anchor_hash a h = ground arith

check_boundary_lem :
    (client : Client) (moment : ℕ) (saved : ReplacementSearch) (result : ReplacementSearchResult)
    → check_boundary client moment saved ≡ ok (some result)
    → is_scan_result result ≡ false
unfolding check_boundary
check_boundary_lem client moment saved result h = ground arith

search_checked_lem :
    (client : Client) (moment : ℕ) (i : SearchInput) (saved : ReplacementSearch)
    (result : ReplacementSearchResult)
    → search_checked client moment i saved ≡ ok result
    → is_scan_result result ≡ true
    → search_from client (moment + 3) i (boundary_of saved) ≡ ok result
unfolding search_checked
search_checked_lem client moment i saved result h k =
    elim (Result-cases (check_block_anchor client moment i.observation.anchor)) [
      | inr (x, e) ↦ absurd (ground (arith, e))
      | inl (some a, e) ↦ absurd (ground (arith, e))
      | inl (none, e) ↦ elim (Result-cases (check_boundary client (moment + 1) saved)) [
        | inr (x, e') ↦ absurd (ground (arith, e, e'))
        | inl (none, e') ↦ ground (arith, e, e')
        | inl (some r, e') ↦
            absurd (ground (arith, e, e', check_boundary_lem client (moment + 1) saved r e'))
      ]
    ]

search_saved_lem :
    (client : Client) (moment : ℕ) (i : SearchInput) (saved : ReplacementSearch)
    (result : ReplacementSearchResult)
    → search_saved client moment i saved ≡ ok result
    → is_scan_result result ≡ true
    → (saved_search_guard i.nonce saved ≡ ok tt)
      × (is_behind i.observation.anchor saved ≡ false)
      × (search_checked client moment i saved ≡ ok result)
unfolding search_saved
search_saved_lem client moment i saved result h k =
    elim (Result-cases (saved_search_guard i.nonce saved)) [
      | inr (x, e) ↦ absurd (ground (arith, e))
      | inl (u, e) ↦ elim (Bool-cases (is_behind i.observation.anchor saved)) [
        | inl e' ↦ absurd (ground (arith, e, e'))
        | inr e' ↦ (e, e', ground (arith, e, e'))
      ]
    ]

pub search_attempt_replacement-IsSearched :
    (client : Client) (moment : ℕ) (i : SearchInput) (result : ReplacementSearchResult)
    → search_attempt_replacement client moment i ≡ ok result
    → is_scan_result result ≡ true
    → IsSearched i result
unfolding search_attempt_replacement
search_attempt_replacement-IsSearched client moment i result h k =
    elim (Result-cases (search_input_guard i)) [
      | inr (x, e) ↦ absurd (ground (arith, e))
      | inl (u, e) ↦ elim (Option-cases i.replacement_search) [
        | inl e' ↦ absurd (ground (arith, e, e'))
        | inr (saved, e') ↦
            let (valid, front, checked) =
              search_saved_lem client moment i saved result (ground (arith, e, e')) k in
            let (scan, scanned, ends) =
              search_from_lem client (moment + 3) i (boundary_of saved) result
                (search_checked_lem client moment i saved result checked k) k
                (anchor_hash (boundary_of saved) (saved_hash i.nonce saved valid)) in
            record {
              saved = saved;
              is_saved = e';
              input_valid = e;
              saved_valid = valid;
              in_front = front;
              scan = scan;
              is_scanned = scanned;
              is_result = ends;
            }
      ]
    ]

pub not_found_lem :
    (i : SearchInput) (scan : Scan) (through : BlockAnchor) (scanned remaining : ℕ)
    → search_result i scan ≡ not_found through scanned remaining
    → (is_none scan.match ≡ true)
      × (scan.previous ≡ through)
      × (scan.scanned_blocks ≡ scanned)
      × (i.observation.anchor.block_number - through.block_number ≡ remaining)
unfolding search_result
not_found_lem i scan through scanned remaining h = elim (Option-cases scan.match) [
  | inl e ↦ (ground (arith, e), ground (arith, e), ground (arith, e), ground (arith, e))
  | inr ((hash, b), e) ↦ elim (Option-cases (recorded_hash i hash)) [
    | inl e' ↦ absurd (ground (arith, e, e'))
    | inr (r, e') ↦ absurd (ground (arith, e, e'))
  ]
]

pub has_range : (i : SearchInput) → search_input_guard i ≡ ok tt → 0 < i.max_block_range
unfolding search_input_guard
has_range i h = ground arith

pub boundary_le :
    (a : BlockAnchor) (saved : ReplacementSearch)
    → is_behind a saved ≡ false
    → (boundary_of saved).block_number ≤ a.block_number
boundary_le a saved h = ground arith

-- A search that finds nothing has read as many blocks behind its boundary as its range and the anchor
-- allow, one at least unless the boundary is the anchor's block; it ends at the last of them, and
-- reports how many remain to the anchor.
pub search_attempt_replacement_bounds :
    (client : Client) (moment : ℕ) (i : SearchInput) (through : BlockAnchor) (scanned remaining : ℕ)
    → search_attempt_replacement client moment i ≡ ok (not_found through scanned remaining)
    → (saved : ReplacementSearch) × (i.replacement_search ≡ some saved)
      × (scanned ≡ reach i saved)
      × (scanned ≤ i.max_block_range)
      × (through.block_number ≡ (boundary_of saved).block_number + scanned)
      × (through.block_number + remaining ≡ i.observation.anchor.block_number)
      × ((boundary_of saved).block_number < i.observation.anchor.block_number → 0 < scanned)
search_attempt_replacement_bounds client moment i through scanned remaining h =
    let s = search_attempt_replacement-IsSearched client moment i _ h refl in
    let (whole, at_end, count, left) =
      not_found_lem i s.scan through scanned remaining s.is_result in
    let counted = s.is_scanned.whole whole in
    let place = s.is_scanned.counted in
    let number = ap (λ (b : BlockAnchor). b.block_number) at_end in
    let front = boundary_le i.observation.anchor s.saved s.in_front in
    let range = has_range i s.input_valid in
    (
      s.saved,
      s.is_saved,
      omega (arith, counted, count),
      omega (arith, counted, count),
      omega (arith, number, place, count),
      omega (arith, number, place, count, counted, left, front),
      λ ahead. omega (arith, counted, count, range),
    )
