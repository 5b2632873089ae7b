-- ===== src/Chain/Search/Checks.antt =====
-- The checks around the scan of apps/relayer/src/chain/search-attempt-replacement.ts.
use drand_quicknet_evm.Base.{
  ℕ, ◌+◌, ◌-◌, ◌&&◌, ◌||◌, not, Bool, true, false, Option, none, some, [], ok, ◌>>=◌, ◌>>◌, require,
  ltb, leb, min, if◌then◌else◌,
}
use drand_quicknet_evm.Text.{is_fixed_hex}
use drand_quicknet_evm.Journal.{BlockAnchor, block_anchors_match, ReplacementSearch}
use drand_quicknet_evm.Journal.Check.{is_uint, is_anchor}
use drand_quicknet_evm.Chain.{
  Client, Checked, invalid_search_input, invalid_search_anchor, invalid_search_boundary,
  invalid_search_lower_bound,
}
use drand_quicknet_evm.Chain.Anchor.{get_block_anchor, check_block_anchor}
use drand_quicknet_evm.Chain.Receipt.{are_hashes, is_empty_list}
use drand_quicknet_evm.Chain.Search.{
  ReplacementSearchResult, SearchInput, anchor_behind_search, anchor_changed, boundary_changed,
  ended, lower_bound, missing_lower_bound, moved, scan_blocks, search_result, searched_through,
}

-- The scan from the boundary on, and the closing check of the anchor.
unfoldable pub search_from :
    Client → ℕ → SearchInput → BlockAnchor → Checked ReplacementSearchResult
search_from client moment i boundary = do
  let left = min i.max_block_range (i.observation.anchor.block_number - boundary.block_number)
  end ←
      scan_blocks client moment i left
        (record { previous = boundary; scanned_blocks = 0; match = none })
  elim end [
    | moved inclusion ↦ ok (anchor_changed inclusion)
    | ended s ↦ do
      after ← check_block_anchor client (moment + left) i.observation.anchor
      ok (elim after [ some observed ↦ anchor_changed observed | none ↦ search_result i s ])
  ]

-- `searchedThrough`, if there is one, is the boundary, and is checked as the lower bound was.
abbrev pub boundary_of : ReplacementSearch → BlockAnchor
boundary_of search = elim search.searched_through [
  | some through ↦ through
  | none ↦ search.lower_bound.anchor
]

abbrev is_saved : BlockAnchor → BlockAnchor → Bool
is_saved = block_anchors_match

unfoldable pub check_boundary :
    Client → ℕ → ReplacementSearch → Checked (Option ReplacementSearchResult)
check_boundary client moment search = do
  lower ← get_block_anchor client moment search.lower_bound.anchor.block_number
  elim (is_saved search.lower_bound.anchor lower) [
    | false ↦ ok (some (boundary_changed lower_bound lower))
    | true ↦ elim search.searched_through [
      | none ↦ ok none
      | some through ↦ do
        observed ← get_block_anchor client (moment + 1) through.block_number
        ok (
            if is_saved through observed
            then none
            else some (boundary_changed searched_through observed))
    ]
  ]

unfoldable pub search_checked :
    Client → ℕ → SearchInput → ReplacementSearch → Checked ReplacementSearchResult
search_checked client moment i search = do
  before ← check_block_anchor client moment i.observation.anchor
  elim before [
    | some observed ↦ ok (anchor_changed observed)
    | none ↦ do
      boundary ← check_boundary client (moment + 1) search
      elim boundary [
        | some result ↦ ok result
        | none ↦ search_from client (moment + 3) i (boundary_of search)
      ]
  ]

abbrev is_search_input : SearchInput → Bool
is_search_input i =
    is_fixed_hex i.signer 20
    && is_uint i.nonce
    && is_uint i.observation.nonce
    && ltb i.nonce i.observation.nonce
    && is_uint i.max_block_range
    && ltb 0 i.max_block_range

abbrev through_guard : ReplacementSearch → Checked (Unit {0})
through_guard search = elim search.searched_through [
  | none ↦ ok tt
  | some through ↦
      require (is_anchor through) invalid_search_anchor
      >> require (ltb search.lower_bound.anchor.block_number through.block_number)
          invalid_search_boundary
]

-- What is tested of a saved search before the first call.
unfoldable pub saved_search_guard : ℕ → ReplacementSearch → Checked (Unit {0})
saved_search_guard nonce search = do
  require (is_anchor search.lower_bound.anchor) invalid_search_anchor
  through_guard search
  require (is_uint search.lower_bound.nonce && leb search.lower_bound.nonce nonce)
      invalid_search_lower_bound

abbrev pub is_behind : BlockAnchor → ReplacementSearch → Bool
is_behind anchor search =
    not (ltb search.lower_bound.anchor.block_number anchor.block_number)
    || ltb anchor.block_number (boundary_of search).block_number

unfoldable pub search_saved :
    Client → ℕ → SearchInput → ReplacementSearch → Checked ReplacementSearchResult
search_saved client moment i search = do
  saved_search_guard i.nonce search
  elim (is_behind i.observation.anchor search) [
    | true ↦ ok anchor_behind_search
    | false ↦ search_checked client moment i search
  ]

unfoldable pub search_input_guard : SearchInput → Checked (Unit {0})
search_input_guard i = do
  require (not (is_empty_list i.hashes) && are_hashes i.hashes []) invalid_search_input
  require (is_anchor i.observation.anchor) invalid_search_anchor
  require (is_search_input i) invalid_search_input

-- `searchAttemptReplacement`, from this moment on.
unfoldable pub search_attempt_replacement :
    Client → ℕ → SearchInput → Checked ReplacementSearchResult
search_attempt_replacement client moment i = do
  search_input_guard i
  elim i.replacement_search [
    | none ↦ ok missing_lower_bound
    | some search ↦ search_saved client moment i search
  ]
