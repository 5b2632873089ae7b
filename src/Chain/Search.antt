-- ===== src/Chain/Search.antt =====
-- apps/relayer/src/chain/search-attempt-replacement.ts and chain/resolve-replacement-search.ts: the
-- search through full blocks for the transaction that took an attempt's nonce.
pub mod Scanned
pub mod Bounds
pub mod Evidence
pub mod Resume
pub mod Passes
pub mod Spec
pub mod Serving
pub mod Checks
use drand_quicknet_evm.Base.{
  ℕ, zero, suc, ◌+◌, ◌-◌, ◌==◌, ◌&&◌, ◌||◌, not, Bool, true, false, Option, none, some, List, [],
  ◌∷◌, Result, ok, err, ◌>>=◌, ◌>>◌, require, ltb, leb, min, length, find, if◌then◌else◌,
}
use drand_quicknet_evm.Text.{Text, is_fixed_hex, same}
use drand_quicknet_evm.Journal.{
  BlockAnchor, block_anchors_match, AnchoredNonceObservation, ReplacementSearch, replaced,
}
use drand_quicknet_evm.Journal.Value.{max_safe_integer}
use drand_quicknet_evm.Journal.Check.{is_uint, is_anchor}
use drand_quicknet_evm.Coordinator.{AttemptResolutionEvidence}
use drand_quicknet_evm.Chain.{
  Client, RpcTransaction, RpcBlock, Checked, rpc_failed, invalid_search_input,
  invalid_search_anchor, invalid_search_boundary, invalid_search_lower_bound, invalid_search_block,
  invalid_search_transaction, multiple_matches,
}
use drand_quicknet_evm.Chain.Anchor.{is_number, get_block_anchor, check_block_anchor}
use drand_quicknet_evm.Chain.Receipt.{are_hashes, is_empty_list}

-- `resolveReplacementSearch`, of an attempt's nonce and its search.
unfoldable pub resolve_replacement_search :
    ℕ → Option ReplacementSearch → AnchoredNonceObservation → Option ReplacementSearch
resolve_replacement_search nonce (some search) last = some search
resolve_replacement_search nonce none last =
    if leb last.nonce nonce
    then some (record { lower_bound = last; searched_through = none })
    else none

-- What is searched for, and how far at once.
pub record SearchInput : Type 0 where
  pub signer : Text
  pub nonce : ℕ
  pub hashes : List Text
  pub replacement_search : Option ReplacementSearch
  pub observation : AnchoredNonceObservation
  pub max_block_range : ℕ

pub data SearchBoundary : Type 0 where
  lower_bound searched_through : SearchBoundary

-- `ReplacementSearchResult`
pub data ReplacementSearchResult : Type 0 where
  missing_lower_bound anchor_behind_search : ReplacementSearchResult
  anchor_changed : BlockAnchor → ReplacementSearchResult
  boundary_changed : SearchBoundary → BlockAnchor → ReplacementSearchResult
  recorded_transaction_found : Text → BlockAnchor → BlockAnchor → ReplacementSearchResult
  replacement_found : AttemptResolutionEvidence → ReplacementSearchResult
  not_found : BlockAnchor → ℕ → ℕ → ReplacementSearchResult

-- The sender and the nonce are those searched for.
abbrev pub is_match : SearchInput → RpcTransaction → Bool
is_match i tx = same tx.sender i.signer && tx.nonce == i.nonce

abbrev pub is_transaction : RpcTransaction → Bool
is_transaction tx =
    is_fixed_hex tx.hash 32 && is_fixed_hex tx.sender 20 && leb tx.nonce max_safe_integer

-- The loop over the transactions of one block, with the match so far.
unfoldable pub find_match : SearchInput → List RpcTransaction → Option Text → Checked (Option Text)
find_match i [] match = ok match
find_match i (tx ∷ rest) match = elim (is_transaction tx) [
  | false ↦ err invalid_search_transaction
  | true ↦ elim (is_match i tx) [
    | false ↦ find_match i rest match
    | true ↦ elim match [
      | none ↦ find_match i rest (some (tx.hash))
      | some _ ↦ err multiple_matches
    ]
  ]
]

-- The variables of the loop over the blocks. `previous` is the block before the next one.
pub record Scan : Type 0 where
  pub previous : BlockAnchor
  pub scanned_blocks : ℕ
  pub match : Option (Text × BlockAnchor)

pub data ScanEnd : Type 0 where
  ended : Scan → ScanEnd
  moved : BlockAnchor → ScanEnd

-- The next block: at its number, and on top of the one before.
unfoldable pub read_search_block : Client → ℕ → BlockAnchor → Checked RpcBlock
read_search_block client moment previous =
    elim (client.get_block moment (previous.block_number + 1)) [
      | none ↦ err rpc_failed
      | some block ↦ do
        require
            (is_number block.number (previous.block_number + 1)
              && is_fixed_hex block.hash 32
              && is_fixed_hex block.parent_hash 32
              && same block.parent_hash previous.block_hash)
            invalid_search_block
        ok block
    ]

abbrev pub block_anchor : ℕ → RpcBlock → BlockAnchor
block_anchor number block = record { block_number = number; block_hash = block.hash }

-- The block of the anchor's number is another one.
abbrev pub has_moved : BlockAnchor → BlockAnchor → Bool
has_moved anchor inclusion =
    inclusion.block_number == anchor.block_number && not (block_anchors_match anchor inclusion)

-- One turn of the loop: the block that was read, and the match in it.
unfoldable pub scan_block :
    Client → ℕ → SearchInput → BlockAnchor → Checked (BlockAnchor × Option (Option Text))
scan_block client moment i previous = do
  block ← read_search_block client moment previous
  let inclusion = block_anchor (previous.block_number + 1) block
  elim (has_moved i.observation.anchor inclusion) [
    | true ↦ ok (inclusion, none)
    | false ↦ do match ← find_match i block.transactions none; ok (inclusion, some match)
  ]

-- The loop, with the number of blocks left. It stops behind the block of a match.
unfoldable pub scan_blocks : Client → ℕ → SearchInput → ℕ → Scan → Checked ScanEnd
scan_blocks client moment i zero s = ok (ended s)
scan_blocks client moment i (suc left) s = elim (scan_block client moment i s.previous) [
  | err e ↦ err e
  | ok (inclusion, none) ↦ ok (moved inclusion)
  | ok (inclusion, some none) ↦
      scan_blocks client (moment + 1) i left
        (record { previous = inclusion; scanned_blocks = s.scanned_blocks + 1; match = none })
  | ok (inclusion, some (some hash)) ↦ ok (
      ended (record {
        previous = inclusion;
        scanned_blocks = s.scanned_blocks + 1;
        match = some (hash, inclusion);
      }))
]

-- `recordedHashes.get(...)`
abbrev pub recorded_hash : SearchInput → Text → Option Text
recorded_hash i hash = find (λ recorded. same recorded hash) i.hashes

unfoldable pub search_result : SearchInput → Scan → ReplacementSearchResult
search_result i s = elim s.match [
  | none ↦
      not_found s.previous s.scanned_blocks
        (i.observation.anchor.block_number - s.previous.block_number)
  | some (hash, inclusion) ↦ elim (recorded_hash i hash) [
    | some recorded ↦ recorded_transaction_found recorded i.observation.anchor inclusion
    | none ↦ replacement_found (record {
      anchor = i.observation.anchor;
      inclusion = inclusion;
      outcome = replaced hash i.observation.nonce;
    })
  ]
]
