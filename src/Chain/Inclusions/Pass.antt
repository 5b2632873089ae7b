-- ===== src/Chain/Inclusions/Pass.antt =====
-- The pass of apps/relayer/src/chain/inspect-signer-inclusions.ts: its checks, its order and its answer.
use drand_quicknet_evm.Base.{
  ℕ, ◌+◌, ◌*◌, ◌==◌, ◌&&◌, not, Bool, true, false, Option, none, some, List, [], ◌∷◌, map, ok, err,
  ◌>>=◌, ◌>>◌, require, ltb, leb, any, length, if◌then◌else◌,
}
use drand_quicknet_evm.Text.{Text}
use drand_quicknet_evm.Journal.{
  BlockAnchor, AnchoredNonceObservation, JournalAttempt, is_unresolved, TransactionJournalSnapshot,
}
use drand_quicknet_evm.Journal.Value.{snapshot_value, identity_value}
use drand_quicknet_evm.Journal.Check.{is_uint, is_anchor}
use drand_quicknet_evm.Journal.Validation.Structure.{validate_journal_snapshot_structure}
use drand_quicknet_evm.Coordinator.Inclusions.{SignerInclusionInspection}
use drand_quicknet_evm.Chain.{Client, Checked, invalid_inclusion_input, validation}
use drand_quicknet_evm.Chain.Anchor.{check_block_anchor}
use drand_quicknet_evm.Chain.Nonce.{AnchoredNonceResult, read_anchored_nonce}
use drand_quicknet_evm.Chain.Recovery.{transaction_hashes}
use drand_quicknet_evm.Chain.Inclusions.{
  Step, Entry, inspect_attempts, moved, search_entries, taken,
}

-- `broadcastAttemptId`: the first attempt that is not included, behind verified ones alone.
unfoldable pub broadcast_id : AnchoredNonceObservation → List Entry → Option Text
broadcast_id o [] = none
broadcast_id o (entry ∷ rest) =
    let later = broadcast_id o rest in
    if is_unresolved entry.attempt
    then (if entry.is_candidate && o.nonce == entry.attempt.nonce
        then some (entry.attempt.attempt_id)
        else none)
    else (if entry.is_verified then later else none)

abbrev pub all_verified : List Entry → Bool
all_verified entries = not (any (λ e. not e.is_verified) entries)

abbrev pub queue_of : List Entry → List JournalAttempt
queue_of entries = map (λ e. e.attempt) entries

-- The answer, once the closing check has passed: the queue has to be a journal's.
unfoldable pub conclude_inclusions :
    TransactionJournalSnapshot
    → AnchoredNonceObservation
    → List Entry
    → Checked SignerInclusionInspection
conclude_inclusions s o entries =
    elim (validate_journal_snapshot_structure
      (snapshot_value (record s { last_observation = o; attempts = queue_of entries }))
      (identity_value s.identity)) [
        | err e ↦ err (validation e)
        | ok next ↦ ok (
            SignerInclusionInspection.inspected (record {
              observation = next.last_observation;
              attempts = next.attempts;
              inclusion_checks_complete = all_verified entries;
              broadcast_attempt_id = broadcast_id o entries;
            }))
      ]

abbrev pub has_attempts : TransactionJournalSnapshot → Bool
has_attempts s = elim s.attempts [ [] ↦ false | _ ↦ true ]

-- A check of the head that the caller may have made itself.
unfoldable pub check_outer_head :
    Client → ℕ → Bool → TransactionJournalSnapshot → BlockAnchor → Checked (Option BlockAnchor)
check_outer_head client moment checks s head = elim (checks && has_attempts s) [
  | false ↦ ok none
  | true ↦ check_block_anchor client moment head
]

unfoldable pub close_inclusions :
    Client
    → ℕ
    → Bool
    → TransactionJournalSnapshot
    → AnchoredNonceObservation
    → BlockAnchor
    → List Entry
    → Checked SignerInclusionInspection
close_inclusions client moment checks s o head entries = do
  closing ← check_outer_head client moment checks s head
  elim closing [
    | some observed ↦ ok (SignerInclusionInspection.anchor_changed observed)
    | none ↦ conclude_inclusions s o entries
  ]

-- A verified attempt's nonce is not used at the head.
abbrev pub contradicts : AnchoredNonceObservation → Entry → Bool
contradicts o entry = entry.is_verified && leb o.nonce entry.attempt.nonce

unfoldable pub search_candidates :
    Client
    → ℕ
    → TransactionJournalSnapshot
    → AnchoredNonceObservation
    → BlockAnchor
    → Option ℕ
    → List Entry
    → Checked (Step (List Entry))
search_candidates client moment s o head none entries = ok (taken entries)
search_candidates client moment s o head (some range) entries =
    search_entries client moment s o head range entries

abbrev pub search_calls : Option ℕ → ℕ → ℕ
search_calls none count = 0
search_calls (some range) count = (4 + range) * count

-- The pass after the nonce was read.
unfoldable pub inspect_at_nonce :
    Client
    → ℕ
    → Bool
    → TransactionJournalSnapshot
    → AnchoredNonceObservation
    → BlockAnchor
    → Option ℕ
    → List Entry
    → Checked SignerInclusionInspection
inspect_at_nonce client moment checks s o head range entries =
    elim (ltb o.nonce s.durable_next_nonce) [
      | true ↦ ok (SignerInclusionInspection.nonce_behind_journal o)
      | false ↦ elim (any (contradicts o) entries) [
        | true ↦ ok (SignerInclusionInspection.inconsistent_observations o)
        | false ↦ do
          searched ← search_candidates client moment s o head range entries
          elim searched [
            | moved b ↦ ok (SignerInclusionInspection.anchor_changed b)
            | taken found ↦
                close_inclusions client (moment + search_calls range (length entries)) checks s o
                  head found
          ]
      ]
    ]

unfoldable pub inspect_entries :
    Client
    → ℕ
    → Bool
    → TransactionJournalSnapshot
    → BlockAnchor
    → Option ℕ
    → List Entry
    → Checked SignerInclusionInspection
inspect_entries client moment checks s head range entries = do
  nonce ← read_anchored_nonce client moment s.identity.signer head
  elim nonce [
    | AnchoredNonceResult.anchor_changed b ↦ ok (SignerInclusionInspection.anchor_changed b)
    | AnchoredNonceResult.verified o ↦
        inspect_at_nonce client (moment + 3) checks s o head range entries
  ]

-- The number of calls that the loop over the queue may make.
abbrev pub queue_calls : List JournalAttempt → ℕ
queue_calls [] = 0
queue_calls (a ∷ rest) = 2 + 2 * length (transaction_hashes a) + queue_calls rest

unfoldable pub inspect_queue :
    Client
    → ℕ
    → Bool
    → TransactionJournalSnapshot
    → BlockAnchor
    → Option ℕ
    → Checked SignerInclusionInspection
inspect_queue client moment checks s head range = do
  opening ← check_outer_head client moment checks s head
  elim opening [
    | some observed ↦ ok (SignerInclusionInspection.anchor_changed observed)
    | none ↦ do
      step ← inspect_attempts client (moment + 1) head s.attempts
      elim step [
        | moved b ↦ ok (SignerInclusionInspection.anchor_changed b)
        | taken entries ↦
            inspect_entries client (moment + 1 + queue_calls s.attempts) checks s head range entries
      ]
  ]

abbrev is_range : Option ℕ → Bool
is_range none = true
is_range (some range) = ltb 0 range && is_uint range

-- `inspectSignerInclusionsInternal`: with the outer checks it is `inspectSignerInclusions`, without
-- them `inspectSignerInclusionsWithinPass`.
unfoldable pub inspect_signer_inclusions :
    Client
    → ℕ
    → Bool
    → TransactionJournalSnapshot
    → BlockAnchor
    → Option ℕ
    → Checked SignerInclusionInspection
inspect_signer_inclusions client moment checks snapshot head range =
    elim (validate_journal_snapshot_structure (snapshot_value snapshot)
      (identity_value snapshot.identity)) [
        | err e ↦ err (validation e)
        | ok s ↦ do
          require (is_anchor head && is_range range) invalid_inclusion_input
          inspect_queue client moment checks s head range
      ]
