-- ===== src/Chain/Recovery.antt =====
-- apps/relayer/src/chain/inspect-signer-recovery.ts: what the node says of the oldest attempt at a
-- durable block.
pub mod Found
pub mod Justified
pub mod Resolved
pub mod Progress
pub mod Updated
pub mod Accepted
use drand_quicknet_evm.Base.{
  ℕ, ◌+◌, ◌*◌, ◌&&◌, Bool, true, false, Option, none, some, List, [], ◌∷◌, map, Result, ok, err,
  ◌>>=◌, ◌>>◌, require, ltb, length, if◌then◌else◌,
}
use drand_quicknet_evm.Text.{Text, is_fixed_hex}
use drand_quicknet_evm.Journal.{
  BlockAnchor, AnchoredNonceObservation, JournalAttempt, signed_transactions,
  TransactionJournalSnapshot,
}
use drand_quicknet_evm.Journal.Value.{snapshot_value, identity_value}
use drand_quicknet_evm.Journal.Check.{is_uint}
use drand_quicknet_evm.Journal.Validation.Structure.{validate_journal_snapshot_structure}
use drand_quicknet_evm.Coordinator.Recover.{
  UnresolvedReceipt, UnresolvedSearch, SignerRecoveryInspection, oldest_attempt,
}
use drand_quicknet_evm.Chain.{Client, Checked, invalid_recovery_input, validation}
use drand_quicknet_evm.Chain.Nonce.{AnchoredNonceResult, read_anchored_nonce}
use drand_quicknet_evm.Chain.Receipt.{AttemptReceiptResult, reconcile_attempt_receipt}
use drand_quicknet_evm.Chain.Search.{
  SearchInput, ReplacementSearchResult, resolve_replacement_search,
}
use drand_quicknet_evm.Chain.Search.Checks.{search_attempt_replacement}

abbrev pub transaction_hashes : JournalAttempt → List Text
transaction_hashes a = map (λ tx. tx.transaction_hash) (signed_transactions a)

-- The search for an attempt's nonce after this observation.
abbrev pub search_for :
    TransactionJournalSnapshot → JournalAttempt → AnchoredNonceObservation → ℕ → SearchInput
search_for s a o max_block_range = record {
  signer = s.identity.signer;
  nonce = a.nonce;
  hashes = transaction_hashes a;
  replacement_search = resolve_replacement_search a.nonce a.replacement_search s.last_observation;
  observation = o;
  max_block_range = max_block_range;
}

-- What a search says of an attempt whose receipts did not resolve it.
unfoldable pub conclude_search :
    AnchoredNonceObservation
    → UnresolvedReceipt
    → ReplacementSearchResult
    → SignerRecoveryInspection
conclude_search o r (ReplacementSearchResult.anchor_changed b) =
    SignerRecoveryInspection.anchor_changed b
conclude_search o r (ReplacementSearchResult.replacement_found evidence) =
    SignerRecoveryInspection.resolution_available o evidence
conclude_search o r ReplacementSearchResult.missing_lower_bound =
    SignerRecoveryInspection.unresolved o r (some UnresolvedSearch.missing_lower_bound)
conclude_search o r ReplacementSearchResult.anchor_behind_search =
    SignerRecoveryInspection.unresolved o r (some UnresolvedSearch.anchor_behind_search)
conclude_search o r (ReplacementSearchResult.boundary_changed _ _) =
    SignerRecoveryInspection.unresolved o r (some UnresolvedSearch.boundary_changed)
conclude_search o r (ReplacementSearchResult.recorded_transaction_found _ _ _) =
    SignerRecoveryInspection.unresolved o r (some UnresolvedSearch.recorded_transaction_found)
conclude_search o r (ReplacementSearchResult.not_found through scanned remaining) =
    SignerRecoveryInspection.unresolved o r
      (some (UnresolvedSearch.not_found through scanned remaining))

-- No receipt of the attempt is on the chain: a nonce that was used is searched for.
unfoldable pub inspect_unreceipted :
    Client
    → ℕ
    → TransactionJournalSnapshot
    → JournalAttempt
    → ℕ
    → AnchoredNonceObservation
    → UnresolvedReceipt
    → Checked SignerRecoveryInspection
inspect_unreceipted client moment s a max_block_range o r = elim (ltb a.nonce o.nonce) [
  | false ↦ ok (SignerRecoveryInspection.unresolved o r none)
  | true ↦ do
    result ← search_attempt_replacement client moment (search_for s a o max_block_range)
    ok (conclude_search o r result)
]

-- The oldest attempt, by what its receipts say.
unfoldable pub inspect_receipted :
    Client
    → ℕ
    → TransactionJournalSnapshot
    → JournalAttempt
    → ℕ
    → AnchoredNonceObservation
    → AttemptReceiptResult
    → Checked SignerRecoveryInspection
inspect_receipted client moment s a max_block_range o (AttemptReceiptResult.verified evidence) =
    ok (
      if ltb a.nonce o.nonce
      then SignerRecoveryInspection.resolution_available o evidence
      else SignerRecoveryInspection.inconsistent_observations o)
inspect_receipted client moment s a max_block_range o
      (AttemptReceiptResult.included_not_durable _ _) =
    ok (
      if ltb a.nonce o.nonce
      then SignerRecoveryInspection.inconsistent_observations o
      else SignerRecoveryInspection.unresolved o UnresolvedReceipt.included_not_durable none)
inspect_receipted client moment s a max_block_range o AttemptReceiptResult.receipt_not_found =
    inspect_unreceipted client moment s a max_block_range o UnresolvedReceipt.receipt_not_found
inspect_receipted client moment s a max_block_range o
      (AttemptReceiptResult.fork_served_receipt _ _) =
    inspect_unreceipted client moment s a max_block_range o UnresolvedReceipt.fork_served_receipt
inspect_receipted client moment s a max_block_range o (AttemptReceiptResult.anchor_changed b) =
    ok (SignerRecoveryInspection.anchor_changed b)

-- The observed nonce, and the attempt with its receipts, if there is one.
unfoldable pub inspect_observed :
    Client
    → ℕ
    → TransactionJournalSnapshot
    → ℕ
    → AnchoredNonceObservation
    → Option (JournalAttempt × AttemptReceiptResult)
    → Checked SignerRecoveryInspection
inspect_observed client moment s max_block_range o oldest =
    elim (ltb o.nonce s.durable_next_nonce) [
      | true ↦ ok (SignerRecoveryInspection.nonce_behind_journal o)
      | false ↦ elim oldest [
        | none ↦ ok (SignerRecoveryInspection.no_attempt o)
        | some (a, receipt) ↦ inspect_receipted client moment s a max_block_range o receipt
      ]
    ]

unfoldable pub inspect_nonce :
    Client
    → ℕ
    → TransactionJournalSnapshot
    → BlockAnchor
    → ℕ
    → Option (JournalAttempt × AttemptReceiptResult)
    → Checked SignerRecoveryInspection
inspect_nonce client moment s anchor max_block_range oldest = do
  nonce ← read_anchored_nonce client moment s.identity.signer anchor
  elim nonce [
    | AnchoredNonceResult.anchor_changed b ↦ ok (SignerRecoveryInspection.anchor_changed b)
    | AnchoredNonceResult.verified o ↦
        inspect_observed client (moment + 3) s max_block_range o oldest
  ]

unfoldable pub inspect_oldest :
    Client → ℕ → TransactionJournalSnapshot → BlockAnchor → ℕ → Checked SignerRecoveryInspection
inspect_oldest client moment s anchor max_block_range = elim (oldest_attempt s) [
  | none ↦ inspect_nonce client moment s anchor max_block_range none
  | some a ↦ do
    receipt ← reconcile_attempt_receipt client moment (transaction_hashes a) anchor
    elim receipt [
      | AttemptReceiptResult.anchor_changed b ↦ ok (SignerRecoveryInspection.anchor_changed b)
      | other ↦
          inspect_nonce client (moment + 2 + 2 * length (transaction_hashes a)) s anchor
            max_block_range (some (a, other))
    ]
]

abbrev is_recovery_input : BlockAnchor → ℕ → Bool
is_recovery_input anchor max_block_range =
    is_fixed_hex anchor.block_hash 32 && ltb 0 max_block_range && is_uint max_block_range

-- `inspectSignerRecovery`
unfoldable pub inspect_signer_recovery :
    Client → ℕ → TransactionJournalSnapshot → BlockAnchor → ℕ → Checked SignerRecoveryInspection
inspect_signer_recovery client moment snapshot anchor max_block_range =
    elim (validate_journal_snapshot_structure (snapshot_value snapshot)
      (identity_value snapshot.identity)) [
        | err e ↦ err (validation e)
        | ok s ↦ do
          require (is_recovery_input anchor max_block_range) invalid_recovery_input
          inspect_oldest client moment s anchor max_block_range
      ]
