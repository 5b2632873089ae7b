-- ===== src/Coordinator/Recover.antt =====
-- `recoverOwned` of apps/relayer/src/state/signer-coordinator.ts, with what chain/inspect-signer-recovery.ts
-- and chain/inspect-signer-bootstrap.ts answer as inputs.
use drand_quicknet_evm.Base.{
  ℕ, ◌+◌, ◌==◌, ◌&&◌, Bool, true, false, Option, none, some, List, [], ◌∷◌, Result, ok, err, ◌>>=◌,
  ◌>>◌, require, ltb, leb, if◌then◌else◌,
}
use drand_quicknet_evm.Text.{Text}
use drand_quicknet_evm.Journal.{
  BlockAnchor, AnchoredNonceObservation, ReplacementSearch, InclusionOutcome, success, reverted,
  replaced, JournalAttempt, is_unresolved, TransactionJournalSnapshot,
}
use drand_quicknet_evm.Persistence.{SaveOutcome}
use drand_quicknet_evm.Coordinator.{
  Coordinator, CoordinatorError, ResolutionEvent, AttemptResolutionEvidence, PendingWrite,
  observation, resolution, search_progress, nothing_to_resolve, resolution_mismatch, no_lower_bound,
}
use drand_quicknet_evm.Coordinator.Evidence.{is_resolution_evidence, matches_attempt}
use drand_quicknet_evm.Coordinator.Gates.{no_blockers}

-- `SignerBootstrapDecision`
pub data SignerBootstrapDecision : Type 0 where
  bootstrap_anchor_changed : BlockAnchor → SignerBootstrapDecision
  bootstrap_deferred : AnchoredNonceObservation → ℕ → ℕ → SignerBootstrapDecision
  ready : AnchoredNonceObservation → SignerBootstrapDecision

pub data UnresolvedReceipt : Type 0 where
  receipt_not_found included_not_durable fork_served_receipt : UnresolvedReceipt

-- `not_found` has the last block searched, the blocks scanned and the blocks that remain.
pub data UnresolvedSearch : Type 0 where
  missing_lower_bound anchor_behind_search boundary_changed : UnresolvedSearch
  recorded_transaction_found : UnresolvedSearch
  not_found : BlockAnchor → ℕ → ℕ → UnresolvedSearch

-- `SignerRecoveryInspection`
pub data SignerRecoveryInspection : Type 0 where
  anchor_changed : BlockAnchor → SignerRecoveryInspection
  nonce_behind_journal inconsistent_observations :
      AnchoredNonceObservation → SignerRecoveryInspection
  no_attempt : AnchoredNonceObservation → SignerRecoveryInspection
  resolution_available :
      AnchoredNonceObservation → AttemptResolutionEvidence → SignerRecoveryInspection
  unresolved :
      AnchoredNonceObservation
      → UnresolvedReceipt
      → Option UnresolvedSearch
      → SignerRecoveryInspection

pub data SignerRecoveryResult : Type 0 where
  inspected : SignerRecoveryInspection → SignerRecoveryResult
  bootstrapped : SignerBootstrapDecision → SignerRecoveryResult

-- Each of the inspections may throw.
pub record RecoveryEnvironment : Type 0 where
  pub bootstrap_decision : Option SignerBootstrapDecision
  pub inspection : Option SignerRecoveryInspection
  pub outcome : SaveOutcome
  pub now : Text

-- What the journal is to become, and the kind of its write; `none` where the result changes nothing.
pub record RecoveryUpdate : Type 0 where
  pub last_observation : AnchoredNonceObservation
  pub durable_next_nonce : ℕ
  pub attempts : List JournalAttempt
  pub pending : PendingWrite

abbrev is_stale_search : Option UnresolvedSearch → Bool
is_stale_search (some boundary_changed) = true
is_stale_search (some anchor_behind_search) = true
is_stale_search _ = false

-- The observation of a result that may be recorded.
abbrev pub recordable : SignerRecoveryInspection → Option AnchoredNonceObservation
recordable (no_attempt o) = some o
recordable (resolution_available o _) = some o
recordable (unresolved o _ search) = if is_stale_search search then none else some o
recordable _ = none

abbrev is_resolution : SignerRecoveryInspection → Bool
is_resolution (resolution_available _ _) = true
is_resolution _ = false

-- `lastObservation`: evidence of unattributed activity is kept against a lower observation.
unfoldable pub observation_to_record :
    Bool → TransactionJournalSnapshot → SignerRecoveryInspection → Option AnchoredNonceObservation
observation_to_record unattributed s result = elim (recordable result) [
  | none ↦ none
  | some o ↦
      if unattributed && ltb o.nonce s.last_observation.nonce
      then (if is_resolution result then some s.last_observation else none)
      else some o
]

abbrev pub oldest_attempt : TransactionJournalSnapshot → Option JournalAttempt
oldest_attempt s = elim s.attempts [ [] ↦ none | a ∷ _ ↦ some a ]

abbrev pub later_attempts : TransactionJournalSnapshot → List JournalAttempt
later_attempts s = elim s.attempts [ [] ↦ [] | _ ∷ rest ↦ rest ]

-- The transaction that an event names: the first one recorded, where another took the nonce.
abbrev pub resolved_hash : JournalAttempt → InclusionOutcome → Text
resolved_hash a (success hash) = hash
resolved_hash a (reverted hash) = hash
resolved_hash a (replaced _ _) = a.first_transaction.transaction_hash

abbrev pub resolution_event : JournalAttempt → AttemptResolutionEvidence → ResolutionEvent
resolution_event a evidence = record {
  attempt_id = a.attempt_id;
  transaction_hash = resolved_hash a evidence.outcome;
  nonce = a.nonce;
  resolution = evidence;
}

unfoldable pub resolve_oldest :
    TransactionJournalSnapshot
    → AnchoredNonceObservation
    → AttemptResolutionEvidence
    → Result CoordinatorError RecoveryUpdate
resolve_oldest s last evidence = elim (oldest_attempt s) [
  | none ↦ err nothing_to_resolve
  | some oldest ↦ do
    require (is_resolution_evidence evidence) resolution_mismatch
    require (matches_attempt oldest evidence.outcome) resolution_mismatch
    ok (record {
      last_observation = last;
      durable_next_nonce = oldest.nonce + 1;
      attempts = later_attempts s;
      pending = resolution (resolution_event oldest evidence);
    })
]

-- The lower bound of a search: the one recorded, or an observation at which the nonce was not used.
abbrev pub lower_bound_for :
    TransactionJournalSnapshot
    → AnchoredNonceObservation
    → JournalAttempt
    → Option ReplacementSearch
lower_bound_for s last a = elim a.replacement_search [
  | some search ↦ some search
  | none ↦
      if leb last.nonce a.nonce
      then some (record { lower_bound = last; searched_through = none })
      else if leb s.last_observation.nonce a.nonce
      then some (record { lower_bound = s.last_observation; searched_through = none })
      else none
]

abbrev pub progress_of : SignerRecoveryInspection → Option (BlockAnchor × Bool)
progress_of (unresolved _ _ (some (not_found through scanned remaining))) =
    if ltb 0 scanned then some (through, remaining == 0) else none
progress_of _ = none

abbrev pub advance :
    Option (BlockAnchor × Bool)
    → Option ReplacementSearch
    → Result CoordinatorError (Option ReplacementSearch × PendingWrite)
advance none search = ok (search, observation)
advance (some _) none = err no_lower_bound
advance (some (through, exhausted)) (some search) =
    ok (some (record search { searched_through = some through }), search_progress exhausted)

unfoldable pub record_search :
    TransactionJournalSnapshot
    → AnchoredNonceObservation
    → SignerRecoveryInspection
    → Result CoordinatorError RecoveryUpdate
record_search s last result = elim (oldest_attempt s) [
  | none ↦ ok (record {
    last_observation = last;
    durable_next_nonce = s.durable_next_nonce;
    attempts = s.attempts;
    pending = observation;
  })
  | some oldest ↦ do
    advanced ← advance (progress_of result) (lower_bound_for s last oldest)
    ok (record {
      last_observation = last;
      durable_next_nonce = s.durable_next_nonce;
      attempts = record oldest { replacement_search = advanced.0 } ∷ later_attempts s;
      pending = advanced.1;
    })
]

unfoldable pub recovery_update :
    TransactionJournalSnapshot
    → AnchoredNonceObservation
    → SignerRecoveryInspection
    → Result CoordinatorError RecoveryUpdate
recovery_update s last (resolution_available _ evidence) = resolve_oldest s last evidence
recovery_update s last result = record_search s last result

abbrev pub updated : TransactionJournalSnapshot → RecoveryUpdate → TransactionJournalSnapshot
updated s u = record s {
  last_observation = u.last_observation;
  durable_next_nonce = u.durable_next_nonce;
  attempts = u.attempts;
}

-- The receipts of the oldest attempt allow it to be sent (again).
abbrev is_absent : UnresolvedReceipt → Bool
is_absent included_not_durable = false
is_absent _ = true

abbrev pub grants_broadcast : SignerRecoveryInspection → JournalAttempt → Bool
grants_broadcast (unresolved o receipt none) a =
    is_unresolved a && o.nonce == a.nonce && is_absent receipt
grants_broadcast _ a = false

unfoldable pub grant_after_recovery :
    TransactionJournalSnapshot → SignerRecoveryInspection → Coordinator → Coordinator
grant_after_recovery s result c = elim (oldest_attempt s) [
  | none ↦ c
  | some a ↦
      if grants_broadcast result a && no_blockers c.blockers
      then record c { broadcast_permit = some a.attempt_id }
      else c
]
