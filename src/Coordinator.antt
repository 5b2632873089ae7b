-- ===== src/Coordinator.antt =====
-- The state of the signer coordinator, apps/relayer/src/state/signer-coordinator.ts: its fields, the
-- owner of an inspection, the write that is outstanding, and what it reports to its log.
pub mod Durable
pub mod Evidence
pub mod Gates
pub mod Refresh
pub mod Creation
pub mod Inspection
pub mod Prepare
pub mod Broadcast
pub mod Recover
pub mod Recovery
pub mod Inclusions
pub mod Retry
pub mod Saved
pub mod Allocation
pub mod Prepared
pub mod Spent
pub mod Permit
pub mod Recorded
pub mod Resolution
pub mod Retried
pub mod Unsent
pub mod Released
pub mod Owned
pub mod OwnedInclusions
pub mod Scrubbing
pub mod Guards
pub mod Steady
pub mod Invariant
use drand_quicknet_evm.Base.{ℕ, Bool, Option, List, Result}
use drand_quicknet_evm.Text.{Text}
use drand_quicknet_evm.Journal.{
  BlockAnchor, JournalIdentity, AnchoredNonceObservation, InclusionOutcome, ReplacementSearch,
  Phase,
}
use drand_quicknet_evm.Journal.Value.{ValidationError}
use drand_quicknet_evm.Persistence.{JournalPersistence, PersistenceError}
use drand_quicknet_evm.Gate.{SignerBlocker, CoordinatorBlockers}

-- `AttemptResolutionEvidence`, of diagnostics/transaction-evidence.ts.
pub record AttemptResolutionEvidence : Type 0 where
  pub anchor : BlockAnchor
  pub inclusion : BlockAnchor
  pub outcome : InclusionOutcome

pub record ResolutionEvent : Type 0 where
  pub attempt_id : Text
  pub transaction_hash : Text
  pub nonce : ℕ
  pub resolution : AttemptResolutionEvidence

pub data PendingWrite : Type 0 where
  bootstrap observation prepared broadcast : PendingWrite
  resolution : ResolutionEvent → PendingWrite
  search_progress : Bool → PendingWrite

-- An RPC client, by the identity of the object.
abbrev pub PublicClient : Type 0
PublicClient = ℕ

pub data InspectionHeadBracket : Type 0 where
  unopened closed bracket_failed : InspectionHeadBracket
  opened : PublicClient → BlockAnchor → InspectionHeadBracket

-- The owner of the inspection under way. A handle on it is known by its generation: the generations
-- of two owners differ. That an operation of it runs is that the model is inside its transition.
pub record InspectionOwner : Type 0 where
  pub generation : ℕ
  pub abandoning : Bool
  pub has_run_operation : Bool
  pub head_bracket : InspectionHeadBracket

pub data SignerEventOperation : Type 0 where
  prepare_attempt broadcast_attempt reconcile_attempt : SignerEventOperation

pub data NotAcknowledgedObservation : Type 0 where
  request_error invalid_response hash_mismatch : NotAcknowledgedObservation

pub data SignerEvent : Type 0 where
  signer_blocked : Option SignerBlocker → List SignerBlocker → Text → SignerEvent
  signer_gate_released : List SignerBlocker → Text → SignerEvent
  attempt_resolved : ResolutionEvent → SignerEvent
  attempt_broadcast_accepted : Text → Text → ℕ → SignerEvent
  attempt_broadcast_not_acknowledged : Text → Text → ℕ → NotAcknowledgedObservation → SignerEvent
  signer_bootstrap_deferred : AnchoredNonceObservation → ℕ → ℕ → SignerEvent

-- An event as it went to the log: the operation, and the signed bytes that the log's error summary
-- keeps out of what it prints (`none` where no attempt log was installed).
pub record Emission : Type 0 where
  pub event : SignerEvent
  pub operation : SignerEventOperation
  pub protected : Option (List Text)

-- The content of a revision, which `JSON.stringify` prints.
pub record RevisedAttempt : Type 0 where
  pub attempt_id : Text
  pub nonce : ℕ
  pub phase : Phase
  pub transaction_hashes : List Text
  pub replacement_search : Option ReplacementSearch

pub data Revision : Type 0 where
  unset : Revision
  missing_journal : List SignerBlocker → Revision
  present_journal : ℕ → ℕ → List RevisedAttempt → List SignerBlocker → Revision

pub record Coordinator : Type 0 where
  pub persistence : JournalPersistence
  pub identity : JournalIdentity
  pub max_retained_attempts : ℕ
  pub recovery_complete : Bool
  pub inclusion_checks_complete : Bool
  pub reconciliation_observation_active : Bool
  pub busy : Bool
  pub emitting : Bool
  pub broadcast_permit : Option Text
  pub inspection_generation : ℕ
  pub inspection_owner : Option InspectionOwner
  pub blocked_since : Option Text
  pub previous_blockers : List SignerBlocker
  pub pending_write : Option PendingWrite
  pub attempt_log : Option (List Text)
  pub last_bootstrap_deferral : Option (ℕ × ℕ × ℕ)
  pub committed_durable_recovery_revision : Revision
  pub blockers : CoordinatorBlockers
  pub episode_reasons : List SignerBlocker
  pub emissions : List Emission

pub data CoordinatorError : Type 0 where
  invalid_capacity inspection_in_progress inspection_inactive : CoordinatorError
  inspection_abandoned operation_in_progress bracket_failed_error bracket_closed : CoordinatorError
  bracket_open bracket_late pending_persistence pending_write_first gate_closed : CoordinatorError
  invalid_work_identity signing_failed diagnostics_failed : CoordinatorError
  not_recorded reconciliation_required invalid_recovery_input : CoordinatorError
  blockers_remain inspection_failed nothing_to_resolve resolution_mismatch : CoordinatorError
  no_lower_bound uninitialized_journal head_mismatch invalid_head : CoordinatorError
  no_failed_write observation_active : CoordinatorError
  validation : ValidationError → CoordinatorError
  persistence_error : PersistenceError → CoordinatorError

-- A method returns or throws, and leaves a state either way.
abbrev pub Method : Type 0 → Type 0
Method A = Result CoordinatorError A × Coordinator
