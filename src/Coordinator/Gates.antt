-- ===== src/Coordinator/Gates.antt =====
-- `status`, `canBroadcast`, `attempts`, `captureSubmissionRecording` and the guards of
-- apps/relayer/src/state/signer-coordinator.ts.
use drand_quicknet_evm.Base.{
  ℕ, ◌==◌, ◌&&◌, ◌||◌, not, Bool, true, false, Option, none, some, List, [], map, Result, ok, err,
  ◌>>=◌, ◌>>◌, require, find, if◌then◌else◌,
}
use drand_quicknet_evm.Text.{Text, text_eq}
use drand_quicknet_evm.Journal.{
  Phase, JournalAttempt, signed_transactions, is_unresolved, TransactionJournalRead, missing,
  present,
}
use drand_quicknet_evm.Persistence.{is_idle, failed_write_attempt_identity}
use drand_quicknet_evm.Gate.{
  EvaluateSignerGateOptions, SignerGateDecision, CoordinatorBlockers, decide_gate,
}
use drand_quicknet_evm.Coordinator.{
  Coordinator, CoordinatorError, InspectionOwner, InspectionHeadBracket, closed, bracket_failed,
  PendingWrite, prepared, inspection_in_progress, inspection_inactive, inspection_abandoned,
  operation_in_progress, bracket_failed_error, bracket_closed, pending_write_first,
}

abbrev pub Guard : Type 0
Guard = Result CoordinatorError (Unit {0})

abbrev pub is_none {ℓ} : {A : Type ℓ} → Option A → Bool
is_none none = true
is_none (some _) = false

abbrev pub gate_options : Coordinator → EvaluateSignerGateOptions
gate_options c = record {
  state = c.persistence.state;
  current = c.persistence.current;
  recovery_complete = c.recovery_complete;
  inclusion_checks_complete = c.inclusion_checks_complete;
  max_retained_attempts = c.max_retained_attempts;
  blockers = c.blockers;
}

-- `status`: the decision of the gate, which an operation under way and an inspection also close.
unfoldable pub status : Coordinator → SignerGateDecision
status c =
    let gate = decide_gate (gate_options c) in
    record gate { is_open = gate.is_open && not c.busy && is_none c.inspection_owner }

-- `assertAvailable()`
unfoldable pub assert_available : Coordinator → Guard
assert_available c =
    require (is_none c.inspection_owner) inspection_in_progress
    >> require (not (c.busy || c.emitting)) operation_in_progress

-- `assertInspectionOwner`, for the handle of this generation.
unfoldable pub inspection_owner_of : Coordinator → ℕ → Result CoordinatorError InspectionOwner
inspection_owner_of c handle = elim c.inspection_owner [
  | none ↦ err inspection_inactive
  | some owner ↦
      if owner.generation == handle && c.inspection_generation == handle
      then ok owner
      else err inspection_inactive
]

abbrev bracket_allows : InspectionHeadBracket → Guard
bracket_allows bracket_failed = err bracket_failed_error
bracket_allows closed = err bracket_closed
bracket_allows _ = ok tt

-- `assertInspectionWorkAllowed`
unfoldable pub assert_inspection_work_allowed :
    Coordinator → ℕ → Result CoordinatorError InspectionOwner
unfolding inspection_owner_of
assert_inspection_work_allowed c handle = do
  owner ← inspection_owner_of c handle
  require (not owner.abandoning) inspection_abandoned
  require (not (c.busy || c.emitting)) operation_in_progress
  bracket_allows owner.head_bracket
  ok owner

-- No write is outstanding or waits for a retry.
unfoldable pub assert_no_pending_write : Coordinator → Guard
assert_no_pending_write c =
    require (is_none c.pending_write && is_idle c.persistence.state) pending_write_first

abbrev pub no_blockers : CoordinatorBlockers → Bool
no_blockers bs = not bs.unattributed && not bs.exhausted

abbrev pub permits : Option Text → Text → Bool
permits none id = false
permits (some permit) id = text_eq permit id

-- `canBroadcast`: the oldest unresolved attempt has the one-use permit.
unfoldable pub can_broadcast : Coordinator → Bool
can_broadcast c =
    not (
      c.busy
      || c.emitting
      || not (is_none c.pending_write)
      || not (is_none c.inspection_owner)
      || not (is_idle c.persistence.state))
    && elim c.persistence.current [
      | missing ↦ false
      | present s ↦ elim (find is_unresolved s.attempts) [
        | none ↦ false
        | some attempt ↦
            c.recovery_complete
            && permits c.broadcast_permit attempt.attempt_id
            && no_blockers c.blockers
            && s.last_observation.nonce == attempt.nonce
      ]
    ]

-- `JournalAttempt['phase']`, without what is known of an inclusion.
pub data AttemptPhase : Type 0 where
  signed broadcast_may_have_occurred included : AttemptPhase

abbrev pub phase_of : Phase → AttemptPhase
phase_of Phase.signed = AttemptPhase.signed
phase_of Phase.broadcast_may_have_occurred = AttemptPhase.broadcast_may_have_occurred
phase_of (Phase.included _) = AttemptPhase.included

-- `attempts`
pub record AttemptSummary : Type 0 where
  pub attempt_id : Text
  pub work_id : Text
  pub nonce : ℕ
  pub phase : AttemptPhase
  pub transaction_hashes : List Text

unfoldable pub attempts : Coordinator → List AttemptSummary
attempts c = elim c.persistence.current [
  | missing ↦ []
  | present s ↦
      map
        (λ a. record {
          attempt_id = a.attempt_id;
          work_id = a.work_id;
          nonce = a.nonce;
          phase = phase_of a.phase;
          transaction_hashes = map (λ tx. tx.transaction_hash) (signed_transactions a);
        })
        s.attempts
]

-- What is recorded of a submission at a failure, with the identity of its attempt.
pub data SubmissionRecording : Type 0 where
  not_recorded : SubmissionRecording
  uncertain : Text → Text → SubmissionRecording
  retained : Text → Text → SubmissionRecording

abbrev pub find_work : Text → TransactionJournalRead → Option JournalAttempt
find_work work_id missing = none
find_work work_id (present s) = find (λ a. text_eq a.work_id work_id) s.attempts

abbrev is_prepared : Option PendingWrite → Bool
is_prepared (some prepared) = true
is_prepared _ = false

unfoldable pub capture_submission_recording : Coordinator → Text → SubmissionRecording
capture_submission_recording c work_id = elim (find_work work_id c.persistence.current) [
  | some a ↦ retained a.work_id a.attempt_id
  | none ↦
      if is_prepared c.pending_write
      then (elim (failed_write_attempt_identity work_id c.persistence) [
        | none ↦ not_recorded
        | some (work, attempt) ↦ uncertain work attempt
      ])
      else not_recorded
]
