-- ===== src/Tests/Queue.antt =====
-- The theorems on what the coordinator does to the queue, at one signer with one attempt.
use drand_quicknet_evm.Base.{
  ◌+◌, ◌≤◌, ◌≡◌, refl, ok, true, false, ◌⊎◌, List, [], ◌∷◌, none, some, Option,
}
use drand_quicknet_evm.Text.{
  is_work_id, is_well_formed, is_printable, is_high, is_low, is_fixed_hex, is_hex_unit, lower_unit,
}
use drand_quicknet_evm.Journal.{
  AnchoredNonceObservation, JournalSignedTransaction, JournalAttempt, TransactionJournalSnapshot,
  success, present,
}
use drand_quicknet_evm.Journal.Check.{is_within}
use drand_quicknet_evm.Journal.Value.{snapshot_value, identity_value}
use drand_quicknet_evm.Journal.Validation.Structure.{validate_journal_snapshot_structure}
use drand_quicknet_evm.Journal.Validation.Laws.{validate-snapshot_value}
use drand_quicknet_evm.Gate.{decide_gate, blocks}
use drand_quicknet_evm.Persistence.{
  failed, create, save, persist_pending, resolved, rejected_written,
}
use drand_quicknet_evm.Coordinator.{
  Coordinator, AttemptResolutionEvidence, prepared, resolution, reconcile_attempt,
}
use drand_quicknet_evm.Coordinator.Gates.{status, assert_available, assert_no_pending_write}
use drand_quicknet_evm.Coordinator.Creation.{initialized, create_coordinator}
use drand_quicknet_evm.Coordinator.Refresh.{
  refresh, latch_unattributed_activity, latch_exhausted_search, update_durable_recovery_revision,
}
use drand_quicknet_evm.Coordinator.Evidence.{is_resolution_evidence, matches_attempt}
use drand_quicknet_evm.Coordinator.Inspection.{started}
use drand_quicknet_evm.Coordinator.Prepare.{
  PrepareEnvironment, prepared_attempt, prepare_guard, prepare, allocate, save_prepared,
}
use drand_quicknet_evm.Coordinator.Recover.{
  SignerRecoveryInspection, RecoveryEnvironment, RecoveryUpdate, resolution_available, inspected,
  observation_to_record, recovery_update, resolve_oldest, resolution_event, updated,
}
use drand_quicknet_evm.Coordinator.Recovery.{
  recover_owned, recover_present, recover_guard, save_recovery,
}
use drand_quicknet_evm.Coordinator.Retry.{retry_guard, retry_persistence}
use drand_quicknet_evm.Coordinator.Invariant.{IsSteady}
use drand_quicknet_evm.Coordinator.Invariant.Calls.{
  prepare_call, recover_call, retry_call, alone, observed, after_segments, create-after_segments,
}
use drand_quicknet_evm.Coordinator.Prepared.{IsRetained, IsPrepared, prepare_lem}
use drand_quicknet_evm.Coordinator.Recorded.{begun, IsRecorded, Recorded, recover_owned-Recorded}
use drand_quicknet_evm.Coordinator.Resolution.{IsUpdateOf, recovery_update_lem, resolution_lem}
use drand_quicknet_evm.Coordinator.Retried.{IsRetriedBy, KeepsAuthorization, retry_persistence_lem}
use drand_quicknet_evm.Tests.Data.{
  identity, later, hash, transaction, attempt, journal, empty_journal, resolved_journal, viem,
}
use drand_quicknet_evm.Tests.Accepted.{
  journal-IsJournal, resolved_journal-IsJournal, journal-Accepted, resolved-Accepted,
}
use drand_quicknet_evm.Tests.Coordinator.{now, options, loaded}

-- A coordinator that has recovered and checked the inclusions of an empty journal.
abbrev free : Coordinator
free = record (initialized (options empty_journal) (loaded empty_journal)) {
  recovery_complete = true;
  inclusion_checks_complete = true;
}

abbrev prepare_env : PrepareEnvironment
prepare_env = record {
  attempt_id = attempt.attempt_id;
  created_at = attempt.created_at;
  sign = λ _. some transaction;
  has_summary = true;
  outcome = resolved;
  now = now;
}

free_guard : prepare_guard attempt.work_id free ≡ ok empty_journal
unfolding prepare_guard assert_available assert_no_pending_write status decide_gate blocks
    is_work_id is_well_formed is_printable is_high is_low
free_guard = refl

prepared_saved : (save viem resolved journal (loaded empty_journal)).0 ≡ ok tt
unfolding save persist_pending
prepared_saved = simp (save, persist_pending, journal-Accepted)

prepares :
    (prepare viem attempt.work_id prepare_env free).0
    ≡ ok (prepared_attempt attempt.attempt_id hash 5)
unfolding prepare allocate save_prepared
prepares = simp (
  prepare,
  free_guard,
  allocate,
  validate-snapshot_value identity journal journal-IsJournal,
  save_prepared,
  prepared_saved,
)

prepare_example :
    (s : TransactionJournalSnapshot) × (((a : JournalAttempt) × IsRetained viem attempt.work_id s a
          (prepared_attempt attempt.attempt_id hash 5)
          free
          (prepare viem attempt.work_id prepare_env free).1)
      ⊎ ((tx : JournalSignedTransaction) × IsPrepared viem attempt.work_id prepare_env s tx
            (prepared_attempt attempt.attempt_id hash 5)
            free
            (prepare viem attempt.work_id prepare_env free).1))
prepare_example =
    prepare_lem viem attempt.work_id prepare_env free (prepared_attempt attempt.attempt_id hash 5)
      prepares

-- A recovery whose inspection found the attempt included.
abbrev evidence : AttemptResolutionEvidence
evidence = record {
  anchor = later.anchor;
  inclusion = record { block_number = 110; block_hash = hash };
  outcome = success hash;
}

abbrev finding : SignerRecoveryInspection
finding = resolution_available later evidence

abbrev recovery_env : RecoveryEnvironment
recovery_env = record {
  bootstrap_decision = none;
  inspection = some finding;
  outcome = resolved;
  now = now;
}

-- The coordinator within its first inspection.
abbrev inspecting : Coordinator
inspecting = record (initialized (options journal) (loaded journal)) {
  inspection_generation = 1;
  inspection_owner = some (started 1);
}

inspecting-IsSteady : IsSteady viem inspecting
unfolding IsSteady
inspecting-IsSteady = (record { settled = refl; accepted = journal-Accepted }, refl, refl, refl, tt)

inspecting_guard :
    recover_guard 1000 (record inspecting {
      inspection_owner = some (record (started 1) { has_run_operation = true });
    })
    ≡ ok tt
unfolding recover_guard assert_no_pending_write
inspecting_guard = refl

records : observation_to_record false journal finding ≡ some later
unfolding observation_to_record
records = refl

abbrev resolving : RecoveryUpdate
resolving = record {
  last_observation = later;
  durable_next_nonce = 6;
  attempts = [];
  pending = resolution (resolution_event attempt evidence);
}

resolves : recovery_update journal later finding ≡ ok resolving
unfolding recovery_update resolve_oldest is_resolution_evidence matches_attempt is_within
    is_fixed_hex is_hex_unit lower_unit
resolves = refl

resolved_saved : (save viem resolved resolved_journal (loaded journal)).0 ≡ ok tt
unfolding save persist_pending
resolved_saved = simp (save, persist_pending, resolved-Accepted)

presently_recovers :
    (env : RecoveryEnvironment) (result : SignerRecoveryInspection)
    (s next : TransactionJournalSnapshot) (c : Coordinator) (last : AnchoredNonceObservation)
    (u : RecoveryUpdate)
    → env.inspection ≡ some result
    → observation_to_record c.blockers.unattributed s result ≡ some last
    → recovery_update s last result ≡ ok u
    → validate_journal_snapshot_structure (snapshot_value (updated s u)) (identity_value c.identity)
      ≡ ok next
    → (save viem env.outcome next c.persistence).0 ≡ ok tt
    → (recover_present viem env s c).0 ≡ ok (inspected result)
unfolding recover_present save_recovery
presently_recovers env result s next c last u e o eu v w =
    rw (recover_present, e, o, eu, v, save_recovery, w) refl

recovers : (recover_owned viem 1000 recovery_env (started 1) inspecting).0 ≡ ok (inspected finding)
unfolding recover_owned
recovers =
    rw (recover_owned, inspecting_guard)
      (presently_recovers recovery_env finding journal resolved_journal
        (begun (started 1) inspecting) later resolving refl records resolves
        (validate-snapshot_value identity resolved_journal resolved_journal-IsJournal)
        resolved_saved)

recover_owned_example :
    (result : SignerRecoveryInspection) × (◌≡◌ {A = Option SignerRecoveryInspection}
      (some finding)
      (some result))
    × (inspected finding ≡ inspected result)
    × Recorded viem journal result
        (begun (started 1) inspecting)
        (recover_owned viem 1000 recovery_env (started 1) inspecting).1
recover_owned_example =
    recover_owned-Recorded viem 1000 recovery_env (started 1) journal inspecting (inspected finding)
      refl refl recovers

resolution_example :
    (a : JournalAttempt) × (rest : List JournalAttempt) × (last : AnchoredNonceObservation) × (◌≡◌
      {A = List JournalAttempt}
      (attempt ∷ [])
      (a ∷ rest))
    × (is_resolution_evidence evidence ≡ true)
    × (matches_attempt a evidence.outcome ≡ true)
    × (6 ≤ last.nonce)
    × ((false ≡ false) ⊎ (5 ≤ last.nonce))
    × IsRecorded viem
        (record journal { last_observation = last; durable_next_nonce = 5 + 1; attempts = rest })
        (recover_owned viem 1000 recovery_env (started 1) inspecting).1
resolution_example =
    resolution_lem viem 1000 recovery_env (started 1) journal inspecting later evidence
      inspecting-IsSteady refl recovers

recovery_update_example : (later ≡ later) × IsUpdateOf journal finding resolving
recovery_update_example = recovery_update_lem journal later finding resolving resolves

-- After a preparation whose write failed.
abbrev interrupted : Coordinator
interrupted = record (initialized (options empty_journal) (loaded empty_journal)) {
  persistence = record (loaded empty_journal) {
    state = failed;
    pending = some journal;
    disk = present journal;
  };
  pending_write = some prepared;
}

interrupted_guard : retry_guard interrupted ≡ ok prepared
unfolding retry_guard assert_available
interrupted_guard = refl

retry_persistence_example :
    let (result, d) = retry_persistence resolved now interrupted in
    IsRetriedBy resolved journal prepared interrupted result d × KeepsAuthorization interrupted d
retry_persistence_example =
    retry_persistence_lem resolved now journal prepared interrupted interrupted_guard refl

-- A new coordinator, over a journal with one attempt.
abbrev created : Coordinator
created = update_durable_recovery_revision (
    refresh now reconcile_attempt (
      latch_exhausted_search (
        latch_unattributed_activity (record (initialized (options journal) (loaded journal)) {
          attempt_log = some (transaction.signed_transaction ∷ []);
          blocked_since = some attempt.created_at;
        }))))

loads : create viem identity (present journal) ≡ ok (loaded journal)
unfolding create is_fixed_hex is_hex_unit
loads = simp (create, journal-Accepted)

creates : create_coordinator viem (options journal) ≡ ok created
unfolding create_coordinator
creates = simp (create_coordinator, loads)

create-after_segments_example : IsSteady viem (
    after_segments viem
      (observed now (recover_call 1000 recovery_env ∷ [])
        ∷ alone (prepare_call attempt.work_id prepare_env ∷ retry_call rejected_written now ∷ [])
        ∷ [])
      created)
create-after_segments_example =
    create-after_segments viem (options journal)
      (observed now (recover_call 1000 recovery_env ∷ [])
        ∷ alone (prepare_call attempt.work_id prepare_env ∷ retry_call rejected_written now ∷ [])
        ∷ [])
      created creates
