-- ===== src/Coordinator/Recovery.antt =====
-- `recoverOwned` and `recover` of apps/relayer/src/state/signer-coordinator.ts: the steps of a
-- recovery, and its writes.
use drand_quicknet_evm.Base.{
  ℕ, ◌^◌, ◌==◌, ◌&&◌, Bool, true, false, Option, none, some, [], ok, err, ◌>>◌, require, ltb,
  if◌then◌else◌,
}
use drand_quicknet_evm.Text.{Text}
use drand_quicknet_evm.Journal.{
  JournalIdentity, AnchoredNonceObservation, TransactionJournalSnapshot, missing, present,
}
use drand_quicknet_evm.Journal.Value.{snapshot_value, identity_value}
use drand_quicknet_evm.Journal.Validation.Structure.{validate_journal_snapshot_structure}
use drand_quicknet_evm.Journal.Verification.{Viem}
use drand_quicknet_evm.Persistence.{is_idle, save}
use drand_quicknet_evm.Coordinator.{
  Coordinator, CoordinatorError, Method, InspectionOwner, PendingWrite, bootstrap,
  signer_bootstrap_deferred, reconcile_attempt, invalid_recovery_input, blockers_remain,
  inspection_failed, validation, persistence_error,
}
use drand_quicknet_evm.Coordinator.Gates.{Guard, assert_no_pending_write, no_blockers}
use drand_quicknet_evm.Coordinator.Refresh.{refresh, finish_write, emit}
use drand_quicknet_evm.Coordinator.Inspection.{within_inspection}
use drand_quicknet_evm.Coordinator.Recover.{
  bootstrap_anchor_changed, bootstrap_deferred, ready, no_attempt, SignerRecoveryResult, inspected,
  bootstrapped, RecoveryEnvironment, observation_to_record, recovery_update, updated,
  grant_after_recovery,
}

abbrev pub RecoveryMethod : Type 0
RecoveryMethod = Method SignerRecoveryResult

-- The end of every recovery that started.
abbrev pub settled : Text → Coordinator → Coordinator
settled now c = refresh now reconcile_attempt (record c { busy = false })

unfoldable pub recovery_failed : Text → CoordinatorError → Coordinator → RecoveryMethod
recovery_failed now e c =
    let kept = if is_idle c.persistence.state then record c { pending_write = none } else c in
    (err e, settled now (record kept { recovery_complete = false }))

-- The journal that a bootstrap writes, at the observed nonce.
abbrev pub baseline_snapshot :
    JournalIdentity → AnchoredNonceObservation → TransactionJournalSnapshot
baseline_snapshot identity o = record {
  identity = identity;
  baseline = o;
  last_observation = o;
  next_nonce = o.nonce;
  durable_next_nonce = o.nonce;
  repairs = [];
  attempts = [];
}

abbrev same_deferral : Option (ℕ × ℕ × ℕ) → ℕ → ℕ → ℕ → Bool
same_deferral none durable latest pending = false
same_deferral (some (d, l, p)) durable latest pending = d == durable && l == latest && p == pending

-- A deferred bootstrap is reported when its counts are not those of the report before.
unfoldable pub report_deferral : AnchoredNonceObservation → ℕ → ℕ → Coordinator → Coordinator
report_deferral o latest pending c =
    if same_deferral c.last_bootstrap_deferral o.nonce latest pending
    then c
    else emit (signer_bootstrap_deferred o latest pending) reconcile_attempt
        (record c { last_bootstrap_deferral = some (o.nonce, latest, pending) })

unfoldable pub recover_guard : ℕ → Coordinator → Guard
recover_guard max_block_range c =
    require (ltb 0 max_block_range && ltb max_block_range (2 ^ 256)) invalid_recovery_input
    >> assert_no_pending_write c

module _ (viem : Viem) where
  -- The write of a recovery, and what follows when it is durable.
  unfoldable pub save_recovery :
      RecoveryEnvironment
      → PendingWrite
      → TransactionJournalSnapshot
      → SignerRecoveryResult
      → (Coordinator → Coordinator)
      → Coordinator
      → RecoveryMethod
  save_recovery env pending next result grant c =
      let (saved, p) = save viem env.outcome next c.persistence in
      let writing = record c { pending_write = some pending; persistence = p } in
      elim saved as (λ _. RecoveryMethod) [
        | err e ↦ recovery_failed env.now (persistence_error e) writing
        | ok _ ↦ (
          ok result,
          settled env.now
              (grant (finish_write env.now pending (record writing { recovery_complete = true }))),
        )
      ]

  -- A recovery without a journal.
  unfoldable pub recover_missing : RecoveryEnvironment → Coordinator → RecoveryMethod
  recover_missing env c =
      if no_blockers c.blockers
      then (elim env.bootstrap_decision as (λ _. RecoveryMethod) [
        | none ↦ recovery_failed env.now inspection_failed c
        | some (bootstrap_deferred o latest pending) ↦ (
          ok (bootstrapped (bootstrap_deferred o latest pending)),
          settled env.now (report_deferral o latest pending c),
        )
        | some (bootstrap_anchor_changed observed) ↦
            (ok (bootstrapped (bootstrap_anchor_changed observed)), settled env.now c)
        | some (ready o) ↦
            save_recovery env bootstrap (baseline_snapshot c.identity o) (inspected (no_attempt o))
              (λ c'. c') (record c { last_bootstrap_deferral = none })
      ])
      else recovery_failed env.now blockers_remain c

  -- A recovery of the journal `s`.
  unfoldable pub recover_present :
      RecoveryEnvironment → TransactionJournalSnapshot → Coordinator → RecoveryMethod
  recover_present env s c = elim env.inspection as (λ _. RecoveryMethod) [
    | none ↦ recovery_failed env.now inspection_failed c
    | some result ↦
        elim (observation_to_record c.blockers.unattributed s result) as (λ _. RecoveryMethod) [
          | none ↦ (ok (inspected result), settled env.now c)
          | some last ↦ elim (recovery_update s last result) as (λ _. RecoveryMethod) [
            | err e ↦ recovery_failed env.now e c
            | ok u ↦
                elim (validate_journal_snapshot_structure (snapshot_value (updated s u))
                    (identity_value c.identity))
                  as (λ _. RecoveryMethod) [
                    | err e ↦ recovery_failed env.now (validation e) c
                    | ok next ↦
                        save_recovery env u.pending next (inspected result)
                          (grant_after_recovery s result) c
                  ]
          ]
        ]
  ]

  -- `recoverOwned`, once the wrapper has admitted it.
  unfoldable pub recover_owned :
      ℕ → RecoveryEnvironment → InspectionOwner → Coordinator → RecoveryMethod
  recover_owned max_block_range env owner c =
      let running = record c {
        inspection_owner = some (record owner { has_run_operation = true });
      } in
      elim (recover_guard max_block_range running) as (λ _. RecoveryMethod) [
        | err e ↦ (err e, running)
        | ok _ ↦
            let begun = record running {
              broadcast_permit = none;
              busy = true;
              recovery_complete = false;
              inclusion_checks_complete = false;
            } in
            elim begun.persistence.current as (λ _. RecoveryMethod) [
              | missing ↦ recover_missing env begun
              | present s ↦ recover_present env s begun
            ]
      ]

  -- `recover`
  unfoldable pub recover : ℕ → RecoveryEnvironment → Coordinator → RecoveryMethod
  recover max_block_range env = within_inspection env.now (recover_owned max_block_range env)
