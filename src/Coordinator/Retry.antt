-- ===== src/Coordinator/Retry.antt =====
-- `retryPersistence` and `observeReconciliation` of apps/relayer/src/state/signer-coordinator.ts.
use drand_quicknet_evm.Base.{not, true, false, none, some, Result, ok, err, ◌>>=◌, ◌>>◌, require}
use drand_quicknet_evm.Text.{Text}
use drand_quicknet_evm.Persistence.{SaveOutcome, is_failed, retry}
use drand_quicknet_evm.Coordinator.{
  Coordinator, CoordinatorError, Method, PendingWrite, no_failed_write, observation_active,
  persistence_error, reconcile_attempt,
}
use drand_quicknet_evm.Coordinator.Gates.{Guard, assert_available}
use drand_quicknet_evm.Coordinator.Refresh.{refresh, finish_write}

unfoldable pub retry_guard : Coordinator → Result CoordinatorError PendingWrite
retry_guard c = do
  assert_available c
  pending ← elim c.pending_write [ none ↦ err no_failed_write | some p ↦ ok p ]
  require (is_failed c.persistence.state) no_failed_write
  ok pending

-- `retryPersistence`
unfoldable pub retry_persistence : SaveOutcome → Text → Coordinator → Method (Unit {0})
retry_persistence outcome now c = elim (retry_guard c) as (λ _. Method (Unit {0})) [
  | err e ↦ (err e, c)
  | ok pending ↦
      let (retried, p) = retry outcome c.persistence in
      elim retried as (λ _. Method (Unit {0})) [
        | err e ↦ (
          err (persistence_error e),
          refresh now reconcile_attempt (record c { persistence = p; busy = false }),
        )
        | ok _ ↦ (ok tt, finish_write now pending (record c { persistence = p; busy = true }))
      ]
]

abbrev pub observe_guard : Coordinator → Guard
observe_guard c =
    require (not c.reconciliation_observation_active) observation_active >> assert_available c

-- `observeReconciliation`: the gate's transitions within the action are published after it.
unfoldable pub observe_reconciliation :
    {A : Type 0} → Text → (Coordinator → Method A) → Coordinator → Method A
observe_reconciliation {A} now action c = elim (observe_guard c) as (λ _. Method A) [
  | err e ↦ (err e, c)
  | ok _ ↦
      let (result, c') = action (record c { reconciliation_observation_active = true }) in
      (
        result,
        refresh now reconcile_attempt (record c' { reconciliation_observation_active = false }),
      )
]
