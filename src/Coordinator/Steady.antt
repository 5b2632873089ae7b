-- ===== src/Coordinator/Steady.antt =====
-- What holds of the coordinator between two calls, apps/relayer/src/state/signer-coordinator.ts.
use drand_quicknet_evm.Base.{◌≡◌, refl, false, Option, none, some, arith}
use drand_quicknet_evm.Text.{Text}
use drand_quicknet_evm.Persistence.{PersistenceState, idle, failed}
use drand_quicknet_evm.Gate.{SignerGateDecision}
use drand_quicknet_evm.Coordinator.{Coordinator, PendingWrite, SignerEvent, SignerEventOperation}
use drand_quicknet_evm.Coordinator.Gates.{status}
use drand_quicknet_evm.Coordinator.Refresh.{
  emit, report_blocked, report_released, drop_attempt_log, refresh, latch_unattributed_activity,
  latch_exhausted_search, operation_of, update_durable_recovery_revision, settle, finish_write,
}

-- A write is outstanding exactly when the persistence holds one that failed.
abbrev pub Outstanding : PersistenceState → Option PendingWrite → Type 0
Outstanding idle none = Unit
Outstanding failed (some _) = Unit
Outstanding _ _ = ⊥

-- The fields of the coordinator that only an operation changes, and no report of it.
pub record IsSame (c d : Coordinator) : Type 0 where
  pub persistence_same : c.persistence ≡ d.persistence
  pub identity_same : c.identity ≡ d.identity
  pub recovery_same : c.recovery_complete ≡ d.recovery_complete
  pub inclusion_same : c.inclusion_checks_complete ≡ d.inclusion_checks_complete
  pub observing_same : c.reconciliation_observation_active ≡ d.reconciliation_observation_active
  pub busy_same : c.busy ≡ d.busy
  pub emitting_same : c.emitting ≡ d.emitting
  pub permit_same : c.broadcast_permit ≡ d.broadcast_permit
  pub generation_same : c.inspection_generation ≡ d.inspection_generation
  pub owner_same : c.inspection_owner ≡ d.inspection_owner
  pub pending_same : c.pending_write ≡ d.pending_write
  pub blockers_same : c.blockers ≡ d.blockers

pub trans_IsSame : (c d e : Coordinator) → IsSame c d → IsSame d e → IsSame c e
trans_IsSame c d e h k = record {
  persistence_same = cc;
  identity_same = cc;
  recovery_same = cc;
  inclusion_same = cc;
  observing_same = cc;
  busy_same = cc;
  emitting_same = cc;
  permit_same = cc;
  generation_same = cc;
  owner_same = cc;
  pending_same = cc;
  blockers_same = cc;
}

emit-IsSame :
    (e : SignerEvent) (o : SignerEventOperation) (c : Coordinator)
    → c.emitting ≡ false
    → IsSame (emit e o c) c
unfolding emit
emit-IsSame e o c h = ground arith

pub report_blocked-IsSame :
    (s : SignerGateDecision) (now : Text) (o : SignerEventOperation) (c : Coordinator)
    → c.emitting ≡ false
    → IsSame (report_blocked s now o c) c
unfolding report_blocked emit
report_blocked-IsSame s now o c h = ground arith

pub report_released-IsSame :
    (s : SignerGateDecision) (o : SignerEventOperation) (c : Coordinator)
    → c.emitting ≡ false
    → IsSame (report_released s o c) c
unfolding report_released emit
report_released-IsSame s o c h = ground arith

drop_attempt_log-IsSame :
    (s : SignerGateDecision) (c : Coordinator) → IsSame (drop_attempt_log s c) c
unfolding drop_attempt_log
drop_attempt_log-IsSame s c = ground arith

pub refresh-IsSame :
    (now : Text) (o : SignerEventOperation) (c : Coordinator)
    → c.emitting ≡ false
    → IsSame (refresh now o c) c
unfolding refresh
refresh-IsSame now o c h =
    let s = status c in
    let blocked = report_blocked s now o c in
    let released = report_released s o blocked in
    let first = report_blocked-IsSame s now o c h in
    let second = trans_IsSame released blocked c (report_released-IsSame s o blocked (cc)) first in
    let third =
      trans_IsSame (drop_attempt_log s released) released c (drop_attempt_log-IsSame s released)
        second in
    ground (arith, third)

-- What a finished write leaves: nothing pending, and every other field but the blockers.
pub record IsFinished (c d : Coordinator) : Type 0 where
  pub persistence_kept : c.persistence ≡ d.persistence
  pub identity_kept : c.identity ≡ d.identity
  pub recovery_kept : c.recovery_complete ≡ d.recovery_complete
  pub inclusion_kept : c.inclusion_checks_complete ≡ d.inclusion_checks_complete
  pub observing_kept : c.reconciliation_observation_active ≡ d.reconciliation_observation_active
  pub permit_kept : c.broadcast_permit ≡ d.broadcast_permit
  pub owner_kept : c.inspection_owner ≡ d.inspection_owner
  pub generation_kept : c.inspection_generation ≡ d.inspection_generation
  pub not_busy : c.busy ≡ false
  pub not_emitting : c.emitting ≡ false
  pub nothing_pending : c.pending_write ≡ none

pub latch-IsFinished :
    (c : Coordinator)
    → c.busy ≡ false
    → c.emitting ≡ false
    → c.pending_write ≡ none
    → IsFinished
        (update_durable_recovery_revision (latch_exhausted_search (latch_unattributed_activity c)))
        c
unfolding update_durable_recovery_revision latch_exhausted_search latch_unattributed_activity
latch-IsFinished c b e p = ground arith

pub settle-IsFinished :
    (p : PendingWrite) (c : Coordinator)
    → c.emitting ≡ false
    → IsFinished (record (settle p c) { pending_write = none; busy = false }) c
unfolding settle emit
settle-IsFinished p c h = ground arith

trans_IsFinished : (c d e : Coordinator) → IsFinished c d → IsFinished d e → IsFinished c e
trans_IsFinished c d e h k = record {
  persistence_kept = cc;
  identity_kept = cc;
  recovery_kept = cc;
  inclusion_kept = cc;
  observing_kept = cc;
  permit_kept = cc;
  owner_kept = cc;
  generation_kept = cc;
  not_busy = cc;
  not_emitting = cc;
  nothing_pending = cc;
}

same-IsFinished :
    (c d : Coordinator)
    → d.busy ≡ false
    → d.emitting ≡ false
    → d.pending_write ≡ none
    → IsSame c d
    → IsFinished c d
same-IsFinished c d b e p h = record {
  persistence_kept = cc;
  identity_kept = cc;
  recovery_kept = cc;
  inclusion_kept = cc;
  observing_kept = cc;
  permit_kept = cc;
  owner_kept = cc;
  generation_kept = cc;
  not_busy = cc;
  not_emitting = cc;
  nothing_pending = cc;
}

pub finish_write-IsFinished :
    (now : Text) (p : PendingWrite) (c : Coordinator)
    → c.emitting ≡ false
    → IsFinished (finish_write now p c) c
unfolding finish_write
finish_write-IsFinished now p c h =
    let released = record (settle p c) { pending_write = none; busy = false } in
    let latched =
      update_durable_recovery_revision
        (latch_exhausted_search (latch_unattributed_activity released)) in
    let a = settle-IsFinished p c h in
    let b = latch-IsFinished released refl a.not_emitting refl in
    let r = refresh-IsSame now (operation_of p) latched b.not_emitting in
    trans_IsFinished _ released c
      (trans_IsFinished _ latched released
        (same-IsFinished _ latched b.not_busy b.not_emitting b.nothing_pending r) b)
      a
