-- ===== src/Coordinator/Retried.antt =====
-- The retry of a failed write, by what the store does: `retryPersistence` of
-- apps/relayer/src/state/signer-coordinator.ts.
use drand_quicknet_evm.Base.{◌≡◌, refl, ◌∙◌, ap, true, false, none, some, Result, ok, err}
use drand_quicknet_evm.Text.{Text}
use drand_quicknet_evm.Journal.{TransactionJournalSnapshot, present}
use drand_quicknet_evm.Persistence.{
  SaveOutcome, resolved, rejected_unwritten, rejected_written, did_not_complete, stored, failed,
  idle, retry,
}
use drand_quicknet_evm.Persistence.Laws.{retry_lem}
use drand_quicknet_evm.Coordinator.{
  Coordinator, CoordinatorError, PendingWrite, persistence_error, reconcile_attempt,
}
use drand_quicknet_evm.Coordinator.Guards.{retry_guard_lem}
use drand_quicknet_evm.Coordinator.Retry.{retry_guard, retry_persistence}
use drand_quicknet_evm.Coordinator.Steady.{refresh-IsSame, finish_write-IsFinished}

-- What a retry answers and leaves, by what the store does: it returns exactly when the store resolves,
-- and then the journal that was kept is committed and in the file and nothing is pending; otherwise it
-- throws, the committed journal stays, and the same journal and write are kept for the next retry.
abbrev pub IsRetriedBy :
    SaveOutcome
    → TransactionJournalSnapshot
    → PendingWrite
    → Coordinator
    → Result CoordinatorError (Unit {0})
    → Coordinator
    → Type 0
IsRetriedBy resolved s p c result d =
    (result ≡ ok tt)
    × (d.persistence.state ≡ idle)
    × (d.persistence.current ≡ present s)
    × (d.persistence.disk ≡ present s)
    × (d.pending_write ≡ none)
IsRetriedBy outcome s p c result d =
    (result ≡ err (persistence_error did_not_complete))
    × (d.persistence.state ≡ failed)
    × (d.persistence.current ≡ c.persistence.current)
    × (d.persistence.disk ≡ stored outcome s c.persistence.disk)
    × (d.persistence.pending ≡ some s)
    × (d.pending_write ≡ some p)

abbrev pub KeepsAuthorization : Coordinator → Coordinator → Type 0
KeepsAuthorization c d =
    (d.broadcast_permit ≡ c.broadcast_permit)
    × (d.recovery_complete ≡ c.recovery_complete)
    × (d.inclusion_checks_complete ≡ c.inclusion_checks_complete)

module _ (now : Text) (s : TransactionJournalSnapshot) (p : PendingWrite) (c : Coordinator)
    (g : retry_guard c ≡ ok p) where
  completed_lem :
      (outcome : SaveOutcome)
      → (retry outcome c.persistence).0 ≡ ok tt
      → (retry outcome c.persistence).1.state ≡ idle
      → (retry outcome c.persistence).1.current ≡ present s
      → (retry outcome c.persistence).1.disk ≡ present s
      → IsRetriedBy resolved s p c
          (retry_persistence outcome now c).0
          (retry_persistence outcome now c).1
        × KeepsAuthorization c (retry_persistence outcome now c).1
  unfolding retry_persistence
  completed_lem outcome r i current disk =
      let may = retry_guard_lem p c g in
      let written : Coordinator = record c {
        persistence = (retry outcome c.persistence).1;
        busy = true;
      } in
      let f = finish_write-IsFinished now p written may.2 in
      rw (retry_persistence, g, r)
        (
          (
            refl,
            ap (λ x. x.state) f.persistence_kept ∙ i,
            ap (λ x. x.current) f.persistence_kept ∙ current,
            ap (λ x. x.disk) f.persistence_kept ∙ disk,
            f.nothing_pending,
          ),
          (f.permit_kept, f.recovery_kept, f.inclusion_kept),
        )

  kept_lem :
      (outcome : SaveOutcome)
      → (retry outcome c.persistence).0 ≡ err did_not_complete
      → let q = (retry outcome c.persistence).1 in
        let d = (retry_persistence outcome now c).1 in
        ((retry_persistence outcome now c).0 ≡ err (persistence_error did_not_complete))
        × (d.persistence ≡ q)
        × (d.pending_write ≡ some p)
        × KeepsAuthorization c d
  unfolding retry_persistence
  kept_lem outcome r =
      let may = retry_guard_lem p c g in
      let left : Coordinator = record c {
        persistence = (retry outcome c.persistence).1;
        busy = false;
      } in
      let t = refresh-IsSame now reconcile_attempt left may.2 in
      rw (retry_persistence, g, r)
        (
          refl,
          t.persistence_same,
          t.pending_same ∙ may.3,
          (t.permit_same, t.recovery_same, t.inclusion_same),
        )

-- A retry that is admitted commits exactly the journal that was kept for it when the store resolves, and
-- returns. When the store rejects, it throws and keeps that journal and its write; the file then holds
-- the journal if the store had replaced it, and else what it held. In both cases it leaves every
-- authorization as it was: it gives no permit, and neither recovery nor the inclusion checks become
-- complete.
pub retry_persistence_lem :
    (outcome : SaveOutcome) (now : Text) (s : TransactionJournalSnapshot) (p : PendingWrite)
    (c : Coordinator)
    → retry_guard c ≡ ok p
    → c.persistence.pending ≡ some s
    → let (result, d) = retry_persistence outcome now c in
      IsRetriedBy outcome s p c result d × KeepsAuthorization c d
retry_persistence_lem resolved now s p c g k =
    let (r, i, current, disk, _) = retry_lem resolved s c.persistence (retry_guard_lem p c g).4 k in
    completed_lem now s p c g resolved r i current disk
retry_persistence_lem rejected_unwritten now s p c g k =
    let (r, i, current, disk, pending) =
      retry_lem rejected_unwritten s c.persistence (retry_guard_lem p c g).4 k in
    let (thrown, same, kept, authorized) = kept_lem now s p c g rejected_unwritten r in
    (
      (
        thrown,
        ap (λ x. x.state) same ∙ i,
        ap (λ x. x.current) same ∙ current,
        ap (λ x. x.disk) same ∙ disk,
        ap (λ x. x.pending) same ∙ pending,
        kept,
      ),
      authorized,
    )
retry_persistence_lem rejected_written now s p c g k =
    let (r, i, current, disk, pending) =
      retry_lem rejected_written s c.persistence (retry_guard_lem p c g).4 k in
    let (thrown, same, kept, authorized) = kept_lem now s p c g rejected_written r in
    (
      (
        thrown,
        ap (λ x. x.state) same ∙ i,
        ap (λ x. x.current) same ∙ current,
        ap (λ x. x.disk) same ∙ disk,
        ap (λ x. x.pending) same ∙ pending,
        kept,
      ),
      authorized,
    )
