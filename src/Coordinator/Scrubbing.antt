-- ===== src/Coordinator/Scrubbing.antt =====
-- The signed bytes that the log keeps out of what it prints, `attemptLog` of
-- apps/relayer/src/state/signer-coordinator.ts: a refresh keeps them while an attempt is retained.
use mathlib.Core.List.{append_assoc}
use drand_quicknet_evm.Base.{◌≡◌, refl, sym, ◌∙◌, ap, false, none, List, [], ◌∷◌, ◌++◌, arith, map}
use drand_quicknet_evm.Text.{Text}
use drand_quicknet_evm.Journal.{
  JournalAttempt, TransactionJournalSnapshot, all_signed, signed_transactions, present,
}
use drand_quicknet_evm.Gate.{SignerGateDecision}
use drand_quicknet_evm.Coordinator.{Coordinator, PendingWrite, SignerEventOperation}
use drand_quicknet_evm.Coordinator.Gates.{status}
use drand_quicknet_evm.Coordinator.Refresh.{
  emit, report_blocked, report_released, drop_attempt_log, refresh, has_no_attempt,
  latch_unattributed_activity, latch_exhausted_search, update_durable_recovery_revision, settle,
  finish_write, operation_of,
}
use drand_quicknet_evm.Coordinator.Steady.{
  report_blocked-IsSame, report_released-IsSame, settle-IsFinished, latch-IsFinished,
}

report_blocked-attempt_log :
    (s : SignerGateDecision) (now : Text) (o : SignerEventOperation) (c : Coordinator)
    → (report_blocked s now o c).attempt_log ≡ c.attempt_log
unfolding report_blocked emit
report_blocked-attempt_log s now o c = ground arith

report_released-attempt_log :
    (s : SignerGateDecision) (o : SignerEventOperation) (c : Coordinator)
    → (report_released s o c).attempt_log ≡ c.attempt_log
unfolding report_released emit
report_released-attempt_log s o c = ground arith

drop_attempt_log-kept :
    (s : SignerGateDecision) (c : Coordinator)
    → has_no_attempt c.persistence.current ≡ false
    → (drop_attempt_log s c).attempt_log ≡ c.attempt_log
unfolding drop_attempt_log
drop_attempt_log-kept s c h = ground (arith, h)

pub refresh-attempt_log :
    (now : Text) (o : SignerEventOperation) (c : Coordinator)
    → c.emitting ≡ false
    → has_no_attempt c.persistence.current ≡ false
    → (refresh now o c).attempt_log ≡ c.attempt_log
unfolding refresh
refresh-attempt_log now o c quiet h =
    let s = status c in
    let blocked = report_blocked s now o c in
    let released = report_released s o blocked in
    let first = report_blocked-IsSame s now o c quiet in
    let second = report_released-IsSame s o blocked (first.emitting_same ∙ quiet) in
    let path = second.persistence_same ∙ first.persistence_same in
    let dropped = drop_attempt_log-kept s released (ap (λ p. has_no_attempt p.current) path ∙ h) in
    let kept =
      dropped ∙ report_released-attempt_log s o blocked ∙ report_blocked-attempt_log s now o c in
    ground (arith, kept)

latch-attempt_log :
    (c : Coordinator)
    → (update_durable_recovery_revision
        (latch_exhausted_search (latch_unattributed_activity c))).attempt_log
      ≡ c.attempt_log
unfolding update_durable_recovery_revision latch_exhausted_search latch_unattributed_activity
latch-attempt_log c = ground arith

settle-attempt_log : (p : PendingWrite) (c : Coordinator) → (settle p c).attempt_log ≡ c.attempt_log
unfolding settle emit
settle-attempt_log p c = ground arith

pub finish_write-attempt_log :
    (now : Text) (p : PendingWrite) (c : Coordinator)
    → c.emitting ≡ false
    → has_no_attempt c.persistence.current ≡ false
    → (finish_write now p c).attempt_log ≡ c.attempt_log
unfolding finish_write
finish_write-attempt_log now p c quiet h =
    let released : Coordinator = record (settle p c) { pending_write = none; busy = false } in
    let latched =
      update_durable_recovery_revision
        (latch_exhausted_search (latch_unattributed_activity released)) in
    let a = settle-IsFinished p c quiet in
    let b = latch-IsFinished released refl a.not_emitting refl in
    let path = b.persistence_kept ∙ a.persistence_kept in
    refresh-attempt_log now (operation_of p) latched b.not_emitting
      (ap (λ q. has_no_attempt q.current) path ∙ h)
    ∙ latch-attempt_log released
    ∙ settle-attempt_log p c

pub retains_one :
    (queue : List JournalAttempt) (a : JournalAttempt) (s : TransactionJournalSnapshot)
    → s.attempts ≡ queue ++ (a ∷ [])
    → has_no_attempt (present s) ≡ false
retains_one [] a s h = simp h
retains_one (b ∷ rest) a s h = simp h

-- The signed bytes of a queue with one more attempt.
pub all_signed-append :
    (queue : List JournalAttempt) (a : JournalAttempt)
    → a.replacements ≡ []
    → all_signed (queue ++ (a ∷ []))
      ≡ all_signed queue ++ (a.first_transaction.signed_transaction ∷ [])
all_signed-append [] a h = simp h
all_signed-append (b ∷ rest) a h =
    let own = map (λ tx. tx.signed_transaction) (signed_transactions b) in
    let last = a.first_transaction.signed_transaction ∷ [] in
    ap (λ bytes. own ++ bytes) (all_signed-append rest a h)
    ∙ sym (append_assoc own (all_signed rest) last)
