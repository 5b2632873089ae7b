-- ===== src/Coordinator/Permit.antt =====
-- The one-use permit of `broadcastAttempt`, apps/relayer/src/state/signer-coordinator.ts, and the
-- mark that is durable before a transaction is sent.
use drand_quicknet_evm.Base.{
  ◌≡◌, refl, sym, ◌∙◌, ap, inl, inr, false, none, some, List, [], ◌∷◌, arith, find, ok, err,
  Result-cases, Bool-cases,
}
use drand_quicknet_evm.Text.{Text}
use drand_quicknet_evm.Journal.{
  JournalAttempt, broadcast_may_have_occurred, is_unresolved, TransactionJournalSnapshot, present,
}
use drand_quicknet_evm.Journal.Verification.{Viem}
use drand_quicknet_evm.Persistence.{JournalPersistence, idle, save}
use drand_quicknet_evm.Persistence.Laws.{IsSettled}
use drand_quicknet_evm.Coordinator.{Coordinator, broadcast, persistence_error}
use drand_quicknet_evm.Coordinator.Gates.{status, can_broadcast}
use drand_quicknet_evm.Coordinator.Guards.{
  MayBroadcast, IsPermitted, broadcast_guard_lem, can_broadcast_lem,
}
use drand_quicknet_evm.Coordinator.Broadcast.{
  BroadcastAttemptResult, BroadcastEnvironment, mark_oldest, marked, is_signed, consumed,
  mark_and_send, broadcast_guard, broadcast_oldest,
}
use drand_quicknet_evm.Coordinator.Saved.{save-IsCommitted}
use drand_quicknet_evm.Coordinator.Invariant.{IsSteady}
use drand_quicknet_evm.Coordinator.Spent.{
  cannot_broadcast, closed_gate, broadcast_failed_lem, send-IsSpent, broadcast_failed-IsSpent,
}

-- An attempt that may have been sent.
abbrev pub sent : JournalAttempt → JournalAttempt
sent a = record a { phase = broadcast_may_have_occurred }

mark_oldest-find :
    (queue : List JournalAttempt) (a : JournalAttempt)
    → find is_unresolved queue ≡ some a
    → find is_unresolved (mark_oldest queue) ≡ some (sent a)
mark_oldest-find [] a h = absurd (ground arith)
mark_oldest-find (b ∷ rest) a h = elim (Bool-cases (is_unresolved b)) [
  | inl u ↦ ground arith
  | inr u ↦ ground (arith, mark_oldest-find rest a (ground arith))
]

mark_oldest-same :
    (queue : List JournalAttempt) (a : JournalAttempt)
    → find is_unresolved queue ≡ some a
    → is_signed a.phase ≡ false
    → mark_oldest queue ≡ queue
mark_oldest-same [] a h s = refl
mark_oldest-same (b ∷ rest) a h s = elim (Bool-cases (is_unresolved b)) [
  | inl u ↦ ground arith
  | inr u ↦ ground (arith, mark_oldest-same rest a (ground arith) s)
]

settled_idle :
    (viem : Viem) (p : JournalPersistence) → IsSettled viem p → p.state ≡ idle → p.disk ≡ p.current
settled_idle viem p h i = ground (arith, h.settled)

-- The attempt may have been sent: the committed journal and the file have its mark.
pub record IsMarked (s : TransactionJournalSnapshot) (a : JournalAttempt) (d : Coordinator)
    : Type 0 where
  pub committed : d.persistence.current ≡ present (marked s)
  pub durable : d.persistence.disk ≡ present (marked s)
  pub oldest : find is_unresolved (marked s).attempts ≡ some (sent a)

module _ (viem : Viem) where
  mark_and_send-IsSpent :
      (env : BroadcastEnvironment) (s : TransactionJournalSnapshot) (a : JournalAttempt)
      (c : Coordinator)
      → c.emitting ≡ false
      → let d = (mark_and_send viem env s a c).1 in
        (d.broadcast_permit ≡ c.broadcast_permit)
        × (d.recovery_complete ≡ c.recovery_complete)
        × (d.inclusion_checks_complete ≡ c.inclusion_checks_complete)
  unfolding mark_and_send
  mark_and_send-IsSpent env s a c h =
      let p = (save viem env.outcome (marked s) c.persistence).1 in
      let writing : Coordinator = record c { pending_write = some broadcast; persistence = p } in
      let written : Coordinator = record c { pending_write = none; persistence = p } in
      elim (Bool-cases (is_signed a.phase)) [
        | inr e ↦
            let k = send-IsSpent env a c h in
            rw (mark_and_send, e) (k.no_permit, k.unrecovered, k.unchecked)
        | inl e ↦ elim (Result-cases (save viem env.outcome (marked s) c.persistence).0) [
          | inl (_, r) ↦
              let k = send-IsSpent env a written h in
              rw (mark_and_send, e, r) (k.no_permit, k.unrecovered, k.unchecked)
          | inr (x, r) ↦
              let k = broadcast_failed-IsSpent env.now (persistence_error x) writing h in
              rw (mark_and_send, e, r) (k.no_permit, k.unrecovered, k.unchecked)
        ]
      ]

  mark_and_send-IsMarked :
      (env : BroadcastEnvironment) (s : TransactionJournalSnapshot) (a : JournalAttempt)
      (c : Coordinator) (result : BroadcastAttemptResult)
      → c.emitting ≡ false
      → c.persistence.current ≡ present s
      → c.persistence.disk ≡ present s
      → find is_unresolved s.attempts ≡ some a
      → (mark_and_send viem env s a c).0 ≡ ok result
      → IsMarked s a (mark_and_send viem env s a c).1
  unfolding mark_and_send
  mark_and_send-IsMarked env s a c result quiet j d f h =
      let p = (save viem env.outcome (marked s) c.persistence).1 in
      let writing : Coordinator = record c { pending_write = some broadcast; persistence = p } in
      let written : Coordinator = record c { pending_write = none; persistence = p } in
      elim (Bool-cases (is_signed a.phase)) [
        | inr e ↦
            let k = send-IsSpent env a c quiet in
            let same : s ≡ marked s =
              ap (λ queue. record s { attempts = queue })
                (sym (mark_oldest-same s.attempts a f e)) in
            rw (mark_and_send, e)
              (record {
                committed = ap (λ q. q.current) k.same_persistence ∙ j ∙ ap present same;
                durable = ap (λ q. q.disk) k.same_persistence ∙ d ∙ ap present same;
                oldest = mark_oldest-find s.attempts a f;
              })
        | inl e ↦ elim (Result-cases (save viem env.outcome (marked s) c.persistence).0) [
          | inl (_, r) ↦
              let k = send-IsSpent env a written quiet in
              let done = save-IsCommitted viem env.outcome (marked s) c.persistence r in
              rw (mark_and_send, e, r)
                (record {
                  committed = ap (λ q. q.current) k.same_persistence ∙ done.committed;
                  durable = ap (λ q. q.disk) k.same_persistence ∙ done.on_disk;
                  oldest = mark_oldest-find s.attempts a f;
                })
          | inr (x, r) ↦
              let failing : (mark_and_send viem env s a c).0 ≡ err (persistence_error x) =
                rw (mark_and_send, e, r)
                  (broadcast_failed_lem env.now (persistence_error x) writing) in
              absurd (cc)
        ]
      ]

  -- A broadcast that returns was of the oldest unresolved attempt, which had the permit; recovery was
  -- complete, no blocker was set, and the nonce last observed was the attempt's. The committed
  -- journal and the file then hold the mark that the attempt may have been sent.
  pub broadcast_oldest_lem :
      (id : Text) (env : BroadcastEnvironment) (c : Coordinator) (result : BroadcastAttemptResult)
      → IsSteady viem c
      → (broadcast_oldest viem id env c).0 ≡ ok result
      → (s : TransactionJournalSnapshot) × (a : JournalAttempt) × MayBroadcast id s a c
        × IsPermitted s a c
        × IsMarked s a (broadcast_oldest viem id env c).1
  unfolding broadcast_oldest IsSteady
  broadcast_oldest_lem id env c result steady h = elim (Result-cases (broadcast_guard id c)) [
    | inr (e, g) ↦
        let failing : (broadcast_oldest viem id env c).0 ≡ err e = rw (broadcast_oldest, g) refl in
        absurd (cc)
    | inl ((s, a), g) ↦
        let may = broadcast_guard_lem id s a c g in
        let runs : broadcast_oldest viem id env c ≡ mark_and_send viem env s a (consumed c) =
          simp (broadcast_oldest, g) in
        let on_disk = settled_idle viem c.persistence steady.0 may.free.idle_state in
        (
          s,
          a,
          may,
          can_broadcast_lem s a c may.journal may.oldest may.permitted,
          rw runs (
              mark_and_send-IsMarked env s a (consumed c) result may.free.not_emitting may.journal
                (on_disk ∙ may.journal) may.oldest (ap (λ m. m.0) (sym runs) ∙ h)),
        )
  ]

  -- After a broadcast that was admitted there is no permit, whether its mark could be saved or not and
  -- whatever the node replied; nothing can be broadcast, and the gate is closed.
  pub broadcast_oldest-once :
      (id : Text) (env : BroadcastEnvironment) (c : Coordinator) (s : TransactionJournalSnapshot)
      (a : JournalAttempt)
      → broadcast_guard id c ≡ ok (s, a)
      → let d = (broadcast_oldest viem id env c).1 in
        (d.broadcast_permit ≡ none) × (can_broadcast d ≡ false) × ((status d).is_open ≡ false)
  unfolding broadcast_oldest
  broadcast_oldest-once id env c s a g =
      let may = broadcast_guard_lem id s a c g in
      let k = mark_and_send-IsSpent env s a (consumed c) may.free.not_emitting in
      rw (broadcast_oldest, g)
        (
          k.0,
          cannot_broadcast (mark_and_send viem env s a (consumed c)).1 k.0,
          closed_gate (mark_and_send viem env s a (consumed c)).1 k.1,
        )
