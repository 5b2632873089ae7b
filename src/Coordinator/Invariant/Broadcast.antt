-- ===== src/Coordinator/Invariant/Broadcast.antt =====
-- The invariant through `broadcastAttempt` of apps/relayer/src/state/signer-coordinator.ts.
use drand_quicknet_evm.Base.{
  ◌≡◌, refl, sym, subst, ◌⊎◌, inl, inr, false, none, some, arith, Result-cases, Bool-cases, ◌∙◌,
}
use drand_quicknet_evm.Text.{Text}
use drand_quicknet_evm.Journal.{JournalAttempt, TransactionJournalSnapshot}
use drand_quicknet_evm.Journal.Verification.{Viem}
use drand_quicknet_evm.Persistence.{idle, failed}
use drand_quicknet_evm.Persistence.Laws.{IsSettled}
use drand_quicknet_evm.Coordinator.{Coordinator, CoordinatorError, broadcast, broadcast_attempt}
use drand_quicknet_evm.Coordinator.Refresh.{emit}
use drand_quicknet_evm.Coordinator.Guards.{broadcast_guard_lem}
use drand_quicknet_evm.Coordinator.Steady.{Outstanding, IsSame}
use drand_quicknet_evm.Coordinator.Broadcast.{
  RpcReply, threw, other_value, returned, BroadcastEnvironment, is_signed, marked, consumed,
  receive_reply, send, broadcast_failed, mark_and_send, broadcast_guard, broadcast_oldest,
}
use drand_quicknet_evm.Coordinator.Invariant.{IsSteady, IsRunning, save-IsSaved, refresh-IsSteady}

pub receive_reply-IsSame :
    (reply : RpcReply) (a : JournalAttempt) (c : Coordinator)
    → c.emitting ≡ false
    → IsSame (receive_reply reply a c).1 c
unfolding receive_reply emit
receive_reply-IsSame threw a c h = ground arith
receive_reply-IsSame other_value a c h = ground arith
receive_reply-IsSame (returned hash) a c h = ground arith

module _ (viem : Viem) where
  send-IsSteady :
      (env : BroadcastEnvironment) (a : JournalAttempt) (c : Coordinator)
      → IsRunning viem c
      → IsSteady viem (send env a c).1
  unfolding send IsSteady
  send-IsSteady env a c h =
      let k = receive_reply-IsSame env.reply a c h.quiet in
      refresh-IsSteady viem env.now broadcast_attempt _ (
        rw (k.persistence_same, k.identity_same, k.emitting_same, k.pending_same, h.none_pending)
          (
            h.settled,
            h.same,
            refl,
            h.quiet,
            subst (λ state. Outstanding state none) (sym h.idle_state) tt,
          ))

  broadcast_failed-IsSteady :
      (now : Text) (e : CoordinatorError) (c : Coordinator)
      → IsSettled viem c.persistence
      → c.persistence.identity ≡ c.identity
      → c.emitting ≡ false
      → (c.persistence.state ≡ idle)
        ⊎ ((c.persistence.state ≡ failed) × (c.pending_write ≡ some broadcast))
      → IsSteady viem (broadcast_failed now e c).1
  unfolding broadcast_failed IsSteady
  broadcast_failed-IsSteady now e c settled same quiet ends =
      refresh-IsSteady viem now _ _ (ground arith)

  mark_and_send-IsSteady :
      (env : BroadcastEnvironment) (s : TransactionJournalSnapshot) (a : JournalAttempt)
      (c : Coordinator)
      → IsRunning viem c
      → IsSteady viem (mark_and_send viem env s a c).1
  unfolding mark_and_send
  mark_and_send-IsSteady env s a c h = elim (Bool-cases (is_signed a.phase)) [
    | inr e ↦ rw (mark_and_send, e) (send-IsSteady env a c h)
    | inl e ↦
        let saved = save-IsSaved viem env.outcome (marked s) c.persistence h.idle_state h.settled in
        let same = saved.same ∙ h.same in
        elim saved.ends [
          | inl (done, i) ↦
              rw (mark_and_send, e, done)
                (send-IsSteady env a _ (record {
                  settled = saved.settled;
                  same = same;
                  quiet = h.quiet;
                  idle_state = i;
                  none_pending = refl;
                }))
          | inr (_, failed_as, ends) ↦
              rw (mark_and_send, e, failed_as)
                (broadcast_failed-IsSteady env.now _ _ saved.settled same h.quiet
                  (ground (arith, ends)))
        ]
  ]

  -- Whatever a broadcast meets, the coordinator is left as it is between calls.
  pub broadcast_oldest-IsSteady :
      (id : Text) (env : BroadcastEnvironment) (c : Coordinator)
      → IsSteady viem c
      → IsSteady viem (broadcast_oldest viem id env c).1
  unfolding broadcast_oldest IsSteady
  broadcast_oldest-IsSteady id env c h = elim (Result-cases (broadcast_guard id c)) [
    | inr (e, g) ↦ rw (broadcast_oldest, g) h
    | inl ((s, a), g) ↦
        let may = broadcast_guard_lem id s a c g in
        rw (broadcast_oldest, g)
          (mark_and_send-IsSteady env s a (consumed c) (record {
            settled = h.0;
            same = h.1;
            quiet = h.3;
            idle_state = may.free.idle_state;
            none_pending = may.free.none_pending;
          }))
  ]
