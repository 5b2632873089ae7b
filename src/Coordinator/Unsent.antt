-- ===== src/Coordinator/Unsent.antt =====
-- A mark that could not be saved: `broadcastAttempt` of
-- apps/relayer/src/state/signer-coordinator.ts then does not send the transaction.
use drand_quicknet_evm.Base.{
  ◌≡◌, ◌≢◌, refl, sym, ◌∙◌, ap, inl, inr, some, arith, ok, err, Result-cases,
}
use drand_quicknet_evm.Text.{Text}
use drand_quicknet_evm.Journal.{JournalAttempt, signed, TransactionJournalSnapshot}
use drand_quicknet_evm.Journal.Verification.{Viem}
use drand_quicknet_evm.Persistence.{
  SaveOutcome, resolved, rejected_unwritten, rejected_written, PersistenceError, JournalPersistence,
  save,
}
use drand_quicknet_evm.Coordinator.{Coordinator, CoordinatorError, broadcast, persistence_error}
use drand_quicknet_evm.Coordinator.Broadcast.{
  RpcReply, BroadcastEnvironment, marked, consumed, broadcast_failed, mark_and_send,
  broadcast_guard, broadcast_oldest,
}

module _ (viem : Viem) where
  save-resolves :
      (outcome : SaveOutcome) (next : TransactionJournalSnapshot) (p : JournalPersistence)
      → (save viem outcome next p).0 ≡ ok tt
      → outcome ≡ resolved
  unfolding save
  save-resolves resolved next p h = refl
  save-resolves rejected_unwritten next p h = absurd (ground arith)
  save-resolves rejected_written next p h = absurd (ground arith)

  save-rejects :
      (outcome : SaveOutcome) (next : TransactionJournalSnapshot) (p : JournalPersistence)
      → outcome ≢ resolved
      → (e : PersistenceError) × ((save viem outcome next p).0 ≡ err e)
  save-rejects outcome next p h = elim (Result-cases (save viem outcome next p).0) [
    | inr (e, r) ↦ (e, r)
    | inl (_, r) ↦ absurd (h (save-resolves outcome next p r))
  ]

  -- A mark that could not be saved ends the broadcast.
  mark_and_send-fails :
      (env : BroadcastEnvironment) (s : TransactionJournalSnapshot) (a : JournalAttempt)
      (c : Coordinator) (e : PersistenceError)
      → a.phase ≡ signed
      → (save viem env.outcome (marked s) c.persistence).0 ≡ err e
      → mark_and_send viem env s a c
        ≡ broadcast_failed env.now (persistence_error e) (record c {
          pending_write = some broadcast;
          persistence = (save viem env.outcome (marked s) c.persistence).1;
        })
  unfolding mark_and_send
  mark_and_send-fails env s a c e unmarked r = simp (mark_and_send, unmarked, r)

  -- An attempt that has no mark is not sent before its mark is durable: when the store does not
  -- resolve the save, the call throws, and what the node would have replied makes no difference.
  pub broadcast_oldest-unsent :
      (id : Text) (env : BroadcastEnvironment) (reply : RpcReply) (c : Coordinator)
      (s : TransactionJournalSnapshot) (a : JournalAttempt)
      → broadcast_guard id c ≡ ok (s, a)
      → a.phase ≡ signed
      → env.outcome ≢ resolved
      → ((e : CoordinatorError) × ((broadcast_oldest viem id env c).0 ≡ err e))
        × (broadcast_oldest viem id (record env { reply = reply }) c
            ≡ broadcast_oldest viem id env c)
  unfolding broadcast_oldest broadcast_failed
  broadcast_oldest-unsent id env reply c s a g unmarked unresolved_save =
      let (e, r) = save-rejects env.outcome (marked s) c.persistence unresolved_save in
      let runs : broadcast_oldest viem id env c ≡ mark_and_send viem env s a (consumed c) =
        simp (broadcast_oldest, g) in
      let runs' : broadcast_oldest viem id (record env { reply = reply }) c
          ≡ mark_and_send viem (record env { reply = reply }) s a (consumed c) =
        simp (broadcast_oldest, g) in
      let fails = mark_and_send-fails env s a (consumed c) e unmarked r in
      let fails' =
        mark_and_send-fails (record env { reply = reply }) s a (consumed c) e unmarked r in
      ((persistence_error e, ap (λ m. m.0) (runs ∙ fails)), runs' ∙ fails' ∙ sym fails ∙ sym runs)
