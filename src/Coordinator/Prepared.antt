-- ===== src/Coordinator/Prepared.antt =====
-- `prepareAttempt` of apps/relayer/src/state/signer-coordinator.ts on every branch that returns.
use drand_quicknet_evm.Base.{
  ◌≡◌, refl, sym, subst, ◌∙◌, ap, ◌⊎◌, inl, inr, true, none, some, arith, find, ok, err,
  Result-cases, Option-cases, ok_injective,
}
use drand_quicknet_evm.Text.{Text, text_eq}
use drand_quicknet_evm.Journal.{
  JournalSignedTransaction, JournalAttempt, TransactionJournalSnapshot, present,
}
use drand_quicknet_evm.Journal.Verification.{Viem}
use drand_quicknet_evm.Gate.Laws.{IsReady, decide_gate-open}
use drand_quicknet_evm.Coordinator.{Coordinator}
use drand_quicknet_evm.Coordinator.Gates.{status, gate_options}
use drand_quicknet_evm.Coordinator.Guards.{MayPrepare, prepare_guard_lem}
use drand_quicknet_evm.Coordinator.Prepare.{
  PrepareAttemptResult, already_retained, PrepareEnvironment, prepare_guard, allocate, prepare,
}
use drand_quicknet_evm.Coordinator.Allocation.{IsAllocated, allocate-IsAllocated}

module _ (viem : Viem) where
  -- A preparation that succeeds: the gate was open, no retained attempt was for this work, and the
  -- work now has one.
  pub record IsPrepared (work_id : Text) (env : PrepareEnvironment) (s : TransactionJournalSnapshot)
      (tx : JournalSignedTransaction) (result : PrepareAttemptResult) (c d : Coordinator)
      : Type 0 where
    pub allowed : MayPrepare work_id s c
    pub gate : IsReady (gate_options c) s
    pub none_retained : find (λ a. text_eq a.work_id work_id) s.attempts ≡ none
    pub allocated : IsAllocated viem work_id env s tx result d

  open_gate-IsReady :
      (s : TransactionJournalSnapshot) (c : Coordinator)
      → (status c).is_open ≡ true
      → c.persistence.current ≡ present s
      → IsReady (gate_options c) s
  unfolding status
  open_gate-IsReady s c h j =
      let (t, at, ready) = (decide_gate-open (gate_options c)).0 (ground arith) in
      subst (IsReady (gate_options c)) (cc) ready

  -- The work already has an attempt, which is left alone.
  pub record IsRetained (work_id : Text) (s : TransactionJournalSnapshot) (a : JournalAttempt)
      (result : PrepareAttemptResult) (c d : Coordinator) : Type 0 where
    pub could : MayPrepare work_id s c
    pub found : find (λ a. text_eq a.work_id work_id) s.attempts ≡ some a
    pub reported : result ≡ already_retained a.attempt_id work_id
    pub same : d ≡ c

  -- A preparation that returns has found the gate open. Where an attempt of this work is retained,
  -- it names that attempt and changes nothing. Where there is none, the committed journal and the
  -- file have one more attempt, for this work and signed for exactly the next nonce, which goes up by
  -- one; that attempt has the broadcast permit, the inclusion checks are no longer complete, and the
  -- log keeps the signed bytes of the whole queue out of what it prints.
  pub prepare_lem :
      (work_id : Text) (env : PrepareEnvironment) (c : Coordinator) (result : PrepareAttemptResult)
      → (prepare viem work_id env c).0 ≡ ok result
      → (s : TransactionJournalSnapshot) × (((a : JournalAttempt) × IsRetained work_id s a result c
              (prepare viem work_id env c).1)
          ⊎ ((tx : JournalSignedTransaction) × IsPrepared work_id env s tx result c
                (prepare viem work_id env c).1))
  unfolding prepare
  prepare_lem work_id env c result h = elim (Result-cases (prepare_guard work_id c)) [
    | inr (e, g) ↦
        let failing : (prepare viem work_id env c).0 ≡ err e = rw (prepare, g) refl in absurd (cc)
    | inl (s, g) ↦
        let may = prepare_guard_lem work_id s c g in
        (
          s,
          elim (Option-cases (find (λ a. text_eq a.work_id work_id) s.attempts)) [
            | inr (a, f) ↦
                let runs : prepare viem work_id env c
                    ≡ (ok (already_retained a.attempt_id work_id), c) =
                  simp (prepare, g, f) in
                inl (
                  a,
                  record {
                    could = may;
                    found = f;
                    reported = ok_injective _ _ (sym h ∙ ap (λ m. m.0) runs);
                    same = ap (λ m. m.1) runs;
                  },
                )
            | inl f ↦
                let runs : prepare viem work_id env c ≡ allocate viem work_id env s c =
                  simp (prepare, g, f) in
                let (tx, done) =
                  allocate-IsAllocated viem work_id env s c result may.free.not_emitting
                    (ap (λ m. m.0) (sym runs) ∙ h) in
                inr (
                  tx,
                  record {
                    allowed = may;
                    gate = open_gate-IsReady s c may.open_gate may.journal;
                    none_retained = f;
                    allocated = rw runs done;
                  },
                )
          ],
        )
  ]
