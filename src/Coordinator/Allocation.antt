-- ===== src/Coordinator/Allocation.antt =====
-- What a preparation that succeeds has done, `prepareAttempt` of
-- apps/relayer/src/state/signer-coordinator.ts.
use drand_quicknet_evm.Base.{
  ℕ, ◌+◌, ◌≡◌, refl, sym, ◌∙◌, ap, inl, inr, true, false, none, some, [], ◌∷◌, ok, err,
  Result-cases, Option-cases, Bool-cases, ◌++◌, ok_injective,
}
use drand_quicknet_evm.Text.{Text}
use drand_quicknet_evm.Journal.{
  JournalSignedTransaction, TransactionJournalSnapshot, present, all_signed, signed,
  signed_transactions,
}
use drand_quicknet_evm.Journal.Value.{snapshot_value, identity_value}
use drand_quicknet_evm.Journal.Validation.Structure.{validate_journal_snapshot_structure}
use drand_quicknet_evm.Journal.Validation.Same.{validate-same}
use drand_quicknet_evm.Journal.Verification.{Viem}
use drand_quicknet_evm.Persistence.{save}
use drand_quicknet_evm.Coordinator.{
  Coordinator, CoordinatorError, prepared, prepare_attempt, signing_failed, diagnostics_failed,
  validation, persistence_error,
}
use drand_quicknet_evm.Coordinator.Refresh.{has_no_attempt, finish_write, or_now}
use drand_quicknet_evm.Coordinator.Prepare.{
  PrepareAttemptResult, prepared_attempt, PrepareEnvironment, new_attempt, with_attempt,
  prepare_failed, save_prepared, allocate,
}
use drand_quicknet_evm.Coordinator.Scrubbing.{
  refresh-attempt_log, finish_write-attempt_log, retains_one, all_signed-append,
}
use drand_quicknet_evm.Coordinator.Saved.{save-IsCommitted}
use drand_quicknet_evm.Coordinator.Steady.{refresh-IsSame, finish_write-IsFinished}

-- The result of a failed preparation is the error.
prepare_failed_lem :
    (now : _) (previous : Coordinator) (e : CoordinatorError) (c : Coordinator)
    → (prepare_failed now previous e c).0 ≡ err e
unfolding prepare_failed
prepare_failed_lem now previous e c = refl

module _ (viem : Viem) where
  -- The journal `s` has got the new attempt, signed for its next nonce, and so has the file.
  pub record IsAllocated (work_id : Text) (env : PrepareEnvironment)
      (s : TransactionJournalSnapshot) (tx : JournalSignedTransaction)
      (result : PrepareAttemptResult) (d : Coordinator) : Type 0 where
    pub signed_for : env.sign s.next_nonce ≡ some tx
    pub returned : result ≡ prepared_attempt env.attempt_id tx.transaction_hash s.next_nonce
    pub appended : d.persistence.current ≡ present (with_attempt (new_attempt work_id env tx s) s)
    pub durable : d.persistence.disk ≡ present (with_attempt (new_attempt work_id env tx s) s)
    pub scrubbed :
        d.attempt_log ≡ some (all_signed (s.attempts ++ (new_attempt work_id env tx s ∷ [])))
    pub permit : d.broadcast_permit ≡ some env.attempt_id
    pub one_more : (with_attempt (new_attempt work_id env tx s) s).next_nonce ≡ s.next_nonce + 1
    pub last :
        (with_attempt (new_attempt work_id env tx s) s).attempts
        ≡ s.attempts ++ (new_attempt work_id env tx s ∷ [])
    pub at_nonce : (new_attempt work_id env tx s).nonce ≡ s.next_nonce
    pub for_work : (new_attempt work_id env tx s).work_id ≡ work_id
    pub only : signed_transactions (new_attempt work_id env tx s) ≡ tx ∷ []
    pub unsent : (new_attempt work_id env tx s).phase ≡ signed
    pub closed_inclusions : d.inclusion_checks_complete ≡ false

  save_prepared-ok :
      (env : PrepareEnvironment) (tx : JournalSignedTransaction) (nonce : ℕ)
      (previous : Coordinator) (next : TransactionJournalSnapshot) (c : Coordinator)
      (result : PrepareAttemptResult)
      → c.emitting ≡ false
      → has_no_attempt (present next) ≡ false
      → (save_prepared viem env tx nonce previous next c).0 ≡ ok result
      → let d = (save_prepared viem env tx nonce previous next c).1 in
        (result ≡ prepared_attempt env.attempt_id tx.transaction_hash nonce)
        × (d.persistence.current ≡ present next)
        × (d.persistence.disk ≡ present next)
        × (d.broadcast_permit ≡ some env.attempt_id)
        × (d.inclusion_checks_complete ≡ false)
        × (d.attempt_log ≡ c.attempt_log)
  unfolding save_prepared
  save_prepared-ok env tx nonce previous next c result quiet retained h =
      let p = (save viem env.outcome next c.persistence).1 in
      elim (Result-cases (save viem env.outcome next c.persistence).0) [
        | inr (e, r) ↦
            let failing : (save_prepared viem env tx nonce previous next c).0
                ≡ err (persistence_error e) =
              rw (save_prepared, r) (prepare_failed_lem env.now previous _ _) in
            absurd (cc)
        | inl (_, r) ↦
            let done = save-IsCommitted viem env.outcome next c.persistence r in
            let writing : Coordinator = record c {
              blocked_since = some (or_now c.blocked_since env.created_at);
              inclusion_checks_complete = false;
              pending_write = some prepared;
              persistence = p;
            } in
            let f = finish_write-IsFinished env.now prepared writing quiet in
            let granted : Coordinator = record (finish_write env.now prepared writing) {
              broadcast_permit = some env.attempt_id;
              busy = false;
            } in
            let k = refresh-IsSame env.now prepare_attempt granted f.not_emitting in
            let held : has_no_attempt p.current ≡ false =
              ap has_no_attempt done.committed ∙ retained in
            let held' : has_no_attempt granted.persistence.current ≡ false =
              ap (λ q. has_no_attempt q.current) f.persistence_kept ∙ held in
            let logged =
              refresh-attempt_log env.now prepare_attempt granted f.not_emitting held'
              ∙ finish_write-attempt_log env.now prepared writing quiet held in
            let returns : (save_prepared viem env tx nonce previous next c).0
                ≡ ok (prepared_attempt env.attempt_id tx.transaction_hash nonce) =
              rw (save_prepared, r) refl in
            rw (save_prepared, r)
              (
                ok_injective _ _ (sym h ∙ returns),
                ap (λ q. q.current) (k.persistence_same ∙ f.persistence_kept) ∙ done.committed,
                ap (λ q. q.disk) (k.persistence_same ∙ f.persistence_kept) ∙ done.on_disk,
                k.permit_same,
                k.inclusion_same ∙ f.inclusion_kept,
                logged,
              )
      ]

  pub allocate-IsAllocated :
      (work_id : Text) (env : PrepareEnvironment) (s : TransactionJournalSnapshot)
      (previous : Coordinator) (result : PrepareAttemptResult)
      → previous.emitting ≡ false
      → (allocate viem work_id env s previous).0 ≡ ok result
      → (tx : JournalSignedTransaction) × IsAllocated work_id env s tx result
          (allocate viem work_id env s previous).1
  unfolding allocate
  allocate-IsAllocated work_id env s previous result quiet h =
      elim (Option-cases (env.sign s.next_nonce)) [
        | inl e ↦
            let failing : (allocate viem work_id env s previous).0 ≡ err signing_failed =
              rw (allocate, e) (prepare_failed_lem env.now previous _ _) in
            absurd (cc)
        | inr (tx, e) ↦ elim (Bool-cases env.has_summary) [
          | inr off ↦
              let failing : (allocate viem work_id env s previous).0 ≡ err diagnostics_failed =
                rw (allocate, e, off) (prepare_failed_lem env.now previous _ _) in
              absurd (cc)
          | inl on ↦
              let planned = with_attempt (new_attempt work_id env tx s) s in
              elim (Result-cases (
                validate_journal_snapshot_structure (snapshot_value planned)
                  (identity_value previous.identity))) [
                    | inr (x, v) ↦
                        let failing : (allocate viem work_id env s previous).0
                            ≡ err (validation x) =
                          rw (allocate, e, on, v) (prepare_failed_lem env.now previous _ _) in
                        absurd (cc)
                    | inl (next, v) ↦
                        let protected : Coordinator = record previous {
                          broadcast_permit = none;
                          busy = true;
                          attempt_log =
                              some (all_signed s.attempts ++ (tx.signed_transaction ∷ []));
                        } in
                        let runs : allocate viem work_id env s previous
                            ≡ save_prepared viem env tx s.next_nonce previous next protected =
                          simp (allocate, e, on, v) in
                        let same =
                          validate-same planned (identity_value previous.identity) next v in
                        let a = new_attempt work_id env tx s in
                        let one = retains_one s.attempts a next (ap (λ t. t.attempts) same) in
                        let (r, current, disk, permit, closed, logged) =
                          save_prepared-ok env tx s.next_nonce previous next protected result quiet
                            one (ap (λ m. m.0) (sym runs) ∙ h) in
                        (
                          tx,
                          rw runs (record {
                            signed_for = e;
                            returned = r;
                            appended = current ∙ ap present same;
                            durable = disk ∙ ap present same;
                            scrubbed = logged ∙ ap some (sym (all_signed-append s.attempts a refl));
                            permit = permit;
                            one_more = refl;
                            last = refl;
                            at_nonce = refl;
                            for_work = refl;
                            only = refl;
                            unsent = refl;
                            closed_inclusions = closed;
                          }),
                        )
                  ]
        ]
      ]
