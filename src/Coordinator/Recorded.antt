-- ===== src/Coordinator/Recorded.antt =====
-- What a recovery that returns has recorded, `recoverOwned` of
-- apps/relayer/src/state/signer-coordinator.ts.
use drand_quicknet_evm.Base.{
  ℕ, ◌≡◌, refl, sym, subst, ◌∙◌, ap, inl, inr, true, false, none, some, arith, ok, err,
  Result-cases, Option-cases, ok_injective,
}
use drand_quicknet_evm.Text.{Text}
use drand_quicknet_evm.Journal.{AnchoredNonceObservation, TransactionJournalSnapshot, present}
use drand_quicknet_evm.Journal.Value.{snapshot_value, identity_value}
use drand_quicknet_evm.Journal.Validation.Structure.{validate_journal_snapshot_structure}
use drand_quicknet_evm.Journal.Validation.Same.{validate-same}
use drand_quicknet_evm.Journal.Verification.{Viem}
use drand_quicknet_evm.Persistence.{save}
use drand_quicknet_evm.Coordinator.{
  Coordinator, CoordinatorError, InspectionOwner, PendingWrite, inspection_failed, validation,
  persistence_error, reconcile_attempt,
}
use drand_quicknet_evm.Coordinator.Refresh.{finish_write}
use drand_quicknet_evm.Coordinator.Recover.{
  SignerRecoveryInspection, SignerRecoveryResult, inspected, RecoveryEnvironment, RecoveryUpdate,
  observation_to_record, recovery_update, updated, grant_after_recovery,
}
use drand_quicknet_evm.Coordinator.Recovery.{
  recovery_failed, save_recovery, recover_present, recover_guard, recover_owned,
}
use drand_quicknet_evm.Coordinator.Saved.{save-IsCommitted}
use drand_quicknet_evm.Coordinator.Steady.{refresh-IsSame, finish_write-IsFinished}

recovery_failed_lem :
    (now : Text) (e : CoordinatorError) (c : Coordinator) → (recovery_failed now e c).0 ≡ err e
unfolding recovery_failed
recovery_failed_lem now e c = refl

-- A grant gives the permit at most.
record IsGrant (c d : Coordinator) : Type 0 where
  persistence_kept : c.persistence ≡ d.persistence
  quiet_kept : c.emitting ≡ d.emitting
  recovery_kept : c.recovery_complete ≡ d.recovery_complete

grant_after_recovery-IsGrant :
    (s : TransactionJournalSnapshot) (result : SignerRecoveryInspection) (c : Coordinator)
    → IsGrant (grant_after_recovery s result c) c
unfolding grant_after_recovery
grant_after_recovery-IsGrant s result c = ground arith

-- The state in which a recovery inspects.
abbrev pub begun : InspectionOwner → Coordinator → Coordinator
begun owner c = record c {
  inspection_owner = some (record owner { has_run_operation = true });
  broadcast_permit = none;
  busy = true;
  recovery_complete = false;
  inclusion_checks_complete = false;
}

module _ (viem : Viem) where
  -- The journal of the update is committed and in the file, and recovery is complete.
  pub record IsRecorded (next : TransactionJournalSnapshot) (d : Coordinator) : Type 0 where
    pub committed : d.persistence.current ≡ present next
    pub durable : d.persistence.disk ≡ present next
    pub recovered : d.recovery_complete ≡ true

  save_recovery-ok :
      (env : RecoveryEnvironment) (p : PendingWrite) (next : TransactionJournalSnapshot)
      (result r : SignerRecoveryResult) (grant : Coordinator → Coordinator) (c : Coordinator)
      → ((x : Coordinator) → IsGrant (grant x) x)
      → c.emitting ≡ false
      → (save_recovery viem env p next result grant c).0 ≡ ok r
      → (r ≡ result) × IsRecorded next (save_recovery viem env p next result grant c).1
  unfolding save_recovery
  save_recovery-ok env p next result r grant c keeps quiet h =
      let q = (save viem env.outcome next c.persistence).1 in
      let writing : Coordinator = record c { pending_write = some p; persistence = q } in
      let recovered : Coordinator = record writing { recovery_complete = true } in
      elim (Result-cases (save viem env.outcome next c.persistence).0) [
        | inr (e, w) ↦
            let failing : (save_recovery viem env p next result grant c).0
                ≡ err (persistence_error e) =
              rw (save_recovery, w) (recovery_failed_lem env.now (persistence_error e) writing) in
            absurd (cc)
        | inl (_, w) ↦
            let done = save-IsCommitted viem env.outcome next c.persistence w in
            let f = finish_write-IsFinished env.now p recovered quiet in
            let g = keeps (finish_write env.now p recovered) in
            let ended : Coordinator = record (grant (finish_write env.now p recovered)) {
              busy = false;
            } in
            let k =
              refresh-IsSame env.now reconcile_attempt ended (g.quiet_kept ∙ f.not_emitting) in
            let returns : (save_recovery viem env p next result grant c).0 ≡ ok result =
              rw (save_recovery, w) refl in
            let path = k.persistence_same ∙ g.persistence_kept ∙ f.persistence_kept in
            rw (save_recovery, w)
              (
                ok_injective _ _ (sym h ∙ returns),
                record {
                  committed = ap (λ q. q.current) path ∙ done.committed;
                  durable = ap (λ q. q.disk) path ∙ done.on_disk;
                  recovered = k.recovery_same ∙ g.recovery_kept ∙ f.recovery_kept;
                },
              )
      ]

  -- What a recovery of the journal `s` makes of its inspection.
  pub data Recorded (s : TransactionJournalSnapshot) (result : SignerRecoveryInspection)
      (c d : Coordinator) : Type 0 where
    -- The result is passed on, and recorded nowhere.
    passed_on :
        observation_to_record c.blockers.unattributed s result ≡ none
        → d.persistence ≡ c.persistence
        → d.recovery_complete ≡ c.recovery_complete
        → Recorded s result c d
    recorded :
        (last : AnchoredNonceObservation) (u : RecoveryUpdate)
        → observation_to_record c.blockers.unattributed s result ≡ some last
        → recovery_update s last result ≡ ok u
        → IsRecorded (updated s u) d
        → Recorded s result c d

  recover_present-Recorded :
      (env : RecoveryEnvironment) (s : TransactionJournalSnapshot) (c : Coordinator)
      (r : SignerRecoveryResult)
      → c.emitting ≡ false
      → (recover_present viem env s c).0 ≡ ok r
      → (result : SignerRecoveryInspection) × (env.inspection ≡ some result)
        × (r ≡ inspected result)
        × Recorded s result c (recover_present viem env s c).1
  unfolding recover_present
  recover_present-Recorded env s c r quiet h =
      let failing_at = recovery_failed_lem env.now in
      elim (Option-cases env.inspection) [
        | inl e ↦
            let failing : (recover_present viem env s c).0 ≡ err inspection_failed =
              rw (recover_present, e) (failing_at inspection_failed c) in
            absurd (cc)
        | inr (result, e) ↦
            elim (Option-cases (observation_to_record c.blockers.unattributed s result)) [
              | inl o ↦
                  let ended : Coordinator = record c { busy = false } in
                  let k = refresh-IsSame env.now reconcile_attempt ended quiet in
                  let returns : (recover_present viem env s c).0 ≡ ok (inspected result) =
                    rw (recover_present, e, o) refl in
                  (
                    result,
                    e,
                    ok_injective _ _ (sym h ∙ returns),
                    rw (recover_present, e, o) (passed_on o k.persistence_same k.recovery_same),
                  )
              | inr (last, o) ↦ elim (Result-cases (recovery_update s last result)) [
                | inr (x, u) ↦
                    let failing : (recover_present viem env s c).0 ≡ err x =
                      rw (recover_present, e, o, u) (failing_at x c) in
                    absurd (cc)
                | inl (u, eu) ↦
                    elim (Result-cases (
                      validate_journal_snapshot_structure (snapshot_value (updated s u))
                        (identity_value c.identity))) [
                          | inr (x, v) ↦
                              let failing : (recover_present viem env s c).0 ≡ err (validation x) =
                                rw (recover_present, e, o, eu, v) (failing_at (validation x) c) in
                              absurd (cc)
                          | inl (next, v) ↦
                              let runs : recover_present viem env s c
                                  ≡ save_recovery viem env u.pending next (inspected result)
                                      (grant_after_recovery s result) c =
                                simp (recover_present, e, o, eu, v) in
                              let (returned, done) =
                                save_recovery-ok env u.pending next (inspected result) r
                                  (grant_after_recovery s result) c
                                  (grant_after_recovery-IsGrant s result) quiet
                                  (ap (λ m. m.0) (sym runs) ∙ h) in
                              let d =
                                (save_recovery viem env u.pending next (inspected result)
                                  (grant_after_recovery s result) c).1 in
                              let same =
                                validate-same (updated s u) (identity_value c.identity) next v in
                              (
                                result,
                                e,
                                returned,
                                recorded last u o eu
                                    (rw runs (subst (λ t. IsRecorded t d) same done)),
                              )
                        ]
              ]
            ]
      ]

  -- A recovery of a journal that returns gives the result of its inspection. Either the result is one
  -- that may not be recorded, and neither the journal nor the file has changed and recovery is not
  -- complete; or exactly the update that the result calls for is committed and in the file, and
  -- recovery is complete.
  pub recover_owned-Recorded :
      (range : ℕ) (env : RecoveryEnvironment) (owner : InspectionOwner)
      (s : TransactionJournalSnapshot) (c : Coordinator) (r : SignerRecoveryResult)
      → c.emitting ≡ false
      → c.persistence.current ≡ present s
      → (recover_owned viem range env owner c).0 ≡ ok r
      → (result : SignerRecoveryInspection) × (env.inspection ≡ some result)
        × (r ≡ inspected result)
        × Recorded s result (begun owner c) (recover_owned viem range env owner c).1
  unfolding recover_owned
  recover_owned-Recorded range env owner s c r quiet j h =
      let running : Coordinator = record c {
        inspection_owner = some (record owner { has_run_operation = true });
      } in
      elim (Result-cases (recover_guard range running)) [
        | inr (e, g) ↦
            let failing : (recover_owned viem range env owner c).0 ≡ err e =
              rw (recover_owned, g) refl in
            absurd (cc)
        | inl (_, g) ↦
            let runs : recover_owned viem range env owner c
                ≡ recover_present viem env s (begun owner c) =
              simp (recover_owned, g, j) in
            let (result, e, returned, done) =
              recover_present-Recorded env s (begun owner c) r quiet
                (ap (λ m. m.0) (sym runs) ∙ h) in
            (result, e, returned, rw runs done)
      ]
