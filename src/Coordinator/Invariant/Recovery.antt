-- ===== src/Coordinator/Invariant/Recovery.antt =====
-- The invariant through `recoverOwned` of apps/relayer/src/state/signer-coordinator.ts.
use drand_quicknet_evm.Base.{
  ℕ, ◌≡◌, refl, sym, subst, ◌∙◌, ◌⊎◌, inl, inr, true, false, none, some, arith, Result-cases,
  Option-cases, Bool-cases,
}
use drand_quicknet_evm.Text.{Text}
use drand_quicknet_evm.Journal.{AnchoredNonceObservation, TransactionJournalSnapshot}
use drand_quicknet_evm.Journal.Value.{snapshot_value, identity_value}
use drand_quicknet_evm.Journal.Validation.Structure.{validate_journal_snapshot_structure}
use drand_quicknet_evm.Journal.Verification.{Viem}
use drand_quicknet_evm.Persistence.{idle, failed}
use drand_quicknet_evm.Persistence.Laws.{IsSettled}
use drand_quicknet_evm.Gate.Laws.{read_cases}
use drand_quicknet_evm.Coordinator.{
  Coordinator, CoordinatorError, InspectionOwner, PendingWrite, bootstrap, reconcile_attempt,
  blockers_remain, inspection_failed, validation,
}
use drand_quicknet_evm.Coordinator.Refresh.{emit}
use drand_quicknet_evm.Coordinator.Gates.{no_blockers}
use drand_quicknet_evm.Coordinator.Guards.{recover_guard_lem}
use drand_quicknet_evm.Coordinator.Steady.{Outstanding}
use drand_quicknet_evm.Coordinator.Recover.{
  bootstrap_anchor_changed, bootstrap_deferred, ready, inspected, SignerRecoveryInspection,
  SignerRecoveryResult, RecoveryEnvironment, grant_after_recovery, observation_to_record,
  recovery_update, updated,
}
use drand_quicknet_evm.Coordinator.Recovery.{
  settled, recovery_failed, report_deferral, save_recovery, recover_missing, recover_present,
  recover_owned, recover_guard,
}
use drand_quicknet_evm.Coordinator.Invariant.{
  IsSteady, IsRunning, save-IsSaved, refresh-IsSteady, finish_write-IsSteady,
}

module _ (viem : Viem) where
  -- A recovery that ends without a write.
  pub settled-IsSteady :
      (now : Text) (c : Coordinator) → IsRunning viem c → IsSteady viem (settled now c)
  unfolding IsSteady
  settled-IsSteady now c h = refresh-IsSteady viem now reconcile_attempt _ (
    h.settled,
    h.same,
    refl,
    h.quiet,
    rw h.none_pending (subst (λ state. Outstanding state none) (sym h.idle_state) tt),
  )

  recovery_failed-IsSteady :
      (now : Text) (e : CoordinatorError) (p : PendingWrite) (c : Coordinator)
      → IsSettled viem c.persistence
      → c.persistence.identity ≡ c.identity
      → c.emitting ≡ false
      → ((c.persistence.state ≡ idle)
          ⊎ ((c.persistence.state ≡ failed) × (c.pending_write ≡ some p)))
      → IsSteady viem (recovery_failed now e c).1
  unfolding recovery_failed IsSteady
  recovery_failed-IsSteady now e p c settled same quiet ends =
      refresh-IsSteady viem now _ _ (ground arith)

  running_failed-IsSteady :
      (now : Text) (e : CoordinatorError) (c : Coordinator)
      → IsRunning viem c
      → IsSteady viem (recovery_failed now e c).1
  running_failed-IsSteady now e c h =
      recovery_failed-IsSteady now e bootstrap c h.settled h.same h.quiet (inl h.idle_state)

  -- A permit that is granted leaves the rest as it is.
  abbrev pub Keeps : (Coordinator → Coordinator) → Type 0
  Keeps grant = (c : Coordinator) → IsSteady viem c → IsSteady viem (grant c)

  save_recovery-IsSteady :
      (env : RecoveryEnvironment) (p : PendingWrite) (next : TransactionJournalSnapshot)
      (result : SignerRecoveryResult) (grant : Coordinator → Coordinator) (c : Coordinator)
      → Keeps grant
      → IsRunning viem c
      → IsSteady viem (save_recovery viem env p next result grant c).1
  unfolding save_recovery IsSteady
  save_recovery-IsSteady env p next result grant c keeps h =
      let saved = save-IsSaved viem env.outcome next c.persistence h.idle_state h.settled in
      let same = saved.same ∙ h.same in
      elim saved.ends [
        | inl (done, i) ↦
            let f = keeps _ (finish_write-IsSteady viem env.now p _ saved.settled i same h.quiet) in
            rw (save_recovery, done)
              (refresh-IsSteady viem env.now reconcile_attempt _ (f.0, f.1, refl, f.3, f.4))
        | inr (_, failed_as, ends) ↦
            rw (save_recovery, failed_as)
              (recovery_failed-IsSteady env.now _ p _ saved.settled same h.quiet
                (ground (arith, ends)))
      ]

  grant_after_recovery-Keeps :
      (s : TransactionJournalSnapshot) (result : SignerRecoveryInspection)
      → Keeps (grant_after_recovery s result)
  unfolding grant_after_recovery IsSteady
  grant_after_recovery-Keeps s result c h = ground (arith, h)

  report_deferral-IsRunning :
      (o : AnchoredNonceObservation) (latest pending : ℕ) (c : Coordinator)
      → IsRunning viem c
      → IsRunning viem (report_deferral o latest pending c)
  unfolding report_deferral emit
  report_deferral-IsRunning o latest pending c h = ground (arith, h)

  recover_missing-IsSteady :
      (env : RecoveryEnvironment) (c : Coordinator)
      → IsRunning viem c
      → IsSteady viem (recover_missing viem env c).1
  unfolding recover_missing
  recover_missing-IsSteady env c h = elim (Bool-cases (no_blockers c.blockers)) [
    | inr b ↦ rw (recover_missing, b) (running_failed-IsSteady env.now blockers_remain c h)
    | inl b ↦ elim (Option-cases env.bootstrap_decision) [
      | inl e ↦ rw (recover_missing, b, e) (running_failed-IsSteady env.now inspection_failed c h)
      | inr (decision, e) ↦
          elim decision
              as (λ d.
                env.bootstrap_decision ≡ some d → IsSteady viem (recover_missing viem env c).1) [
                  | bootstrap_anchor_changed observed ↦
                      λ e'. rw (recover_missing, b, e') (settled-IsSteady env.now c h)
                  | bootstrap_deferred o latest pending ↦ λ e'.
                      rw (recover_missing, b, e')
                        (settled-IsSteady env.now _
                          (report_deferral-IsRunning o latest pending c h))
                  | ready o ↦ λ e'.
                      rw (recover_missing, b, e')
                        (save_recovery-IsSteady env bootstrap _ _ (λ c'. c') _ (λ c' k. k)
                          (record {
                            settled = h.settled;
                            same = h.same;
                            quiet = h.quiet;
                            idle_state = h.idle_state;
                            none_pending = h.none_pending;
                          }))
                ]
            e
    ]
  ]

  recover_present-IsSteady :
      (env : RecoveryEnvironment) (s : TransactionJournalSnapshot) (c : Coordinator)
      → IsRunning viem c
      → IsSteady viem (recover_present viem env s c).1
  unfolding recover_present
  recover_present-IsSteady env s c h = elim (Option-cases env.inspection) [
    | inl e ↦ rw (recover_present, e) (running_failed-IsSteady env.now inspection_failed c h)
    | inr (result, e) ↦
        elim (Option-cases (observation_to_record c.blockers.unattributed s result)) [
          | inl o ↦ rw (recover_present, e, o) (settled-IsSteady env.now c h)
          | inr (last, o) ↦ elim (Result-cases (recovery_update s last result)) [
            | inr (x, u) ↦ rw (recover_present, e, o, u) (running_failed-IsSteady env.now x c h)
            | inl (u, eu) ↦
                elim (Result-cases (
                  validate_journal_snapshot_structure (snapshot_value (updated s u))
                    (identity_value c.identity))) [
                      | inr (x, v) ↦
                          rw (recover_present, e, o, eu, v)
                            (running_failed-IsSteady env.now (validation x) c h)
                      | inl (next, v) ↦
                          rw (recover_present, e, o, eu, v)
                            (save_recovery-IsSteady env u.pending next (inspected result)
                              (grant_after_recovery s result) c
                              (grant_after_recovery-Keeps s result) h)
                    ]
          ]
        ]
  ]

  -- Whatever a recovery meets, the coordinator is left as it is between calls.
  pub recover_owned-IsSteady :
      (range : ℕ) (env : RecoveryEnvironment) (owner : InspectionOwner) (c : Coordinator)
      → IsSteady viem c
      → IsSteady viem (recover_owned viem range env owner c).1
  unfolding recover_owned IsSteady
  recover_owned-IsSteady range env owner c h =
      let running = record c {
        inspection_owner = some (record owner { has_run_operation = true });
      } in
      elim (Result-cases (recover_guard range running)) [
        | inr (e, g) ↦ rw (recover_owned, g) h
        | inl (_, g) ↦
            let free = recover_guard_lem range running g in
            let begun : Coordinator = record running {
              broadcast_permit = none;
              busy = true;
              recovery_complete = false;
              inclusion_checks_complete = false;
            } in
            let at : IsRunning viem begun = record {
              settled = h.0;
              same = h.1;
              quiet = h.3;
              idle_state = free.1;
              none_pending = free.0;
            } in
            elim (read_cases c.persistence.current) [
              | inl m ↦ rw (recover_owned, g, m) (recover_missing-IsSteady env begun at)
              | inr (s, m) ↦ rw (recover_owned, g, m) (recover_present-IsSteady env s begun at)
            ]
      ]
