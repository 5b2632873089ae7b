-- ===== src/Coordinator/Invariant/Inclusions.antt =====
-- The invariant through `checkInclusionsOwned` of apps/relayer/src/state/signer-coordinator.ts.
use drand_quicknet_evm.Base.{
  ◌≡◌, refl, ◌∙◌, ◌⊎◌, inl, inr, true, false, none, some, arith, Result-cases, Bool-cases,
}
use drand_quicknet_evm.Text.{Text}
use drand_quicknet_evm.Journal.{TransactionJournalSnapshot}
use drand_quicknet_evm.Journal.Value.{snapshot_value, identity_value}
use drand_quicknet_evm.Journal.Validation.Structure.{validate_journal_snapshot_structure}
use drand_quicknet_evm.Journal.Verification.{Viem}
use drand_quicknet_evm.Persistence.{idle, failed}
use drand_quicknet_evm.Persistence.Laws.{IsSettled}
use drand_quicknet_evm.Gate.Laws.{read_cases}
use drand_quicknet_evm.Coordinator.{
  Coordinator, CoordinatorError, InspectionOwner, observation, reconcile_attempt, head_mismatch,
  inspection_failed, validation,
}
use drand_quicknet_evm.Coordinator.Gates.{assert_no_pending_write}
use drand_quicknet_evm.Coordinator.Guards.{assert_no_pending_write_lem}
use drand_quicknet_evm.Coordinator.Inspection.{check_failed, unchanged, changed}
use drand_quicknet_evm.Coordinator.Inclusions.{
  InspectedInclusions, anchor_changed, nonce_behind_journal, inconsistent_observations, inspected,
  InclusionsEnvironment, inspected_snapshot, grant_after_inclusions, inclusions_failed,
  save_inclusions, accept_inclusions, inspect_inclusions, check_inclusions_owned, closing_check,
  fits_bracket, reject_bracket, close_bracket,
}
use drand_quicknet_evm.Coordinator.Invariant.{
  IsSteady, IsRunning, save-IsSaved, refresh-IsSteady, finish_write-IsSteady,
}
use drand_quicknet_evm.Coordinator.Invariant.Recovery.{Keeps, settled-IsSteady}

module _ (viem : Viem) where
  inclusions_failed-IsSteady :
      (now : Text) (e : CoordinatorError) (c : Coordinator)
      → IsSettled viem c.persistence
      → c.persistence.identity ≡ c.identity
      → c.emitting ≡ false
      → ((c.persistence.state ≡ idle)
          ⊎ ((c.persistence.state ≡ failed) × (c.pending_write ≡ some observation)))
      → IsSteady viem (inclusions_failed now e c).1
  unfolding inclusions_failed IsSteady
  inclusions_failed-IsSteady now e c settled same quiet ends =
      refresh-IsSteady viem now _ _ (ground arith)

  running_failed-IsSteady :
      (now : Text) (e : CoordinatorError) (c : Coordinator)
      → IsRunning viem c
      → IsSteady viem (inclusions_failed now e c).1
  running_failed-IsSteady now e c h =
      inclusions_failed-IsSteady now e c h.settled h.same h.quiet (inl h.idle_state)

  grant_after_inclusions-Keeps :
      (next : TransactionJournalSnapshot) (i : InspectedInclusions)
      → Keeps viem (grant_after_inclusions next i)
  unfolding grant_after_inclusions IsSteady
  grant_after_inclusions-Keeps next i c h = ground (arith, h)

  close_bracket-Keeps : (owner : InspectionOwner) → Keeps viem (close_bracket owner)
  unfolding IsSteady
  close_bracket-Keeps owner c h = ground (arith, h)

  reject_bracket-IsRunning :
      (owner : InspectionOwner) (c : Coordinator)
      → IsRunning viem c
      → IsRunning viem (reject_bracket owner c)
  reject_bracket-IsRunning owner c h = ground (arith, h)

  save_inclusions-IsSteady :
      (env : InclusionsEnvironment) (next : TransactionJournalSnapshot) (i : InspectedInclusions)
      (owner : InspectionOwner) (c : Coordinator)
      → IsRunning viem c
      → IsSteady viem (save_inclusions viem env next i owner c).1
  unfolding save_inclusions IsSteady
  save_inclusions-IsSteady env next i owner c h =
      let saved = save-IsSaved viem env.outcome next c.persistence h.idle_state h.settled in
      let same = saved.same ∙ h.same in
      elim saved.ends [
        | inl (done, is_idle) ↦
            let f = close_bracket-Keeps owner _ (
              grant_after_inclusions-Keeps next i _ (
                finish_write-IsSteady viem env.now observation _ saved.settled is_idle same
                  h.quiet)) in
            rw (save_inclusions, done)
              (refresh-IsSteady viem env.now reconcile_attempt _ (f.0, f.1, refl, f.3, f.4))
        | inr (_, failed_as, ends) ↦
            rw (save_inclusions, failed_as)
              (inclusions_failed-IsSteady env.now _ _ saved.settled same h.quiet
                (ground (arith, ends)))
      ]

  accept_inclusions-IsSteady :
      (env : InclusionsEnvironment) (s : TransactionJournalSnapshot) (i : InspectedInclusions)
      (owner : InspectionOwner) (c : Coordinator)
      → IsRunning viem c
      → IsSteady viem (accept_inclusions viem env s i owner c).1
  unfolding accept_inclusions
  accept_inclusions-IsSteady env s i owner c h =
      elim (closing_check env owner.head_bracket)
          as (λ check.
            closing_check env owner.head_bracket ≡ check
            → IsSteady viem (accept_inclusions viem env s i owner c).1) [
              | check_failed ↦ λ e.
                  rw (accept_inclusions, e) (running_failed-IsSteady env.now inspection_failed c h)
              | changed observed ↦ λ e.
                  rw (accept_inclusions, e)
                    (settled-IsSteady viem env.now _ (reject_bracket-IsRunning owner c h))
              | unchanged ↦ λ e.
                  elim (Result-cases (
                    validate_journal_snapshot_structure
                      (snapshot_value (inspected_snapshot c.blockers.unattributed s i))
                      (identity_value c.identity))) [
                        | inr (x, v) ↦
                            rw (accept_inclusions, e, v)
                              (running_failed-IsSteady env.now (validation x) c h)
                        | inl (next, v) ↦
                            rw (accept_inclusions, e, v)
                              (save_inclusions-IsSteady env next i owner c h)
                      ]
            ]
        refl

  lost :
      (c : Coordinator) → IsRunning viem c → IsRunning viem (record c { recovery_complete = false })
  lost c h = record {
    settled = h.settled;
    same = h.same;
    quiet = h.quiet;
    idle_state = h.idle_state;
    none_pending = h.none_pending;
  }

  inspect_inclusions-IsSteady :
      (env : InclusionsEnvironment) (s : TransactionJournalSnapshot) (owner : InspectionOwner)
      (c : Coordinator)
      → IsRunning viem c
      → IsSteady viem (inspect_inclusions viem env s owner c).1
  unfolding inspect_inclusions
  inspect_inclusions-IsSteady env s owner c h =
      elim (Bool-cases (fits_bracket env owner.head_bracket)) [
        | inr b ↦ rw (inspect_inclusions, b) (running_failed-IsSteady env.now head_mismatch c h)
        | inl b ↦
            elim env.inspection
                as (λ result.
                  env.inspection ≡ result
                  → IsSteady viem (inspect_inclusions viem env s owner c).1) [
                    | none ↦ λ e.
                        rw (inspect_inclusions, b, e)
                          (running_failed-IsSteady env.now inspection_failed c h)
                    | some (inspected i) ↦ λ e.
                        rw (inspect_inclusions, b, e) (accept_inclusions-IsSteady env s i owner c h)
                    | some (anchor_changed observed) ↦ λ e.
                        rw (inspect_inclusions, b, e)
                          (settled-IsSteady viem env.now _ (reject_bracket-IsRunning owner c h))
                    | some (nonce_behind_journal o) ↦ λ e.
                        rw (inspect_inclusions, b, e)
                          (settled-IsSteady viem env.now _
                            (reject_bracket-IsRunning owner _ (lost c h)))
                    | some (inconsistent_observations o) ↦ λ e.
                        rw (inspect_inclusions, b, e)
                          (settled-IsSteady viem env.now _
                            (reject_bracket-IsRunning owner _ (lost c h)))
                  ]
              refl
      ]

  -- Whatever an inclusion check meets, the coordinator is left as it is between calls.
  pub check_inclusions_owned-IsSteady :
      (env : InclusionsEnvironment) (owner : InspectionOwner) (c : Coordinator)
      → IsSteady viem c
      → IsSteady viem (check_inclusions_owned viem env owner c).1
  unfolding check_inclusions_owned IsSteady
  check_inclusions_owned-IsSteady env owner c h =
      let used = record owner { has_run_operation = true } in
      let running : Coordinator = record c { inspection_owner = some used } in
      elim (Result-cases (assert_no_pending_write running)) [
        | inr (e, g) ↦ rw (check_inclusions_owned, g) h
        | inl (_, g) ↦
            let free = assert_no_pending_write_lem running g in
            let begun : Coordinator = record running {
              broadcast_permit = none;
              inclusion_checks_complete = false;
              busy = true;
            } in
            let at : IsRunning viem begun = record {
              settled = h.0;
              same = h.1;
              quiet = h.3;
              idle_state = free.1;
              none_pending = free.0;
            } in
            elim (read_cases c.persistence.current) [
              | inl m ↦ rw (check_inclusions_owned, g, m) h
              | inr (s, m) ↦
                  rw (check_inclusions_owned, g, m)
                    (inspect_inclusions-IsSteady env s used begun at)
            ]
      ]
