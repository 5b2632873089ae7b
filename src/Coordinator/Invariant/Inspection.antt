-- ===== src/Coordinator/Invariant/Inspection.antt =====
-- The invariant through the life of an inspection, a retry, an observed reconciliation and the
-- creation of the coordinator, apps/relayer/src/state/signer-coordinator.ts.
use drand_quicknet_evm.Base.{
  ℕ, ◌≡◌, refl, ◌∙◌, ◌⊎◌, inl, inr, true, arith, Result, ok, err, Result-cases, ◌>>◌,
}
use drand_quicknet_evm.Text.{Text}
use drand_quicknet_evm.Journal.{BlockAnchor}
use drand_quicknet_evm.Journal.Verification.{Viem}
use drand_quicknet_evm.Persistence.{SaveOutcome, idle, failed, retry, PersistenceError}
use drand_quicknet_evm.Persistence.Laws.{retry-IsSettled}
use drand_quicknet_evm.Coordinator.{
  Coordinator, CoordinatorError, Method, PublicClient, InspectionOwner, reconcile_attempt,
}
use drand_quicknet_evm.Coordinator.Gates.{
  assert_available, assert_no_pending_write, assert_inspection_work_allowed, inspection_owner_of,
}
use drand_quicknet_evm.Coordinator.Guards.{retry_guard_lem}
use drand_quicknet_evm.Coordinator.Inspection.{
  AnchorCheck, begin_inspection, fail_open_bracket, run_inspection_operation, open_inspection_head,
  finish_guard, finish_inspection, abandon_inspection, conclude, within_inspection,
}
use drand_quicknet_evm.Coordinator.Retry.{
  retry_guard, retry_persistence, observe_guard, observe_reconciliation,
}
use drand_quicknet_evm.Coordinator.Invariant.{IsSteady, refresh-IsSteady, finish_write-IsSteady}

module _ (viem : Viem) where
  pub begin_inspection-IsSteady :
      (c : Coordinator) → IsSteady viem c → IsSteady viem (begin_inspection c).1
  unfolding begin_inspection IsSteady
  begin_inspection-IsSteady c h =
      elim (Result-cases (assert_available c >> assert_no_pending_write c)) [
        | inr (e, g) ↦ rw (begin_inspection, g) h
        | inl (_, g) ↦ rw (begin_inspection, g) h
      ]

  pub open_inspection_head-IsSteady :
      (client : PublicClient) (head : BlockAnchor) (check : AnchorCheck) (owner : InspectionOwner)
      (c : Coordinator)
      → IsSteady viem c
      → IsSteady viem (open_inspection_head client head check owner c).1
  unfolding open_inspection_head IsSteady
  open_inspection_head-IsSteady client head check owner c h = ground (arith, h)

  fail_open_bracket-IsSteady :
      (c : Coordinator) → IsSteady viem c → IsSteady viem (fail_open_bracket c)
  unfolding fail_open_bracket IsSteady
  fail_open_bracket-IsSteady c h = ground (arith, h)

  -- An operation of an inspection that keeps the invariant, whoever owns the inspection.
  abbrev pub KeepsSteady : {A : Type 0} → (InspectionOwner → Coordinator → Method A) → Type 0
  KeepsSteady operation =
      (owner : InspectionOwner) (c : Coordinator)
      → IsSteady viem c
      → IsSteady viem (operation owner c).1

  pub run_inspection_operation-IsSteady :
      {A : Type 0} (handle : ℕ) (operation : InspectionOwner → Coordinator → Method A)
      (c : Coordinator)
      → KeepsSteady operation
      → IsSteady viem c
      → IsSteady viem (run_inspection_operation handle operation c).1
  unfolding run_inspection_operation
  run_inspection_operation-IsSteady {A} handle operation c keeps h =
      elim (Result-cases (assert_inspection_work_allowed c handle)) [
        | inr (e, g) ↦ rw (run_inspection_operation, g) h
        | inl (owner, g) ↦ elim (Result-cases (operation owner c).0) [
          | inl (a, r) ↦ rw (run_inspection_operation, g, r) (keeps owner c h)
          | inr (e, r) ↦
              rw (run_inspection_operation, g, r) (fail_open_bracket-IsSteady _ (keeps owner c h))
        ]
      ]

  pub finish_inspection-IsSteady :
      (handle : ℕ) (now : Text) (c : Coordinator)
      → IsSteady viem c
      → IsSteady viem (finish_inspection handle now c).1
  unfolding finish_inspection IsSteady
  finish_inspection-IsSteady handle now c h = elim (Result-cases (finish_guard handle c)) [
    | inr (e, g) ↦ rw (finish_inspection, g) h
    | inl (_, g) ↦ rw (finish_inspection, g) (refresh-IsSteady viem now reconcile_attempt _ h)
  ]

  pub abandon_inspection-IsSteady :
      (handle : ℕ) (now : Text) (c : Coordinator)
      → IsSteady viem c
      → IsSteady viem (abandon_inspection handle now c).1
  unfolding abandon_inspection IsSteady
  abandon_inspection-IsSteady handle now c h = elim (Result-cases (inspection_owner_of c handle)) [
    | inr (e, g) ↦ rw (abandon_inspection, g) h
    | inl (_, g) ↦ rw (abandon_inspection, g) (refresh-IsSteady viem now reconcile_attempt _ h)
  ]

  conclude-IsSteady :
      {A : Type 0} (handle : ℕ) (now : Text) (result : Result CoordinatorError A) (c : Coordinator)
      → IsSteady viem c
      → IsSteady viem (conclude handle now (result, c)).1
  unfolding conclude
  conclude-IsSteady {A} handle now (err e) c h = abandon_inspection-IsSteady handle now c h
  conclude-IsSteady {A} handle now (ok a) c h =
      let finished = finish_inspection-IsSteady handle now c h in
      elim (Result-cases (finish_inspection handle now c).0) [
        | inl (_, r) ↦ rw (conclude, r) finished
        | inr (e, r) ↦ rw (conclude, r) (abandon_inspection-IsSteady handle now _ finished)
      ]

  pub within_inspection-IsSteady :
      {A : Type 0} (now : Text) (operation : InspectionOwner → Coordinator → Method A)
      (c : Coordinator)
      → KeepsSteady operation
      → IsSteady viem c
      → IsSteady viem (within_inspection now operation c).1
  unfolding within_inspection
  within_inspection-IsSteady {A} now operation c keeps h =
      let begun = begin_inspection-IsSteady c h in
      elim (Result-cases (begin_inspection c).0) [
        | inr (e, r) ↦ rw (within_inspection, r) begun
        | inl (handle, r) ↦
            rw (within_inspection, r)
              (conclude-IsSteady handle now _ _
                (run_inspection_operation-IsSteady handle operation _ keeps begun))
      ]

  retry_cases :
      (outcome : SaveOutcome) (c : Coordinator)
      → c.persistence.state ≡ failed
      → let (result, p) = retry outcome c.persistence in
        (p.identity ≡ c.persistence.identity)
        × (((result ≡ ok tt) × (p.state ≡ idle))
            ⊎ ((e : PersistenceError) × (result ≡ err e) × (p.state ≡ failed)))
  unfolding retry
  retry_cases outcome c f = ground arith

  pub retry_persistence-IsSteady :
      (outcome : SaveOutcome) (now : Text) (c : Coordinator)
      → IsSteady viem c
      → IsSteady viem (retry_persistence outcome now c).1
  unfolding retry_persistence IsSteady
  retry_persistence-IsSteady outcome now c h = elim (Result-cases (retry_guard c)) [
    | inr (e, g) ↦ rw (retry_persistence, g) h
    | inl (pending, g) ↦
        let may = retry_guard_lem pending c g in
        let kept = retry-IsSettled viem outcome c.persistence h.0 in
        let (same, ends) = retry_cases outcome c may.4 in
        elim ends [
          | inl (done, i) ↦
              rw (retry_persistence, g, done)
                (finish_write-IsSteady viem now pending _ kept i (same ∙ h.1) h.3)
          | inr (_, failed_as, f) ↦
              rw (retry_persistence, g, failed_as)
                (refresh-IsSteady viem now reconcile_attempt _
                  (kept, same ∙ h.1, refl, h.3, rw (f, may.3) tt))
        ]
  ]

  pub observe_reconciliation-IsSteady :
      {A : Type 0} (now : Text) (action : Coordinator → Method A) (c : Coordinator)
      → ((d : Coordinator) → IsSteady viem d → IsSteady viem (action d).1)
      → IsSteady viem c
      → IsSteady viem (observe_reconciliation now action c).1
  unfolding observe_reconciliation IsSteady
  observe_reconciliation-IsSteady {A} now action c keeps h = elim (Result-cases (observe_guard c)) [
    | inr (e, g) ↦ rw (observe_reconciliation, g) h
    | inl (_, g) ↦
        rw (observe_reconciliation, g)
          (refresh-IsSteady viem now reconcile_attempt _
            (keeps (record c { reconciliation_observation_active = true }) h))
  ]
