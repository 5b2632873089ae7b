-- ===== src/Coordinator/Released.antt =====
-- The owner of an inspection through `recover`, apps/relayer/src/state/signer-coordinator.ts: whatever
-- happens within it, the inspection is given up in the end.
use drand_quicknet_evm.Base.{
  ℕ, ◌+◌, ==_iff, ◌≡◌, refl, sym, subst, ◌∙◌, ap, inl, inr, false, none, some, arith, Result, ok,
  err, Result-cases, ◌>>◌,
}
use drand_quicknet_evm.Text.{Text}
use drand_quicknet_evm.Journal.Verification.{Viem}
use drand_quicknet_evm.Coordinator.{
  Coordinator, CoordinatorError, Method, InspectionOwner, unopened, closed, bracket_failed, opened,
  reconcile_attempt,
}
use drand_quicknet_evm.Coordinator.Gates.{
  assert_available, assert_no_pending_write, assert_inspection_work_allowed, inspection_owner_of,
}
use drand_quicknet_evm.Coordinator.Refresh.{refresh}
use drand_quicknet_evm.Coordinator.Guards.{assert_inspection_work_allowed_lem}
use drand_quicknet_evm.Coordinator.Inspection.{
  begin_inspection, fail_open_bracket, run_inspection_operation, finish_guard, finish_inspection,
  abandon_inspection, conclude, within_inspection, started,
}
use drand_quicknet_evm.Coordinator.Steady.{refresh-IsSame}
use drand_quicknet_evm.Coordinator.Invariant.{IsSteady}
use drand_quicknet_evm.Coordinator.Invariant.Inspection.{
  KeepsSteady, begin_inspection-IsSteady, run_inspection_operation-IsSteady,
}

-- The inspection with this handle is under way.
pub record IsOwned (handle : ℕ) (c : Coordinator) : Type 0 where
  pub owner : InspectionOwner
  pub owned : c.inspection_owner ≡ some owner
  pub generation : owner.generation ≡ handle
  pub latest : c.inspection_generation ≡ handle

owner_found :
    (handle : ℕ) (c : Coordinator) (h : IsOwned handle c)
    → inspection_owner_of c handle ≡ ok h.owner
unfolding inspection_owner_of
owner_found handle c h =
    simp (inspection_owner_of, h.owned, h.generation, h.latest, (==_iff handle handle).1 refl)

begin_inspection-IsOwned :
    (c : Coordinator) (handle : ℕ)
    → (begin_inspection c).0 ≡ ok handle
    → IsOwned handle (begin_inspection c).1
unfolding begin_inspection
begin_inspection-IsOwned c handle h =
    elim (Result-cases (assert_available c >> assert_no_pending_write c)) [
      | inr (e, g) ↦
          let failing : (begin_inspection c).0 ≡ err e = rw (begin_inspection, g) refl in
          absurd (cc)
      | inl (_, g) ↦
          let returns : (begin_inspection c).0 ≡ ok (c.inspection_generation + 1) =
            rw (begin_inspection, g) refl in
          let same : c.inspection_generation + 1 ≡ handle = cc in
          rw (begin_inspection, g)
            (record {
              owner = started (c.inspection_generation + 1);
              owned = refl;
              generation = same;
              latest = same;
            })
    ]

begin_inspection-err :
    (c : Coordinator) (e : CoordinatorError)
    → (begin_inspection c).0 ≡ err e
    → (begin_inspection c).1 ≡ c
unfolding begin_inspection
begin_inspection-err c e h = ground arith

fail_open_bracket-IsOwned :
    (handle : ℕ) (c : Coordinator) → IsOwned handle c → IsOwned handle (fail_open_bracket c)
unfolding fail_open_bracket
fail_open_bracket-IsOwned handle c h =
    elim h.owner.head_bracket
        as (λ bracket. h.owner.head_bracket ≡ bracket → IsOwned handle (fail_open_bracket c)) [
          | opened client head ↦ λ e.
              rw (fail_open_bracket, h.owned, e)
                (record {
                  owner = record (h.owner) { head_bracket = bracket_failed };
                  owned = refl;
                  generation = h.generation;
                  latest = h.latest;
                })
          | unopened ↦ λ e. rw (fail_open_bracket, h.owned, e) h
          | closed ↦ λ e. rw (fail_open_bracket, h.owned, e) h
          | bracket_failed ↦ λ e. rw (fail_open_bracket, h.owned, e) h
        ]
      refl

finish_inspection-ok :
    (handle : ℕ) (now : Text) (c : Coordinator)
    → finish_guard handle c ≡ ok tt
    → finish_inspection handle now c
      ≡ (ok tt, refresh now reconcile_attempt (record c { inspection_owner = none }))
unfolding finish_inspection
finish_inspection-ok handle now c g = simp (finish_inspection, g)

finish_inspection-err :
    (handle : ℕ) (now : Text) (c : Coordinator) (e : CoordinatorError)
    → finish_guard handle c ≡ err e
    → finish_inspection handle now c ≡ (err e, c)
unfolding finish_inspection
finish_inspection-err handle now c e g = simp (finish_inspection, g)

module _ (viem : Viem) where
  -- An operation that leaves the inspection to its owner.
  abbrev pub KeepsOwned : {A : Type 0} → (InspectionOwner → Coordinator → Method A) → Type 0
  KeepsOwned operation =
      (handle : ℕ) (owner : InspectionOwner) (c : Coordinator)
      → IsSteady viem c
      → owner.generation ≡ handle
      → c.inspection_generation ≡ handle
      → IsOwned handle (operation owner c).1

  run_inspection_operation-IsOwned :
      {A : Type 0} (handle : ℕ) (operation : InspectionOwner → Coordinator → Method A)
      (c : Coordinator)
      → KeepsOwned operation
      → IsSteady viem c
      → IsOwned handle c
      → IsOwned handle (run_inspection_operation handle operation c).1
  unfolding run_inspection_operation
  run_inspection_operation-IsOwned {A} handle operation c keeps steady h =
      elim (Result-cases (assert_inspection_work_allowed c handle)) [
        | inr (e, g) ↦ rw (run_inspection_operation, g) h
        | inl (owner, g) ↦
            let may = assert_inspection_work_allowed_lem handle owner c g in
            let kept = keeps handle owner c steady may.live h.latest in
            elim (Result-cases (operation owner c).0) [
              | inl (a, r) ↦ rw (run_inspection_operation, g, r) kept
              | inr (e, r) ↦
                  rw (run_inspection_operation, g, r) (fail_open_bracket-IsOwned handle _ kept)
            ]
      ]

  abandon_inspection-releases :
      (handle : ℕ) (now : Text) (c : Coordinator)
      → IsSteady viem c
      → IsOwned handle c
      → (abandon_inspection handle now c).1.inspection_owner ≡ none
  unfolding abandon_inspection IsSteady
  abandon_inspection-releases handle now c steady h =
      let revoked : Coordinator = record c {
        broadcast_permit = none;
        inclusion_checks_complete = false;
        inspection_owner = none;
      } in
      rw (abandon_inspection, owner_found handle c h)
        (refresh-IsSame now reconcile_attempt revoked steady.3).owner_same

  conclude-releases :
      {A : Type 0} (handle : ℕ) (now : Text) (result : Result CoordinatorError A) (c : Coordinator)
      → IsSteady viem c
      → IsOwned handle c
      → (conclude handle now (result, c)).1.inspection_owner ≡ none
  unfolding conclude IsSteady
  conclude-releases {A} handle now (err e) c steady h =
      abandon_inspection-releases handle now c steady h
  conclude-releases {A} handle now (ok a) c steady h = elim (Result-cases (finish_guard handle c)) [
    | inl (_, g) ↦
        let freed : Coordinator = record c { inspection_owner = none } in
        let runs = finish_inspection-ok handle now c g in
        let r : (finish_inspection handle now c).0 ≡ ok tt = ap (λ m. m.0) runs in
        rw (conclude, r)
          (ap (λ m. m.1.inspection_owner) runs
            ∙ (refresh-IsSame now reconcile_attempt freed steady.3).owner_same)
    | inr (e, g) ↦
        let runs = finish_inspection-err handle now c e g in
        let r : (finish_inspection handle now c).0 ≡ err e = ap (λ m. m.0) runs in
        rw (conclude, r)
          (subst (λ m. (abandon_inspection handle now m.1).1.inspection_owner ≡ none) (sym runs)
            (abandon_inspection-releases handle now c steady h))
  ]

  pub within_inspection-releases :
      {A : Type 0} (now : Text) (operation : InspectionOwner → Coordinator → Method A)
      (c : Coordinator)
      → KeepsSteady viem operation
      → KeepsOwned operation
      → IsSteady viem c
      → c.inspection_owner ≡ none
      → (within_inspection now operation c).1.inspection_owner ≡ none
  unfolding within_inspection
  within_inspection-releases {A} now operation c steadily keeps steady free =
      let begun = begin_inspection-IsSteady viem c steady in
      elim (Result-cases (begin_inspection c).0) [
        | inr (e, r) ↦
            rw (within_inspection, r)
              (ap (λ d. d.inspection_owner) (begin_inspection-err c e r) ∙ free)
        | inl (handle, r) ↦
            rw (within_inspection, r)
              (conclude-releases handle now _ _
                (run_inspection_operation-IsSteady viem handle operation _ steadily begun)
                (run_inspection_operation-IsOwned handle operation _ keeps begun
                  (begin_inspection-IsOwned c handle r)))
      ]
