-- ===== src/Coordinator/OwnedInclusions.antt =====
-- An inclusion check leaves its inspection to the owner: `checkInclusionsOwned` of
-- apps/relayer/src/state/signer-coordinator.ts.
use drand_quicknet_evm.Base.{
  ℕ, ◌≡◌, refl, inl, inr, true, false, none, some, arith, Result-cases, Bool-cases,
}
use drand_quicknet_evm.Text.{Text}
use drand_quicknet_evm.Journal.{TransactionJournalSnapshot}
use drand_quicknet_evm.Journal.Value.{snapshot_value, identity_value}
use drand_quicknet_evm.Journal.Validation.Structure.{validate_journal_snapshot_structure}
use drand_quicknet_evm.Journal.Verification.{Viem}
use drand_quicknet_evm.Persistence.{is_idle, save}
use drand_quicknet_evm.Gate.Laws.{read_cases}
use drand_quicknet_evm.Coordinator.{
  Coordinator, CoordinatorError, InspectionOwner, unopened, closed, bracket_failed, opened,
  observation, head_mismatch, inspection_failed, validation, persistence_error,
}
use drand_quicknet_evm.Coordinator.Gates.{assert_no_pending_write}
use drand_quicknet_evm.Coordinator.Inspection.{check_failed, unchanged, changed}
use drand_quicknet_evm.Coordinator.Inclusions.{
  InspectedInclusions, anchor_changed, nonce_behind_journal, inconsistent_observations, inspected,
  InclusionsEnvironment, inspected_snapshot, grant_after_inclusions, inclusions_failed,
  save_inclusions, accept_inclusions, inspect_inclusions, check_inclusions_owned, check_inclusions,
  closing_check, fits_bracket, reject_bracket, close_bracket,
}
use drand_quicknet_evm.Coordinator.Invariant.{IsSteady}
use drand_quicknet_evm.Coordinator.Invariant.Inclusions.{check_inclusions_owned-IsSteady}
use drand_quicknet_evm.Coordinator.Released.{IsOwned, KeepsOwned, within_inspection-releases}
use drand_quicknet_evm.Coordinator.Owned.{IsHeld, settled-IsOwned, finish_write-IsHeld}

inclusions_failed-IsOwned :
    (handle : ℕ) (now : Text) (e : CoordinatorError) (c : Coordinator)
    → IsHeld handle c
    → IsOwned handle (inclusions_failed now e c).1
unfolding inclusions_failed
inclusions_failed-IsOwned handle now e c h = elim (Bool-cases (is_idle c.persistence.state)) [
  | inl i ↦
      let dropped : Coordinator = record c {
        pending_write = none;
        inclusion_checks_complete = false;
      } in
      let at : IsHeld handle dropped = ground (arith, h) in
      rw i (settled-IsOwned handle now dropped at)
  | inr i ↦
      let kept : Coordinator = record c { inclusion_checks_complete = false } in
      let at : IsHeld handle kept = ground (arith, h) in rw i (settled-IsOwned handle now kept at)
]

-- The states in which a bracket of this owner is closed or fails.
reject_bracket-IsHeld :
    (handle : ℕ) (owner : InspectionOwner) (c : Coordinator)
    → owner.generation ≡ handle
    → IsHeld handle c
    → IsHeld handle (reject_bracket owner c)
reject_bracket-IsHeld handle owner c g h =
    elim owner.head_bracket
        as (λ b. owner.head_bracket ≡ b → IsHeld handle (reject_bracket owner c)) [
          | opened client head ↦ λ e. rw e (record {
            quiet = h.quiet;
            held = record {
              owner = record owner { head_bracket = bracket_failed };
              owned = refl;
              generation = g;
              latest = h.held.latest;
            };
          })
          | unopened ↦ λ e. rw e h
          | closed ↦ λ e. rw e h
          | bracket_failed ↦ λ e. rw e h
        ]
      refl

close_bracket-IsHeld :
    (handle : ℕ) (owner : InspectionOwner) (c : Coordinator)
    → owner.generation ≡ handle
    → IsHeld handle c
    → IsHeld handle (close_bracket owner c)
close_bracket-IsHeld handle owner c g h =
    elim owner.head_bracket
        as (λ b. owner.head_bracket ≡ b → IsHeld handle (close_bracket owner c)) [
          | opened client head ↦ λ e. rw e (record {
            quiet = h.quiet;
            held = record {
              owner = record owner { head_bracket = closed };
              owned = refl;
              generation = g;
              latest = h.held.latest;
            };
          })
          | unopened ↦ λ e. rw e h
          | closed ↦ λ e. rw e h
          | bracket_failed ↦ λ e. rw e h
        ]
      refl

grant_after_inclusions-IsHeld :
    (handle : ℕ) (next : TransactionJournalSnapshot) (i : InspectedInclusions) (c : Coordinator)
    → IsHeld handle c
    → IsHeld handle (grant_after_inclusions next i c)
unfolding grant_after_inclusions
grant_after_inclusions-IsHeld handle next i c h = ground (arith, h)

module _ (viem : Viem) where
  save_inclusions-IsOwned :
      (handle : ℕ) (env : InclusionsEnvironment) (next : TransactionJournalSnapshot)
      (i : InspectedInclusions) (owner : InspectionOwner) (c : Coordinator)
      → owner.generation ≡ handle
      → IsHeld handle c
      → IsOwned handle (save_inclusions viem env next i owner c).1
  unfolding save_inclusions
  save_inclusions-IsOwned handle env next i owner c g h =
      let q = (save viem env.outcome next c.persistence).1 in
      let writing : Coordinator = record c { pending_write = some observation; persistence = q } in
      let checked : Coordinator = record writing {
        inclusion_checks_complete = i.inclusion_checks_complete;
      } in
      let at : IsHeld handle writing = ground (arith, h) in
      let then : IsHeld handle checked = ground (arith, h) in
      elim (Result-cases (save viem env.outcome next c.persistence).0) [
        | inr (e, r) ↦
            rw (save_inclusions, r)
              (inclusions_failed-IsOwned handle env.now (persistence_error e) writing at)
        | inl (_, r) ↦
            rw (save_inclusions, r)
              (settled-IsOwned handle env.now _ (
                close_bracket-IsHeld handle owner _ g (
                  grant_after_inclusions-IsHeld handle next i _
                    (finish_write-IsHeld handle env.now observation checked then))))
      ]

  accept_inclusions-IsOwned :
      (handle : ℕ) (env : InclusionsEnvironment) (s : TransactionJournalSnapshot)
      (i : InspectedInclusions) (owner : InspectionOwner) (c : Coordinator)
      → owner.generation ≡ handle
      → IsHeld handle c
      → IsOwned handle (accept_inclusions viem env s i owner c).1
  unfolding accept_inclusions
  accept_inclusions-IsOwned handle env s i owner c g h =
      elim (closing_check env owner.head_bracket)
          as (λ check.
            closing_check env owner.head_bracket ≡ check
            → IsOwned handle (accept_inclusions viem env s i owner c).1) [
              | check_failed ↦ λ e.
                  rw (accept_inclusions, e)
                    (inclusions_failed-IsOwned handle env.now inspection_failed c h)
              | changed observed ↦ λ e.
                  rw (accept_inclusions, e)
                    (settled-IsOwned handle env.now _ (reject_bracket-IsHeld handle owner c g h))
              | unchanged ↦ λ e.
                  elim (Result-cases (
                    validate_journal_snapshot_structure
                      (snapshot_value (inspected_snapshot c.blockers.unattributed s i))
                      (identity_value c.identity))) [
                        | inr (x, v) ↦
                            rw (accept_inclusions, e, v)
                              (inclusions_failed-IsOwned handle env.now (validation x) c h)
                        | inl (next, v) ↦
                            rw (accept_inclusions, e, v)
                              (save_inclusions-IsOwned handle env next i owner c g h)
                      ]
            ]
        refl

  inspect_inclusions-IsOwned :
      (handle : ℕ) (env : InclusionsEnvironment) (s : TransactionJournalSnapshot)
      (owner : InspectionOwner) (c : Coordinator)
      → owner.generation ≡ handle
      → IsHeld handle c
      → IsOwned handle (inspect_inclusions viem env s owner c).1
  unfolding inspect_inclusions
  inspect_inclusions-IsOwned handle env s owner c g h =
      let lost : Coordinator = record c { recovery_complete = false } in
      let at : IsHeld handle lost = ground (arith, h) in
      let rejected =
        settled-IsOwned handle env.now _ (reject_bracket-IsHeld handle owner lost g at) in
      elim (Bool-cases (fits_bracket env owner.head_bracket)) [
        | inr b ↦
            rw (inspect_inclusions, b) (inclusions_failed-IsOwned handle env.now head_mismatch c h)
        | inl b ↦
            elim env.inspection
                as (λ result.
                  env.inspection ≡ result
                  → IsOwned handle (inspect_inclusions viem env s owner c).1) [
                    | none ↦ λ e.
                        rw (inspect_inclusions, b, e)
                          (inclusions_failed-IsOwned handle env.now inspection_failed c h)
                    | some (inspected i) ↦ λ e.
                        rw (inspect_inclusions, b, e)
                          (accept_inclusions-IsOwned handle env s i owner c g h)
                    | some (anchor_changed observed) ↦ λ e.
                        rw (inspect_inclusions, b, e)
                          (settled-IsOwned handle env.now _
                            (reject_bracket-IsHeld handle owner c g h))
                    | some (nonce_behind_journal o) ↦ λ e. rw (inspect_inclusions, b, e) rejected
                    | some (inconsistent_observations o) ↦
                        λ e. rw (inspect_inclusions, b, e) rejected
                  ]
              refl
      ]

  check_inclusions_owned-KeepsOwned :
      (env : InclusionsEnvironment) → KeepsOwned viem (check_inclusions_owned viem env)
  unfolding check_inclusions_owned IsSteady
  check_inclusions_owned-KeepsOwned env handle owner c steady g l =
      let used = record owner { has_run_operation = true } in
      let running : Coordinator = record c { inspection_owner = some used } in
      let at : IsOwned handle running = record {
        owner = used;
        owned = refl;
        generation = g;
        latest = l;
      } in
      let checking : Coordinator = record running {
        broadcast_permit = none;
        inclusion_checks_complete = false;
        busy = true;
      } in
      let h : IsHeld handle checking = record {
        quiet = steady.3;
        held = record { owner = used; owned = refl; generation = g; latest = l };
      } in
      elim (Result-cases (assert_no_pending_write running)) [
        | inr (e, r) ↦ rw (check_inclusions_owned, r) at
        | inl (_, r) ↦ elim (read_cases c.persistence.current) [
          | inl m ↦ rw (check_inclusions_owned, r, m) at
          | inr (s, m) ↦
              rw (check_inclusions_owned, r, m)
                (inspect_inclusions-IsOwned handle env s used checking g h)
        ]
      ]

  -- An inclusion check that starts with no inspection under way leaves none under way, whatever the
  -- node, the store and the journal make of it.
  pub check_inclusions-releases :
      (env : InclusionsEnvironment) (c : Coordinator)
      → IsSteady viem c
      → c.inspection_owner ≡ none
      → (check_inclusions viem env c).1.inspection_owner ≡ none
  unfolding check_inclusions
  check_inclusions-releases env c steady free =
      within_inspection-releases viem env.now (check_inclusions_owned viem env) c
        (check_inclusions_owned-IsSteady viem env) (check_inclusions_owned-KeepsOwned env) steady
        free
