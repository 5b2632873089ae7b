-- ===== src/Coordinator/Inspection.antt =====
-- The life of an inspection, apps/relayer/src/state/signer-coordinator.ts: `beginInspection`,
-- `openHead`, `finish`, `abandon`, and the wrapper that every operation of an inspection runs in. An
-- inspection is abandoned in the model once the operation that it waits for has settled.
use drand_quicknet_evm.Base.{
  ℕ, ◌+◌, ◌||◌, not, Bool, true, false, Option, none, some, ok, err, ◌>>=◌, ◌>>◌, require,
  if◌then◌else◌,
}
use drand_quicknet_evm.Text.{Text}
use drand_quicknet_evm.Journal.{BlockAnchor}
use drand_quicknet_evm.Journal.Check.{is_anchor}
use drand_quicknet_evm.Coordinator.{
  Coordinator, Method, PublicClient, InspectionOwner, InspectionHeadBracket, unopened,
  bracket_failed, opened, bracket_late, bracket_open, bracket_failed_error, invalid_head,
  inspection_failed, inspection_abandoned, operation_in_progress, pending_persistence,
  reconcile_attempt,
}
use drand_quicknet_evm.Coordinator.Gates.{
  Guard, assert_available, inspection_owner_of, assert_inspection_work_allowed,
  assert_no_pending_write,
}
use drand_quicknet_evm.Coordinator.Refresh.{refresh}

-- `revokeActionAuthorization`
abbrev pub revoke_action_authorization : Coordinator → Coordinator
revoke_action_authorization c = record c {
  broadcast_permit = none;
  inclusion_checks_complete = false;
}

abbrev pub started : ℕ → InspectionOwner
started generation = record {
  generation = generation;
  abandoning = false;
  has_run_operation = false;
  head_bracket = unopened;
}

-- `beginInspection`: the handle is the generation of the new owner.
unfoldable pub begin_inspection : Coordinator → Method ℕ
begin_inspection c = elim (assert_available c >> assert_no_pending_write c) as (λ _. Method ℕ) [
  | err e ↦ (err e, c)
  | ok _ ↦
      let generation = c.inspection_generation + 1 in
      (
        ok generation,
        revoke_action_authorization (record c {
          inspection_generation = generation;
          inspection_owner = some (started generation);
        }),
      )
]

abbrev pub set_bracket : InspectionHeadBracket → InspectionOwner → Coordinator → Coordinator
set_bracket bracket owner c = record c {
  inspection_owner = some (record owner { head_bracket = bracket });
}

-- An operation that fails while the head bracket is open leaves the bracket failed.
unfoldable pub fail_open_bracket : Coordinator → Coordinator
fail_open_bracket c = elim c.inspection_owner [
  | none ↦ c
  | some owner ↦ elim owner.head_bracket [
    | opened _ _ ↦ revoke_action_authorization (set_bracket bracket_failed owner c)
    | _ ↦ c
  ]
]

-- `runInspectionOperation`, with what the operation does from the state that it starts in.
unfoldable pub run_inspection_operation :
    {A : Type 0} → ℕ → (InspectionOwner → Coordinator → Method A) → Coordinator → Method A
run_inspection_operation {A} handle operation c =
    elim (assert_inspection_work_allowed c handle) as (λ _. Method A) [
      | err e ↦ (err e, c)
      | ok owner ↦
          let (result, c') = operation owner c in
          elim result as (λ _. Method A) [
            | ok a ↦ (ok a, c')
            | err e ↦ (err e, fail_open_bracket c')
          ]
    ]

-- What `checkBlockAnchor` answers: it throws, or the anchor still stands, or another block does.
pub data AnchorCheck : Type 0 where
  check_failed unchanged : AnchorCheck
  changed : BlockAnchor → AnchorCheck

abbrev is_unopened : InspectionHeadBracket → Bool
is_unopened unopened = true
is_unopened _ = false

-- `openInspectionHeadOwned`: until the check succeeds, the inspection may only be abandoned.
unfoldable pub open_inspection_head :
    PublicClient
    → BlockAnchor
    → AnchorCheck
    → InspectionOwner
    → Coordinator
    → Method (Option BlockAnchor)
open_inspection_head client head check owner c =
    if owner.has_run_operation || not (is_unopened owner.head_bracket)
    then (err bracket_late, c)
    else (let failed = set_bracket bracket_failed owner c in
        if is_anchor head
        then (elim check as (λ _. Method (Option BlockAnchor)) [
          | check_failed ↦ (err inspection_failed, failed)
          | changed observed ↦ (ok (some observed), failed)
          | unchanged ↦ (ok none, set_bracket (opened client head) owner c)
        ])
        else (err invalid_head, failed))

abbrev bracket_finished : InspectionHeadBracket → Guard
bracket_finished (opened _ _) = err bracket_open
bracket_finished bracket_failed = err bracket_failed_error
bracket_finished _ = ok tt

unfoldable pub finish_guard : ℕ → Coordinator → Guard
finish_guard handle c = do
  owner ← inspection_owner_of c handle
  require (not owner.abandoning) inspection_abandoned
  require (not (c.busy || c.emitting)) operation_in_progress
  bracket_finished owner.head_bracket
  elim (assert_no_pending_write c) [ ok _ ↦ ok tt | err _ ↦ err pending_persistence ]

-- `finishInspection`
unfoldable pub finish_inspection : ℕ → Text → Coordinator → Method (Unit {0})
finish_inspection handle now c = elim (finish_guard handle c) as (λ _. Method (Unit {0})) [
  | err e ↦ (err e, c)
  | ok _ ↦ (ok tt, refresh now reconcile_attempt (record c { inspection_owner = none }))
]

-- `abandonInspection` with `completeAbandonment`
unfoldable pub abandon_inspection : ℕ → Text → Coordinator → Method (Unit {0})
abandon_inspection handle now c = elim (inspection_owner_of c handle) as (λ _. Method (Unit {0})) [
  | err e ↦ (err e, c)
  | ok _ ↦ (
    ok tt,
    refresh now reconcile_attempt
        (record (revoke_action_authorization c) { inspection_owner = none }),
  )
]

-- How `recover` and `checkInclusions` end: the inspection is finished, or it is abandoned and the
-- error passed on.
unfoldable pub conclude : {A : Type 0} → ℕ → Text → Method A → Method A
conclude {A} handle now (err e, c) = (err e, (abandon_inspection handle now c).1)
conclude {A} handle now (ok a, c) =
    let (result, c') = finish_inspection handle now c in
    elim result as (λ _. Method A) [
      | ok _ ↦ (ok a, c')
      | err e ↦ (err e, (abandon_inspection handle now c').1)
    ]

-- `recover` and `checkInclusions`: one operation of an inspection of its own.
unfoldable pub within_inspection :
    {A : Type 0} → Text → (InspectionOwner → Coordinator → Method A) → Coordinator → Method A
within_inspection {A} now operation c =
    let (begun, c') = begin_inspection c in
    elim begun as (λ _. Method A) [
      | err e ↦ (err e, c')
      | ok handle ↦ conclude handle now (run_inspection_operation handle operation c')
    ]
