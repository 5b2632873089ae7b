-- ===== src/Coordinator/Inclusions.antt =====
-- `checkInclusionsOwned` and `checkInclusions` of apps/relayer/src/state/signer-coordinator.ts, with
-- what chain/inspect-signer-inclusions.ts answers as an input.
use drand_quicknet_evm.Base.{
  ◌==◌, ◌&&◌, Bool, true, false, Option, none, some, List, ok, err, ltb, find, if◌then◌else◌,
}
use drand_quicknet_evm.Text.{Text}
use drand_quicknet_evm.Journal.{
  BlockAnchor, block_anchors_match, AnchoredNonceObservation, JournalAttempt, is_unresolved,
  TransactionJournalSnapshot, missing, present,
}
use drand_quicknet_evm.Journal.Value.{snapshot_value, identity_value}
use drand_quicknet_evm.Journal.Validation.Structure.{validate_journal_snapshot_structure}
use drand_quicknet_evm.Journal.Verification.{Viem}
use drand_quicknet_evm.Persistence.{SaveOutcome, is_idle, save}
use drand_quicknet_evm.Coordinator.{
  Coordinator, CoordinatorError, Method, PublicClient, InspectionOwner, InspectionHeadBracket,
  closed, bracket_failed, opened, observation, uninitialized_journal, head_mismatch,
  inspection_failed, validation, persistence_error,
}
use drand_quicknet_evm.Coordinator.Gates.{assert_no_pending_write, no_blockers, permits}
use drand_quicknet_evm.Coordinator.Refresh.{finish_write}
use drand_quicknet_evm.Coordinator.Inspection.{
  revoke_action_authorization, set_bracket, AnchorCheck, check_failed, unchanged, changed,
  within_inspection,
}
use drand_quicknet_evm.Coordinator.Recovery.{settled}

pub record InspectedInclusions : Type 0 where
  pub observation : AnchoredNonceObservation
  pub attempts : List JournalAttempt
  pub inclusion_checks_complete : Bool
  pub broadcast_attempt_id : Option Text

-- `SignerInclusionInspection`
pub data SignerInclusionInspection : Type 0 where
  anchor_changed : BlockAnchor → SignerInclusionInspection
  nonce_behind_journal inconsistent_observations :
      AnchoredNonceObservation → SignerInclusionInspection
  inspected : InspectedInclusions → SignerInclusionInspection

pub record InclusionsEnvironment : Type 0 where
  pub client : PublicClient
  pub head : BlockAnchor
  pub inspection : Option SignerInclusionInspection
  -- The closing check of an open bracket.
  pub check : AnchorCheck
  pub outcome : SaveOutcome
  pub now : Text

abbrev pub InclusionsMethod : Type 0
InclusionsMethod = Method SignerInclusionInspection

unfoldable pub inclusions_failed : Text → CoordinatorError → Coordinator → InclusionsMethod
inclusions_failed now e c =
    let kept = if is_idle c.persistence.state then record c { pending_write = none } else c in
    (err e, settled now (record kept { inclusion_checks_complete = false }))

-- The bracket of a pass that was not accepted.
abbrev pub reject_bracket : InspectionOwner → Coordinator → Coordinator
reject_bracket owner c = elim owner.head_bracket [
  | opened _ _ ↦ revoke_action_authorization (set_bracket bracket_failed owner c)
  | _ ↦ c
]

abbrev pub close_bracket : InspectionOwner → Coordinator → Coordinator
close_bracket owner c = elim owner.head_bracket [ opened _ _ ↦ set_bracket closed owner c | _ ↦ c ]

-- The pass uses the client and the head of an open bracket.
abbrev pub fits_bracket : InclusionsEnvironment → InspectionHeadBracket → Bool
fits_bracket env (opened client head) = env.client == client && block_anchors_match env.head head
fits_bracket env _ = true

abbrev pub closing_check : InclusionsEnvironment → InspectionHeadBracket → AnchorCheck
closing_check env (opened _ _) = env.check
closing_check env _ = unchanged

abbrev pub inspected_snapshot :
    Bool → TransactionJournalSnapshot → InspectedInclusions → TransactionJournalSnapshot
inspected_snapshot unattributed s i = record s {
  last_observation =
      if unattributed && ltb i.observation.nonce s.last_observation.nonce
      then s.last_observation
      else i.observation;
  attempts = i.attempts;
}

unfoldable pub grant_after_inclusions :
    TransactionJournalSnapshot → InspectedInclusions → Coordinator → Coordinator
grant_after_inclusions next i c = elim (find is_unresolved next.attempts) [
  | none ↦ c
  | some a ↦
      if c.recovery_complete
        && no_blockers c.blockers
        && permits i.broadcast_attempt_id a.attempt_id
        && next.last_observation.nonce == a.nonce
      then record c { broadcast_permit = some a.attempt_id }
      else c
]

module _ (viem : Viem) where
  unfoldable pub save_inclusions :
      InclusionsEnvironment
      → TransactionJournalSnapshot
      → InspectedInclusions
      → InspectionOwner
      → Coordinator
      → InclusionsMethod
  save_inclusions env next i owner c =
      let (saved, p) = save viem env.outcome next c.persistence in
      let writing = record c { pending_write = some observation; persistence = p } in
      elim saved as (λ _. InclusionsMethod) [
        | err e ↦ inclusions_failed env.now (persistence_error e) writing
        | ok _ ↦
            let finished =
              finish_write env.now observation
                (record writing { inclusion_checks_complete = i.inclusion_checks_complete }) in
            (
              ok (inspected i),
              settled env.now (close_bracket owner (grant_after_inclusions next i finished)),
            )
      ]

  -- A complete inspection: the closing check, then the write.
  unfoldable pub accept_inclusions :
      InclusionsEnvironment
      → TransactionJournalSnapshot
      → InspectedInclusions
      → InspectionOwner
      → Coordinator
      → InclusionsMethod
  accept_inclusions env s i owner c =
      elim (closing_check env owner.head_bracket) as (λ _. InclusionsMethod) [
        | check_failed ↦ inclusions_failed env.now inspection_failed c
        | changed observed ↦
            (ok (anchor_changed observed), settled env.now (reject_bracket owner c))
        | unchanged ↦
            elim (validate_journal_snapshot_structure
                (snapshot_value (inspected_snapshot c.blockers.unattributed s i))
                (identity_value c.identity))
              as (λ _. InclusionsMethod) [
                | err e ↦ inclusions_failed env.now (validation e) c
                | ok next ↦ save_inclusions env next i owner c
              ]
      ]

  abbrev incomplete :
      InclusionsEnvironment
      → InspectionOwner
      → SignerInclusionInspection
      → Coordinator
      → InclusionsMethod
  incomplete env owner result c = (ok result, settled env.now (reject_bracket owner c))

  unfoldable pub inspect_inclusions :
      InclusionsEnvironment
      → TransactionJournalSnapshot
      → InspectionOwner
      → Coordinator
      → InclusionsMethod
  inspect_inclusions env s owner c =
      if fits_bracket env owner.head_bracket
      then (elim env.inspection as (λ _. InclusionsMethod) [
        | none ↦ inclusions_failed env.now inspection_failed c
        | some (inspected i) ↦ accept_inclusions env s i owner c
        | some (anchor_changed observed) ↦ incomplete env owner (anchor_changed observed) c
        | some (nonce_behind_journal o) ↦
            incomplete env owner (nonce_behind_journal o) (record c { recovery_complete = false })
        | some (inconsistent_observations o) ↦
            incomplete env owner (inconsistent_observations o)
              (record c { recovery_complete = false })
      ])
      else inclusions_failed env.now head_mismatch c

  -- `checkInclusionsOwned`, once the wrapper has admitted it.
  unfoldable pub check_inclusions_owned :
      InclusionsEnvironment → InspectionOwner → Coordinator → InclusionsMethod
  check_inclusions_owned env owner c =
      let used = record owner { has_run_operation = true } in
      let running = record c { inspection_owner = some used } in
      elim (assert_no_pending_write running) as (λ _. InclusionsMethod) [
        | err e ↦ (err e, running)
        | ok _ ↦ elim running.persistence.current as (λ _. InclusionsMethod) [
          | missing ↦ (err uninitialized_journal, running)
          | present s ↦ inspect_inclusions env s used (record running {
            broadcast_permit = none;
            inclusion_checks_complete = false;
            busy = true;
          })
        ]
      ]

  -- `checkInclusions`
  unfoldable pub check_inclusions : InclusionsEnvironment → Coordinator → InclusionsMethod
  check_inclusions env = within_inspection env.now (check_inclusions_owned env)
