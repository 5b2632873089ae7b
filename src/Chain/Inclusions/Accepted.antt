-- ===== src/Chain/Inclusions/Accepted.antt =====
-- An inspection of the retained attempts and the coordinator that applies it,
-- apps/relayer/src/chain/inspect-signer-inclusions.ts with `checkInclusionsOwned` of
-- state/signer-coordinator.ts.
use drand_quicknet_evm.Base.{
  ℕ, ◌≡◌, ◌==◌, ◌&&◌, inl, inr, Bool, Option, none, some, arith, ok, ltb, find, Bool-cases,
  Option-cases,
}
use drand_quicknet_evm.Text.{Text}
use drand_quicknet_evm.Journal.{BlockAnchor, is_unresolved, TransactionJournalSnapshot}
use drand_quicknet_evm.Journal.Value.{snapshot_value, identity_value}
use drand_quicknet_evm.Journal.Snapshot.{IsJournal, observed-IsJournal}
use drand_quicknet_evm.Journal.Validation.Structure.{validate_journal_snapshot_structure}
use drand_quicknet_evm.Journal.Validation.Laws.{validate-snapshot_value}
use drand_quicknet_evm.Coordinator.{Coordinator}
use drand_quicknet_evm.Coordinator.Gates.{permits, no_blockers}
use drand_quicknet_evm.Coordinator.Guards.{permits_lem}
use drand_quicknet_evm.Coordinator.Inclusions.{
  InspectedInclusions, SignerInclusionInspection, inspected_snapshot, grant_after_inclusions,
}
use drand_quicknet_evm.Chain.{Client}
use drand_quicknet_evm.Chain.Inclusions.Pass.{inspect_signer_inclusions}
use drand_quicknet_evm.Chain.Inclusions.Inspected.{
  IsOldestOpen, IsInspected, inspect_signer_inclusions-IsInspected,
}

inspected_snapshot-IsJournal :
    (client : Client) (s : TransactionJournalSnapshot) (head : BlockAnchor)
    (i : InspectedInclusions) (unattributed : Bool)
    → IsJournal s.identity s
    → IsInspected client s head i
    → IsJournal s.identity (inspected_snapshot unattributed s i)
inspected_snapshot-IsJournal client s head i unattributed j r =
    elim (Bool-cases (unattributed && ltb i.observation.nonce s.last_observation.nonce)) [
      | inl e ↦
          rw (e, inspected_snapshot)
            (observed-IsJournal s.identity _ s.last_observation j.readable_last r.is_journal)
      | inr e ↦ rw (e, inspected_snapshot) r.is_journal
    ]

grant_after_inclusions-permits :
    (next : TransactionJournalSnapshot) (i : InspectedInclusions) (c : Coordinator) (id : Text)
    → c.broadcast_permit ≡ none
    → (grant_after_inclusions next i c).broadcast_permit ≡ some id
    → i.broadcast_attempt_id ≡ some id
unfolding grant_after_inclusions
grant_after_inclusions-permits next i c id closed h =
    elim (Option-cases (find is_unresolved next.attempts)) [
      | inl e ↦ absurd (ground (arith, closed, e))
      | inr (a, e) ↦
          elim (Bool-cases (
            c.recovery_complete
            && no_blockers c.blockers
            && permits i.broadcast_attempt_id a.attempt_id
            && next.last_observation.nonce == a.nonce)) [
              | inr refused ↦ absurd (ground (arith, closed, e, refused))
              | inl given ↦
                  let permitted =
                    permits_lem i.broadcast_attempt_id a.attempt_id (ground (arith, given)) in
                  ground (arith, e, given, permitted)
            ]
    ]

-- Whatever the node answers, the coordinator accepts what a completed inspection of its well-formed
-- journal returns: the journal that it makes of it passes its validation, also when it keeps a later
-- observation. And a permit that it grants then, having none, is for the first attempt that is not
-- included, whose nonce is the next one at the head, of which no receipt was found there, and before
-- which every attempt was seen at the head.
pub validate-inspect_signer_inclusions :
    (client : Client) (moment : ℕ) (checks : Bool) (s : TransactionJournalSnapshot)
    (head : BlockAnchor) (range : Option ℕ) (i : InspectedInclusions) (c : Coordinator)
    → IsJournal s.identity s
    → inspect_signer_inclusions client moment checks s head range
      ≡ ok (SignerInclusionInspection.inspected i)
    → c.broadcast_permit ≡ none
    → (validate_journal_snapshot_structure
          (snapshot_value (inspected_snapshot c.blockers.unattributed s i))
          (identity_value s.identity)
        ≡ ok (inspected_snapshot c.blockers.unattributed s i))
      × ((id : Text)
          → (grant_after_inclusions
              (inspected_snapshot c.blockers.unattributed s i)
              i
              c).broadcast_permit
            ≡ some id
          → IsOldestOpen client s head i.observation id i.attempts)
validate-inspect_signer_inclusions client moment checks s head range i c j h closed =
    let r = inspect_signer_inclusions-IsInspected client moment checks s head range i j h in
    let next = inspected_snapshot c.blockers.unattributed s i in
    (
      validate-snapshot_value s.identity next
          (inspected_snapshot-IsJournal client s head i c.blockers.unattributed j r),
      λ id granted. r.is_permitted id (grant_after_inclusions-permits next i c id closed granted),
    )
