-- ===== src/Coordinator/Durable.antt =====
-- apps/relayer/src/state/durable-recovery-revision.ts: what of the committed journal bears on
-- durable recovery. The program compares its JSON text; here it is the content that is printed.
use drand_quicknet_evm.Base.{Bool, false, Option, none, some, map, keep}
use drand_quicknet_evm.Text.{lower}
use drand_quicknet_evm.Journal.{
  BlockAnchor, ReplacementSearch, JournalInclusionObservation, InclusionOutcome, success, reverted,
  replaced, Phase, signed, broadcast_may_have_occurred, included, JournalAttempt,
  signed_transactions, TransactionJournalRead, missing, present,
}
use drand_quicknet_evm.Gate.{
  SignerBlocker, unattributed_signer_activity, conflict_search_exhausted, CoordinatorBlockers,
  blocker_precedence,
}
use drand_quicknet_evm.Coordinator.{RevisedAttempt, Revision, missing_journal, present_journal}

abbrev project_anchor : BlockAnchor → BlockAnchor
project_anchor a = record a { block_hash = lower a.block_hash }

abbrev project_outcome : InclusionOutcome → InclusionOutcome
project_outcome (success hash) = success (lower hash)
project_outcome (reverted hash) = reverted (lower hash)
project_outcome (replaced hash nonce) = replaced (lower hash) nonce

-- The block where an inclusion was observed is left out: it stands for the block itself.
abbrev project_inclusion : JournalInclusionObservation → JournalInclusionObservation
project_inclusion i = record {
  inclusion = project_anchor i.inclusion;
  observed_at = project_anchor i.inclusion;
  outcome = project_outcome i.outcome;
}

abbrev project_phase : Phase → Phase
project_phase (included i) = included (project_inclusion i)
project_phase signed = signed
project_phase broadcast_may_have_occurred = broadcast_may_have_occurred

abbrev project_search : Option ReplacementSearch → Option ReplacementSearch
project_search none = none
project_search (some s) = some (record {
  lower_bound = record (s.lower_bound) { anchor = project_anchor s.lower_bound.anchor };
  searched_through = elim s.searched_through [
    | none ↦ none
    | some through ↦ some (project_anchor through)
  ];
})

abbrev project_attempt : JournalAttempt → RevisedAttempt
project_attempt a = record {
  attempt_id = a.attempt_id;
  nonce = a.nonce;
  phase = project_phase a.phase;
  transaction_hashes = map (λ tx. lower tx.transaction_hash) (signed_transactions a);
  replacement_search = project_search a.replacement_search;
}

abbrev is_persistent : CoordinatorBlockers → SignerBlocker → Bool
is_persistent bs unattributed_signer_activity = bs.unattributed
is_persistent bs conflict_search_exhausted = bs.exhausted
is_persistent bs _ = false

unfoldable pub durable_recovery_revision : TransactionJournalRead → CoordinatorBlockers → Revision
durable_recovery_revision missing bs = missing_journal (keep (is_persistent bs) blocker_precedence)
durable_recovery_revision (present s) bs =
    present_journal s.next_nonce s.durable_next_nonce (map project_attempt s.attempts)
      (keep (is_persistent bs) blocker_precedence)
