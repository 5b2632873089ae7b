-- ===== src/Coordinator/Refresh.antt =====
-- `refresh`, `finishWrite`, `emit` and the latches of apps/relayer/src/state/signer-coordinator.ts.
-- A time is an input: what `timestamp()` returns at that moment.
use drand_quicknet_evm.Base.{
  ◌==◌, ◌&&◌, Bool, true, false, Option, none, some, List, [], ◌∷◌, any, ltb, find, keep,
  if◌then◌else◌,
}
use drand_quicknet_evm.Text.{Text}
use drand_quicknet_evm.Journal.{
  BlockAnchor, block_anchors_match, JournalAttempt, is_unresolved, TransactionJournalSnapshot,
  TransactionJournalRead, missing, present,
}
use drand_quicknet_evm.Gate.{SignerBlocker, SignerGateDecision, blocker_precedence, is_empty}
use drand_quicknet_evm.Gate.Laws.{rank}
use drand_quicknet_evm.Coordinator.{
  Coordinator, PendingWrite, prepared, broadcast, resolution, search_progress, SignerEvent,
  signer_blocked, signer_gate_released, attempt_resolved, SignerEventOperation, prepare_attempt,
  broadcast_attempt, reconcile_attempt,
}
use drand_quicknet_evm.Coordinator.Durable.{durable_recovery_revision}
use drand_quicknet_evm.Coordinator.Gates.{status, is_none}

-- `emit`: the log keeps the signed bytes of the attempt log out of what it prints. The flag `emitting`
-- is set while the log runs, and is clear again before and after.
unfoldable pub emit : SignerEvent → SignerEventOperation → Coordinator → Coordinator
emit event operation c = record c {
  emitting = false;
  emissions =
      record { event = event; operation = operation; protected = c.attempt_log } ∷ c.emissions;
}

abbrev pub same_reason : SignerBlocker → SignerBlocker → Bool
same_reason a b = rank a == rank b

-- The two lists of blockers have the same length and entries.
abbrev pub same_reasons : List SignerBlocker → List SignerBlocker → Bool
same_reasons [] [] = true
same_reasons (a ∷ xs) (b ∷ ys) = same_reason a b && same_reasons xs ys
same_reasons _ _ = false

-- `since ?? now`
abbrev pub or_now : Option Text → Text → Text
or_now none now = now
or_now (some since) now = since

abbrev pub add_reasons : List SignerBlocker → List SignerBlocker → List SignerBlocker
add_reasons reasons [] = reasons
add_reasons reasons (b ∷ bs) =
    let rest = add_reasons reasons bs in if any (same_reason b) rest then rest else b ∷ rest

-- What a refresh does about the blockers of its decision.
unfoldable pub report_blocked :
    SignerGateDecision → Text → SignerEventOperation → Coordinator → Coordinator
report_blocked s now operation c =
    if is_empty s.blockers
    then record c { previous_blockers = s.blockers }
    else (let marked = record c {
      blocked_since = some (or_now c.blocked_since now);
      episode_reasons = add_reasons c.episode_reasons s.blockers;
    } in
        let reported =
          if same_reasons s.blockers c.previous_blockers
          then marked
          else emit (signer_blocked s.primary_reason s.blockers (or_now c.blocked_since now))
              operation marked in
        record reported { previous_blockers = s.blockers })

-- What it does about an open gate: the episode ends, and then the attempt log is dropped when no
-- attempt is retained.
unfoldable pub report_released :
    SignerGateDecision → SignerEventOperation → Coordinator → Coordinator
report_released s operation c =
    if s.is_open
    then (elim c.blocked_since [
      | none ↦ c
      | some since ↦
          record (emit
            (signer_gate_released
              (keep (λ b. any (same_reason b) c.episode_reasons) blocker_precedence) since)
            operation c) { blocked_since = none; episode_reasons = [] }
    ])
    else c

abbrev pub has_no_attempt : TransactionJournalRead → Bool
has_no_attempt missing = false
has_no_attempt (present s) = elim s.attempts [ [] ↦ true | _ ↦ false ]

unfoldable pub drop_attempt_log : SignerGateDecision → Coordinator → Coordinator
drop_attempt_log s c =
    if s.is_open && is_none c.pending_write && has_no_attempt c.persistence.current
    then record c { attempt_log = none }
    else c

-- `refresh`
unfoldable pub refresh : Text → SignerEventOperation → Coordinator → Coordinator
refresh now operation c =
    let s = status c in
    if c.reconciliation_observation_active
    then c
    else drop_attempt_log s (report_released s operation (report_blocked s now operation c))

-- `latchUnattributedActivity`
unfoldable pub latch_unattributed_activity : Coordinator → Coordinator
latch_unattributed_activity c = elim c.persistence.current [
  | missing ↦ c
  | present s ↦
      if ltb s.next_nonce s.last_observation.nonce
      then record c { blockers = record (c.blockers) { unattributed = true } }
      else c
]

abbrev pub searched_to : JournalAttempt → Option BlockAnchor
searched_to a = elim a.replacement_search [ none ↦ none | some search ↦ search.searched_through ]

-- The oldest unresolved attempt has lost its nonce and its search has reached the observed block.
abbrev pub is_exhausted : TransactionJournalSnapshot → Bool
is_exhausted s = elim (find is_unresolved s.attempts) [
  | none ↦ false
  | some a ↦ elim (searched_to a) [
    | none ↦ false
    | some through ↦
        ltb a.nonce s.last_observation.nonce
        && block_anchors_match through s.last_observation.anchor
  ]
]

-- `latchExhaustedSearch`
unfoldable pub latch_exhausted_search : Coordinator → Coordinator
latch_exhausted_search c = elim c.persistence.current [
  | missing ↦ c
  | present s ↦
      if is_exhausted s then record c { blockers = record (c.blockers) { exhausted = true } } else c
]

-- `updateDurableRecoveryRevision`
unfoldable pub update_durable_recovery_revision : Coordinator → Coordinator
update_durable_recovery_revision c = record c {
  committed_durable_recovery_revision = durable_recovery_revision c.persistence.current c.blockers;
}

abbrev pub operation_of : PendingWrite → SignerEventOperation
operation_of prepared = prepare_attempt
operation_of broadcast = broadcast_attempt
operation_of _ = reconcile_attempt

abbrev set_exhausted : Bool → Coordinator → Coordinator
set_exhausted b c = record c { blockers = record (c.blockers) { exhausted = b } }

-- What a write has established, by its kind.
unfoldable pub settle : PendingWrite → Coordinator → Coordinator
settle (resolution event) c =
    emit (attempt_resolved event) reconcile_attempt (set_exhausted false c)
settle (search_progress exhausted) c = set_exhausted exhausted c
settle _ c = c

-- `finishWrite`, for the write that was pending.
unfoldable pub finish_write : Text → PendingWrite → Coordinator → Coordinator
finish_write now pending c = refresh now (operation_of pending) (
    update_durable_recovery_revision (
      latch_exhausted_search (
        latch_unattributed_activity
          (record (settle pending c) { pending_write = none; busy = false }))))
