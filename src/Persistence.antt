-- ===== src/Persistence.antt =====
-- apps/relayer/src/state/journal-persistence.ts: the state that the coordinator keeps about the
-- journal's storage. A save waits for the store, whose answer is an input. The file behind it is
-- `disk`: a save that is refused may or may not have replaced it.
pub mod Laws
use drand_quicknet_evm.Base.{
  Bool, true, false, Option, none, some, List, Result, ok, err, ◌>>=◌, find, if◌then◌else◌,
}
use drand_quicknet_evm.Text.{Text, text_eq}
use drand_quicknet_evm.Text.{is_fixed_hex}
use drand_quicknet_evm.Journal.{
  JournalIdentity, JournalAttempt, TransactionJournalSnapshot, TransactionJournalRead, missing,
  present,
}
use drand_quicknet_evm.Journal.Value.{snapshot_value}
use drand_quicknet_evm.Journal.Check.{is_identity}
use drand_quicknet_evm.Journal.Verification.{Viem, verify_journal_snapshot}

pub data PersistenceState : Type 0 where
  idle writing failed : PersistenceState

pub record JournalPersistence : Type 0 where
  pub identity : JournalIdentity
  pub state : PersistenceState
  pub current : TransactionJournalRead
  pub pending : Option TransactionJournalSnapshot
  pub disk : TransactionJournalRead

pub data PersistenceError : Type 0 where
  invalid_identity invalid_initial not_ready invalid_snapshot did_not_complete : PersistenceError
  nothing_to_retry : PersistenceError

-- How `store.save` ends: it resolves once the snapshot is durable, or rejects.
pub data SaveOutcome : Type 0 where
  resolved : SaveOutcome
  rejected_unwritten : SaveOutcome
  rejected_written : SaveOutcome

-- What `store.save` leaves in the file.
abbrev pub stored :
    SaveOutcome → TransactionJournalSnapshot → TransactionJournalRead → TransactionJournalRead
stored rejected_unwritten snapshot disk = disk
stored _ snapshot disk = present snapshot

abbrev pub is_idle : PersistenceState → Bool
is_idle idle = true
is_idle _ = false

abbrev pub is_failed : PersistenceState → Bool
is_failed failed = true
is_failed _ = false

-- A call's result, with the state that it leaves.
abbrev pub Call : Type 0 → Type 0
Call A = Result PersistenceError A × JournalPersistence

-- `persistPending`
unfoldable pub persist_pending :
    SaveOutcome → TransactionJournalSnapshot → JournalPersistence → Call (Unit {0})
persist_pending resolved snapshot p = (
  ok tt,
  record p {
    current = present snapshot;
    pending = none;
    state = idle;
    disk = stored resolved snapshot p.disk;
  },
)
persist_pending outcome snapshot p =
    (err did_not_complete, record p { state = failed; disk = stored outcome snapshot p.disk })

-- `retry`
unfoldable pub retry : SaveOutcome → JournalPersistence → Call (Unit {0})
unfolding persist_pending
retry outcome p = elim p.pending [
  | none ↦ (err nothing_to_retry, p)
  | some snapshot ↦
      if is_failed p.state
      then persist_pending outcome snapshot (record p { state = writing })
      else (err nothing_to_retry, p)
]

-- `failedWriteAttemptIdentity`: the attempt of this work in the snapshot of a failed write.
unfoldable pub failed_write_attempt_identity : Text → JournalPersistence → Option (Text × Text)
failed_write_attempt_identity work_id p =
    if is_failed p.state
    then (elim p.pending [
      | none ↦ none
      | some snapshot ↦ elim (find (λ a. text_eq a.work_id work_id) snapshot.attempts) [
        | none ↦ none
        | some a ↦ some (a.work_id, a.attempt_id)
      ]
    ])
    else none

abbrev pub opened :
    JournalIdentity → TransactionJournalRead → TransactionJournalRead → JournalPersistence
opened identity initial current = record {
  identity = identity;
  state = idle;
  current = current;
  pending = none;
  disk = initial;
}

module _ (viem : Viem) where
  -- `create`, over the file that `initial` was loaded from.
  unfoldable pub create :
      JournalIdentity → TransactionJournalRead → Result PersistenceError JournalPersistence
  create identity initial =
      if is_identity identity
      then (elim initial [
        | missing ↦ ok (opened identity missing missing)
        | present snapshot ↦
            elim (verify_journal_snapshot viem (snapshot_value snapshot) identity) [
              | err _ ↦ err invalid_initial
              | ok verified ↦ ok (opened identity (present snapshot) (present verified))
            ]
      ])
      else err invalid_identity

  -- `save`: the snapshot is verified first, and kept as pending before the store is asked.
  unfoldable pub save :
      SaveOutcome → TransactionJournalSnapshot → JournalPersistence → Call (Unit {0})
  unfolding persist_pending
  save outcome next p =
      if is_idle p.state
      then (elim (verify_journal_snapshot viem (snapshot_value next) p.identity) [
        | err _ ↦ (err invalid_snapshot, record p { state = idle })
        | ok snapshot ↦
            persist_pending outcome snapshot (record p { state = writing; pending = some snapshot })
      ])
      else (err not_ready, p)
