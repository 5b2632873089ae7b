-- ===== src/Coordinator/Prepare.antt =====
-- `prepareAttempt` of apps/relayer/src/state/signer-coordinator.ts.
use drand_quicknet_evm.Base.{
  ℕ, ◌+◌, Bool, true, false, Option, none, some, [], ◌∷◌, ◌++◌, Result, ok, err, ◌>>=◌, ◌>>◌,
  require, find, if◌then◌else◌,
}
use drand_quicknet_evm.Text.{Text, text_eq, is_work_id}
use drand_quicknet_evm.Journal.{
  JournalSignedTransaction, JournalAttempt, signed, TransactionJournalSnapshot,
  TransactionJournalRead, missing, present, all_signed,
}
use drand_quicknet_evm.Journal.Value.{snapshot_value, identity_value}
use drand_quicknet_evm.Journal.Validation.Structure.{validate_journal_snapshot_structure}
use drand_quicknet_evm.Journal.Verification.{Viem}
use drand_quicknet_evm.Persistence.{SaveOutcome, is_idle, save}
use drand_quicknet_evm.Coordinator.{
  Coordinator, CoordinatorError, Method, prepared, gate_closed, invalid_work_identity,
  signing_failed, diagnostics_failed, validation, persistence_error, prepare_attempt,
}
use drand_quicknet_evm.Coordinator.Gates.{assert_available, assert_no_pending_write, status}
use drand_quicknet_evm.Coordinator.Refresh.{refresh, finish_write, or_now}

pub data PrepareAttemptResult : Type 0 where
  already_retained : Text → Text → PrepareAttemptResult
  prepared_attempt : Text → Text → ℕ → PrepareAttemptResult

-- What a preparation reads from outside: a fresh UUID and the time, the transaction that
-- `signPreparedTransaction` returns for a nonce, whether the log accepts the summary, how the save
-- ends, and the time afterwards.
pub record PrepareEnvironment : Type 0 where
  pub attempt_id : Text
  pub created_at : Text
  pub sign : ℕ → Option JournalSignedTransaction
  pub has_summary : Bool
  pub outcome : SaveOutcome
  pub now : Text

abbrev pub journal_of :
    TransactionJournalRead → CoordinatorError → Result CoordinatorError TransactionJournalSnapshot
journal_of missing e = err e
journal_of (present s) e = ok s

unfoldable pub prepare_guard :
    Text → Coordinator → Result CoordinatorError TransactionJournalSnapshot
prepare_guard work_id c = do
  assert_available c
  assert_no_pending_write c
  require (status c).is_open gate_closed
  s ← journal_of c.persistence.current gate_closed
  require (is_work_id work_id) invalid_work_identity
  ok s

abbrev pub new_attempt :
    Text
    → PrepareEnvironment
    → JournalSignedTransaction
    → TransactionJournalSnapshot
    → JournalAttempt
new_attempt work_id env tx s = record {
  attempt_id = env.attempt_id;
  work_id = work_id;
  nonce = s.next_nonce;
  created_at = env.created_at;
  first_transaction = tx;
  replacements = [];
  replacement_search = some (record { lower_bound = s.last_observation; searched_through = none });
  phase = signed;
}

abbrev pub with_attempt : JournalAttempt → TransactionJournalSnapshot → TransactionJournalSnapshot
with_attempt a s = record s { next_nonce = s.next_nonce + 1; attempts = s.attempts ++ (a ∷ []) }

-- The failure of a preparation: nothing is left of it, unless its write may still be retried.
unfoldable pub prepare_failed :
    Text → Coordinator → CoordinatorError → Coordinator → Method PrepareAttemptResult
prepare_failed now previous e c =
    let restored =
      if is_idle c.persistence.state
      then record c {
        pending_write = none;
        attempt_log = previous.attempt_log;
        blocked_since = previous.blocked_since;
        inclusion_checks_complete = previous.inclusion_checks_complete;
      }
      else record c { recovery_complete = false; inclusion_checks_complete = false } in
    (err e, refresh now prepare_attempt (record restored { busy = false }))

module _ (viem : Viem) where
  -- The save of a prepared attempt.
  unfoldable pub save_prepared :
      PrepareEnvironment
      → JournalSignedTransaction
      → ℕ
      → Coordinator
      → TransactionJournalSnapshot
      → Coordinator
      → Method PrepareAttemptResult
  save_prepared env tx nonce previous next c =
      let writing = record c {
        blocked_since = some (or_now c.blocked_since env.created_at);
        inclusion_checks_complete = false;
        pending_write = some prepared;
      } in
      let (saved, p) = save viem env.outcome next writing.persistence in
      elim saved as (λ _. Method PrepareAttemptResult) [
        | err e ↦
            prepare_failed env.now previous (persistence_error e)
              (record writing { persistence = p })
        | ok _ ↦
            let finished = finish_write env.now prepared (record writing { persistence = p }) in
            (
              ok (prepared_attempt env.attempt_id tx.transaction_hash nonce),
              refresh env.now prepare_attempt
                  (record finished { broadcast_permit = some env.attempt_id; busy = false }),
            )
      ]

  -- The preparation of an attempt for work that has none.
  unfoldable pub allocate :
      Text
      → PrepareEnvironment
      → TransactionJournalSnapshot
      → Coordinator
      → Method PrepareAttemptResult
  allocate work_id env s previous =
      let started = record previous { broadcast_permit = none; busy = true } in
      elim (env.sign s.next_nonce) as (λ _. Method PrepareAttemptResult) [
        | none ↦ prepare_failed env.now previous signing_failed started
        | some tx ↦
            if env.has_summary
            then (let protected = record started {
              attempt_log = some (all_signed s.attempts ++ (tx.signed_transaction ∷ []));
            } in
                elim (validate_journal_snapshot_structure
                    (snapshot_value (with_attempt (new_attempt work_id env tx s) s))
                    (identity_value previous.identity))
                  as (λ _. Method PrepareAttemptResult) [
                    | err e ↦ prepare_failed env.now previous (validation e) protected
                    | ok next ↦ save_prepared env tx s.next_nonce previous next protected
                  ])
            else prepare_failed env.now previous diagnostics_failed started
      ]

  -- `prepareAttempt`
  unfoldable pub prepare : Text → PrepareEnvironment → Coordinator → Method PrepareAttemptResult
  prepare work_id env c = elim (prepare_guard work_id c) as (λ _. Method PrepareAttemptResult) [
    | err e ↦ (err e, c)
    | ok s ↦
        elim (find (λ a. text_eq a.work_id work_id) s.attempts)
          as (λ _. Method PrepareAttemptResult) [
            | some retained ↦ (ok (already_retained retained.attempt_id work_id), c)
            | none ↦ allocate work_id env s c
          ]
  ]
