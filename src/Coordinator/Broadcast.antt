-- ===== src/Coordinator/Broadcast.antt =====
-- `broadcastAttempt` of apps/relayer/src/state/signer-coordinator.ts.
use drand_quicknet_evm.Base.{
  ℕ, Bool, true, false, Option, none, some, List, [], ◌∷◌, Result, ok, err, ◌>>=◌, ◌>>◌, require,
  find, if◌then◌else◌,
}
use drand_quicknet_evm.Text.{Text, text_eq, same, is_fixed_hex}
use drand_quicknet_evm.Journal.{
  JournalSignedTransaction, JournalAttempt, Phase, signed, broadcast_may_have_occurred,
  is_unresolved, TransactionJournalSnapshot,
}
use drand_quicknet_evm.Journal.Verification.{Viem}
use drand_quicknet_evm.Persistence.{SaveOutcome, is_idle, save}
use drand_quicknet_evm.Coordinator.{
  Coordinator, CoordinatorError, Method, broadcast, not_recorded, reconciliation_required,
  persistence_error, broadcast_attempt, NotAcknowledgedObservation, request_error, invalid_response,
  hash_mismatch, attempt_broadcast_accepted, attempt_broadcast_not_acknowledged,
}
use drand_quicknet_evm.Coordinator.Gates.{assert_available, assert_no_pending_write, can_broadcast}
use drand_quicknet_evm.Coordinator.Refresh.{refresh, emit}
use drand_quicknet_evm.Coordinator.Prepare.{journal_of}

-- What `eth_sendRawTransaction` answers: it throws, or returns some value, which may be a string.
pub data RpcReply : Type 0 where
  threw other_value : RpcReply
  returned : Text → RpcReply

pub data BroadcastAttemptResult : Type 0 where
  acknowledged not_acknowledged : Text → Text → ℕ → BroadcastAttemptResult

pub record BroadcastEnvironment : Type 0 where
  pub outcome : SaveOutcome
  pub reply : RpcReply
  pub now : Text

-- The latest signed transaction of an attempt.
abbrev pub last_transaction :
    JournalSignedTransaction → List JournalSignedTransaction → JournalSignedTransaction
last_transaction tx [] = tx
last_transaction tx (next ∷ rest) = last_transaction next rest

abbrev pub latest_transaction : JournalAttempt → JournalSignedTransaction
latest_transaction a = last_transaction a.first_transaction a.replacements

-- The attempts with the oldest unresolved one marked.
abbrev pub mark_oldest : List JournalAttempt → List JournalAttempt
mark_oldest [] = []
mark_oldest (a ∷ rest) =
    let others = mark_oldest rest in
    if is_unresolved a then record a { phase = broadcast_may_have_occurred } ∷ rest else a ∷ others

abbrev pub marked : TransactionJournalSnapshot → TransactionJournalSnapshot
marked s = record s { attempts = mark_oldest s.attempts }

abbrev pub is_signed : Phase → Bool
is_signed signed = true
is_signed _ = false

abbrev oldest_with : Text → Option JournalAttempt → Result CoordinatorError JournalAttempt
oldest_with id none = err not_recorded
oldest_with id (some a) = if text_eq id a.attempt_id then ok a else err not_recorded

unfoldable pub broadcast_guard :
    Text → Coordinator → Result CoordinatorError (TransactionJournalSnapshot × JournalAttempt)
broadcast_guard id c = do
  assert_available c
  assert_no_pending_write c
  s ← journal_of c.persistence.current not_recorded
  a ← oldest_with id (find is_unresolved s.attempts)
  require (can_broadcast c) reconciliation_required
  ok (s, a)

abbrev pub with_result :
    JournalAttempt → (Text → Text → ℕ → BroadcastAttemptResult) → BroadcastAttemptResult
with_result a result = result a.attempt_id (latest_transaction a).transaction_hash a.nonce

abbrev refused :
    NotAcknowledgedObservation → JournalAttempt → Coordinator → BroadcastAttemptResult × Coordinator
refused observation a c = (
  with_result a not_acknowledged,
  emit
      (attempt_broadcast_not_acknowledged a.attempt_id (latest_transaction a).transaction_hash
        a.nonce observation)
      broadcast_attempt c,
)

-- What becomes of the node's reply. None of it is an error.
unfoldable pub receive_reply :
    RpcReply → JournalAttempt → Coordinator → BroadcastAttemptResult × Coordinator
receive_reply threw a c = refused request_error a c
receive_reply other_value a c = refused invalid_response a c
receive_reply (returned hash) a c =
    if is_fixed_hex hash 32
    then (if same hash (latest_transaction a).transaction_hash
        then (
          with_result a acknowledged,
          emit
              (attempt_broadcast_accepted a.attempt_id (latest_transaction a).transaction_hash
                a.nonce)
              broadcast_attempt c,
        )
        else refused hash_mismatch a c)
    else refused invalid_response a c

-- The permit is used up, and with it every authorization.
abbrev pub consumed : Coordinator → Coordinator
consumed c = record c {
  broadcast_permit = none;
  recovery_complete = false;
  inclusion_checks_complete = false;
  busy = true;
}

unfoldable pub send :
    BroadcastEnvironment → JournalAttempt → Coordinator → Method BroadcastAttemptResult
send env a c =
    let (result, c') = receive_reply env.reply a c in
    (ok result, refresh env.now broadcast_attempt (record c' { busy = false }))

unfoldable pub broadcast_failed :
    Text → CoordinatorError → Coordinator → Method BroadcastAttemptResult
broadcast_failed now e c =
    let kept = if is_idle c.persistence.state then record c { pending_write = none } else c in
    (err e, refresh now broadcast_attempt (record kept { busy = false }))

module _ (viem : Viem) where
  -- The mark is saved before the transaction is sent, and only for an attempt that has none.
  unfoldable pub mark_and_send :
      BroadcastEnvironment
      → TransactionJournalSnapshot
      → JournalAttempt
      → Coordinator
      → Method BroadcastAttemptResult
  mark_and_send env s a c =
      if is_signed a.phase
      then (let (saved, p) = save viem env.outcome (marked s) c.persistence in
          let writing = record c { pending_write = some broadcast; persistence = p } in
          elim saved as (λ _. Method BroadcastAttemptResult) [
            | err e ↦ broadcast_failed env.now (persistence_error e) writing
            | ok _ ↦ send env a (record writing { pending_write = none })
          ])
      else send env a c

  -- `broadcastAttempt`
  unfoldable pub broadcast_oldest :
      Text → BroadcastEnvironment → Coordinator → Method BroadcastAttemptResult
  broadcast_oldest id env c = elim (broadcast_guard id c) as (λ _. Method BroadcastAttemptResult) [
    | err e ↦ (err e, c)
    | ok found ↦ mark_and_send env found.0 found.1 (consumed c)
  ]
