-- ===== src/Journal/Validation/Structure.antt =====
-- The readers of a repair and an attempt, and `validateJournalSnapshotStructure` itself:
-- apps/relayer/src/state/transaction-journal-validation.ts.
use drand_quicknet_evm.Base.{
  ℕ, suc, ◌-◌, ◌==◌, ◌&&◌, Bool, false, List, [], ◌∷◌, ltb, leb, ok, err, ◌>>=◌, ◌>>◌, or_throw,
  length,
}
use drand_quicknet_evm.Text.{codes, text_eq, same, is_uuid_v4, is_work_id}
use drand_quicknet_evm.Journal.{
  JournalIdentity, AnchoredNonceObservation, JournalNonceRepair, JournalSignedTransaction,
  JournalAttempt, TransactionJournalSnapshot, max_retained_nonce_repairs,
}
use drand_quicknet_evm.Journal.Value.{
  Value, Items, nil, cons, hole, num, arr, field, invalid_snapshot, invalid_repairs,
  is_non_negative_safe_integer,
}
use drand_quicknet_evm.Journal.Check.{
  Checked, valid, valid_repair, repair_order, last_repair_below, attempts_in_order,
}
use drand_quicknet_evm.Journal.Validation.{
  read_text, read_uint, read_items, read_array, read_identity, read_observation, read_timestamp,
  read_signed_transaction, read_search_or_null, read_phase,
}

-- `requireValid(transactions.length > 0)`
abbrev pub non_empty :
    List JournalSignedTransaction
    → Checked (JournalSignedTransaction × List JournalSignedTransaction)
non_empty [] = err invalid_snapshot
non_empty (tx ∷ txs) = ok (tx, txs)

-- The signed transactions: an array with an entry or more.
unfoldable pub read_transactions :
    Value → Checked (JournalSignedTransaction × List JournalSignedTransaction)
read_transactions input = do non_empty (← read_array read_signed_transaction input)

unfoldable pub read_attempt : Value → Checked JournalAttempt
read_attempt input = do
  raw_id ← field input "attemptId"
  raw_work ← field input "workId"
  nonce ← read_uint (← field input "nonce")
  raw_created ← field input "createdAt"
  raw_phase ← field input "phase"
  attempt_id ← read_text raw_id
  valid (is_uuid_v4 attempt_id)
  work_id ← read_text raw_work
  valid (is_work_id work_id)
  created_at ← read_timestamp raw_created
  (first, more) ← read_transactions (← field input "signedTransactions")
  search ← read_search_or_null nonce (← field input "replacementSearch")
  raw_inclusion ← field input "inclusion"
  name ← read_text raw_phase
  phase ← read_phase name raw_inclusion nonce (first ∷ more)
  ok (record {
    attempt_id = attempt_id;
    work_id = work_id;
    nonce = nonce;
    created_at = created_at;
    first_transaction = first;
    replacements = more;
    replacement_search = search;
    phase = phase;
  })

unfoldable pub read_repair : Value → Checked JournalNonceRepair
read_repair input = do
  kind ← read_text (← field input "kind")
  valid_repair (text_eq kind (codes "sync-nonce"))
  time ← read_timestamp (← field input "at")
  previous ← read_uint (← field input "previousNextNonce")
  next ← read_uint (← field input "nextNonce")
  observation ← read_observation (← field input "observation")
  valid_repair (ltb previous next)
  valid_repair (observation.nonce == next)
  ok (record {
    time = time;
    previous_next_nonce = previous;
    next_nonce = next;
    observation = observation;
  })

-- An array's own `length`.
abbrev pub items_length : Items → ℕ
items_length nil = 0
items_length (cons _ rest) = suc (items_length rest)
items_length (hole rest) = suc (items_length rest)

-- At most eight repairs: tested on the array's length, before any of them is read.
abbrev pub bounded_repairs : Value → Checked (List JournalNonceRepair)
bounded_repairs (arr items) = do
  valid_repair (
      is_non_negative_safe_integer (num (items_length items))
      && leb (items_length items) max_retained_nonce_repairs)
  read_items read_repair items
bounded_repairs _ = err invalid_repairs

-- Whatever fails inside is reported as an invalid repair.
unfoldable pub read_repairs : Value → Checked (List JournalNonceRepair)
read_repairs input = or_throw (bounded_repairs input) invalid_repairs

abbrev pub is_one : Value → Bool
is_one (num n) = n == 1
is_one _ = false

-- The journal's identity, which must be the expected one.
unfoldable pub read_owner : Value → Value → Checked JournalIdentity
read_owner input expected_identity = do
  expected ← read_identity expected_identity
  identity ← read_identity (← field input "identity")
  version ← field input "version"
  valid (is_one version)
  valid (identity.chain_id == expected.chain_id)
  valid (same identity.signer expected.signer)
  ok identity

-- The two observations, and the two nonce counters in order.
pub record Counters : Type 0 where
  pub baseline : AnchoredNonceObservation
  pub last_observation : AnchoredNonceObservation
  pub next_nonce : ℕ
  pub durable_next_nonce : ℕ

unfoldable pub read_counters : Value → Checked Counters
read_counters input = do
  baseline ← read_observation (← field input "baseline")
  last_observation ← read_observation (← field input "lastObservation")
  next_nonce ← read_uint (← field input "nextNonce")
  durable_next_nonce ← read_uint (← field input "durableNextNonce")
  valid (leb baseline.nonce durable_next_nonce)
  valid (leb durable_next_nonce next_nonce)
  ok (record {
    baseline = baseline;
    last_observation = last_observation;
    next_nonce = next_nonce;
    durable_next_nonce = durable_next_nonce;
  })

-- The repairs, in order and behind the durable counter.
unfoldable pub read_history : Value → ℕ → Checked (List JournalNonceRepair)
read_history input durable_next_nonce = do
  repairs ← read_repairs (← field input "repairs")
  valid_repair (repair_order repairs)
  valid_repair (last_repair_below repairs durable_next_nonce)
  ok repairs

-- The attempts between the two counters.
unfoldable pub read_queue : Value → ℕ → ℕ → Checked (List JournalAttempt)
read_queue input next_nonce durable_next_nonce = do
  attempts ← read_array read_attempt (← field input "attempts")
  valid (length attempts == next_nonce - durable_next_nonce)
  valid (attempts_in_order durable_next_nonce [] [] [] attempts)
  ok attempts

unfoldable pub validate_journal_snapshot_structure :
    Value → Value → Checked TransactionJournalSnapshot
validate_journal_snapshot_structure input expected_identity = do
  identity ← read_owner input expected_identity
  c ← read_counters input
  repairs ← read_history input c.durable_next_nonce
  attempts ← read_queue input c.next_nonce c.durable_next_nonce
  ok (record {
    identity = identity;
    baseline = c.baseline;
    last_observation = c.last_observation;
    next_nonce = c.next_nonce;
    durable_next_nonce = c.durable_next_nonce;
    repairs = repairs;
    attempts = attempts;
  })
