-- ===== src/Journal/Validation/Laws.antt =====
-- `validateJournalSnapshotStructure` as a whole: it gives back a journal of the identity unchanged,
-- and nothing else passes.
use drand_quicknet_evm.Base.{
  ◌-◌, ℕ, ◌≤◌, ◌≡◌, ◌⊎◌, ◌↔◌, true, List, arith, ==_iff, le→leb, ok, err, >>=-eq-ok, length,
}
use drand_quicknet_evm.Text.{same}
use drand_quicknet_evm.Journal.{
  JournalIdentity, JournalNonceRepair, JournalAttempt, TransactionJournalSnapshot,
  max_retained_nonce_repairs,
}
use drand_quicknet_evm.Journal.Value.{
  Value, Items, invalid_snapshot, field, identity_value, attempt_value, snapshot_value,
}
use drand_quicknet_evm.Journal.Check.{
  is_uint, is_identity, is_observation, is_repair, repair_order, last_repair_below, is_attempt,
  all_of,
}
use drand_quicknet_evm.Journal.Snapshot.{IsJournal, IsQueue, attempts_in_order-IsQueue}
use drand_quicknet_evm.Journal.Validation.{read_items, read_identity}
use drand_quicknet_evm.Journal.Validation.Structure.{
  Counters, read_attempt, read_repairs, read_owner, read_counters, read_history, read_queue,
  validate_journal_snapshot_structure,
}
use drand_quicknet_evm.Journal.Validation.Readers.{
  read_uint-bigint, read_uint-is_uint, read_identity-identity_value, read_identity-is_identity,
  read_observation-observation_value, read_observation-is_observation,
}
use drand_quicknet_evm.Journal.Validation.Attempts.{
  read_items-array, read_items-all_of, read_repairs-repairs, read_repairs-is_repair,
  read_attempt-attempt_value, read_attempt-is_attempt,
}

-- The attempts of an array.
read_attempts-is_attempt :
    (items : Items) (attempts : List JournalAttempt)
    → read_items read_attempt items ≡ ok attempts
    → all_of is_attempt attempts ≡ true
read_attempts-is_attempt items attempts h =
    read_items-all_of read_attempt is_attempt read_attempt-is_attempt items attempts h

module _ (expected : JournalIdentity) where
  -- A well-formed journal comes back as it was.
  pub validate-snapshot_value :
      (s : TransactionJournalSnapshot)
      → IsJournal expected s
      → validate_journal_snapshot_structure (snapshot_value s) (identity_value expected) ≡ ok s
  unfolding validate_journal_snapshot_structure read_owner read_counters read_history read_queue
      field
  validate-snapshot_value s j = simp (
    read_identity-identity_value expected j.readable_expected,
    read_identity-identity_value s.identity j.readable_identity,
    (==_iff s.identity.chain_id expected.chain_id).1 j.same_chain,
    j.same_signer,
    read_observation-observation_value s.baseline j.readable_baseline,
    read_observation-observation_value s.last_observation j.readable_last,
    read_uint-bigint s.next_nonce j.next_in_range,
    read_uint-bigint s.durable_next_nonce j.durable_in_range,
    le→leb s.baseline.nonce s.durable_next_nonce j.baseline_first,
    le→leb s.durable_next_nonce s.next_nonce (omega (arith, j.counted)),
    read_repairs-repairs s.repairs j.readable_repairs
        (le→leb (length s.repairs) max_retained_nonce_repairs j.few_repairs),
    j.ordered_repairs,
    j.repaired_below,
    read_items-array read_attempt attempt_value is_attempt read_attempt-attempt_value s.attempts
        j.readable_attempts,
    (==_iff (length s.attempts) (s.next_nonce - s.durable_next_nonce)).1 (omega (arith, j.counted)),
    (attempts_in_order-IsQueue s.durable_next_nonce s.attempts).1 j.queue,
  )

-- An identity is read as itself, or not at all.
read_identity-eq :
    (i : JournalIdentity)
    → (is_identity i ≡ true) × (read_identity (identity_value i) ≡ ok i)
      ⊎ (read_identity (identity_value i) ≡ err invalid_snapshot)
unfolding read_identity field
read_identity-eq i = ground arith

read_owner-eq :
    (v : Value) (expected i : JournalIdentity)
    → read_owner v (identity_value expected) ≡ ok i
    → (is_identity expected ≡ true)
      × (is_identity i ≡ true)
      × (i.chain_id ≡ expected.chain_id)
      × (same i.signer expected.signer ≡ true)
unfolding read_owner
read_owner-eq v expected i h = grind (arith, read_identity-eq expected, read_identity-is_identity)

read_counters-eq :
    (v : Value) (c : Counters)
    → read_counters v ≡ ok c
    → (is_observation c.baseline ≡ true)
      × (is_observation c.last_observation ≡ true)
      × (is_uint c.next_nonce ≡ true)
      × (is_uint c.durable_next_nonce ≡ true)
      × (c.baseline.nonce ≤ c.durable_next_nonce)
      × (c.durable_next_nonce ≤ c.next_nonce)
unfolding read_counters
read_counters-eq v c h = grind (arith, read_observation-is_observation, read_uint-is_uint)

read_history-eq :
    (v : Value) (d : ℕ) (rs : List JournalNonceRepair)
    → read_history v d ≡ ok rs
    → (length rs ≤ max_retained_nonce_repairs)
      × (all_of is_repair rs ≡ true)
      × (repair_order rs ≡ true)
      × (last_repair_below rs d ≡ true)
unfolding read_history
read_history-eq v d rs h =
    let (raw, e, h') = >>=-eq-ok (field v "repairs") _ h in
    let (repairs, e', h'') = >>=-eq-ok (read_repairs raw) _ h' in
    ground (arith, h'', read_repairs-is_repair raw repairs e')

read_queue-eq :
    (v : Value) (n d : ℕ) (queue : List JournalAttempt)
    → read_queue v n d ≡ ok queue
    → (length queue ≡ n - d) × (all_of is_attempt queue ≡ true) × IsQueue d queue
unfolding read_queue
read_queue-eq v n d queue h = grind (arith, read_attempts-is_attempt, attempts_in_order-IsQueue)

-- Whatever value is read, a snapshot that comes back is a well-formed journal.
pub validate-IsJournal :
    (expected : JournalIdentity) (v : Value) (s : TransactionJournalSnapshot)
    → validate_journal_snapshot_structure v (identity_value expected) ≡ ok s
    → IsJournal expected s
unfolding validate_journal_snapshot_structure
validate-IsJournal expected v s h =
    let (i, hi, h1) = >>=-eq-ok (read_owner v (identity_value expected)) _ h in
    let (c, hc, h2) = >>=-eq-ok (read_counters v) _ h1 in
    let (repairs, hr, h3) = >>=-eq-ok (read_history v c.durable_next_nonce) _ h2 in
    let (queue, hq, h4) = >>=-eq-ok (read_queue v c.next_nonce c.durable_next_nonce) _ h3 in
    ground (
      arith,
      h4,
      read_owner-eq v expected i hi,
      read_counters-eq v c hc,
      read_history-eq v c.durable_next_nonce repairs hr,
      read_queue-eq v c.next_nonce c.durable_next_nonce queue hq,
    )

-- A value of the journal's type passes validation, and comes back unchanged, exactly when it is a
-- well-formed journal of the expected identity: readable fields, counters in order, consecutive
-- nonces between them, and no attempt, work or transaction hash twice.
pub validate_iff :
    (expected : JournalIdentity) (s : TransactionJournalSnapshot)
    → (validate_journal_snapshot_structure (snapshot_value s) (identity_value expected) ≡ ok s)
      ↔ IsJournal expected s
validate_iff expected s =
    (validate-IsJournal expected (snapshot_value s) s, validate-snapshot_value expected s)

-- Whatever object is validated, the snapshot made from it passes validation again unchanged.
pub validate_again :
    (expected : JournalIdentity) (v : Value) (s : TransactionJournalSnapshot)
    → validate_journal_snapshot_structure v (identity_value expected) ≡ ok s
    → validate_journal_snapshot_structure (snapshot_value s) (identity_value expected) ≡ ok s
validate_again expected v s h =
    validate-snapshot_value expected s (validate-IsJournal expected v s h)
