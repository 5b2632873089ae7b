-- ===== src/Journal/Validation/Same.antt =====
-- A value of the journal's type is read as itself, or not at all.
use drand_quicknet_evm.Base.{
  ℕ, ◌≡◌, refl, Option, none, some, List, [], ◌∷◌, arith, ok, err, ap, ◌⊎◌, inl, inr, Bool-cases,
}
use drand_quicknet_evm.Text.{Text, is_fixed_hex}
use drand_quicknet_evm.Journal.{
  BlockAnchor, JournalIdentity, AnchoredNonceObservation, JournalNonceRepair, ReplacementSearch,
  JournalSignedTransaction, InclusionOutcome, success, reverted, replaced,
  JournalInclusionObservation, Phase, signed, broadcast_may_have_occurred, included, JournalAttempt,
  signed_transactions, TransactionJournalSnapshot,
}
use drand_quicknet_evm.Journal.Value.{
  Value, ValidationError, invalid_snapshot, field, bigint, str, arr, array, nullable, anchor_value,
  identity_value, observation_value, repair_value, search_value, transaction_value, inclusion_value,
  outcome_name, phase_name, phase_inclusion, attempt_value, snapshot_value,
}
use drand_quicknet_evm.Journal.Check.{Checked, is_uint}
use drand_quicknet_evm.Journal.Validation.{
  read_text, read_uint, read_hex, read_items, read_anchor, read_identity, read_observation,
  read_timestamp, read_signed_transaction, read_through, read_replacement_search,
  read_search_or_null, read_outcome, read_inclusion, read_phase,
}
use drand_quicknet_evm.Journal.Validation.Structure.{
  read_transactions, read_attempt, read_repair, read_repairs, read_owner, read_counters,
  read_history, read_queue, validate_journal_snapshot_structure,
}

-- The call returns this value or throws.
abbrev Only : {A : Type 0} → Checked A → A → Type 0
Only m a = (m ≡ ok a) ⊎ ((e : ValidationError) × (m ≡ err e))

read_uint-same : (n : ℕ) → Only (read_uint (bigint n)) n
unfolding read_uint
read_uint-same n = elim (Bool-cases (is_uint n)) [
  | inl e ↦ inl (ground arith)
  | inr e ↦ inr (invalid_snapshot, ground arith)
]

read_hex-same : (k : ℕ) (s : Text) → Only (read_hex k (str s)) s
unfolding read_hex
read_hex-same k s = elim (Bool-cases (is_fixed_hex s k)) [
  | inl e ↦ inl (rw e)
  | inr e ↦ inr (invalid_snapshot, rw e)
]

Only-ok : {A : Type 0} (m : Checked A) (a : A) → ((b : A) → m ≡ ok b → b ≡ a) → Only m a
Only-ok (ok b) a h = inl (ap ok (h b refl))
Only-ok (err e) a h = inr (e, refl)

read_timestamp-same : (s : Text) → Only (read_timestamp (str s)) s
unfolding read_timestamp
read_timestamp-same s = Only-ok _ s λ t h. ground arith

read_anchor-same : (a : BlockAnchor) → Only (read_anchor (anchor_value a)) a
unfolding read_anchor field
read_anchor-same a = Only-ok _ a λ b h. ground arith

read_observation-same :
    (a : AnchoredNonceObservation) → Only (read_observation (observation_value a)) a
unfolding read_observation field
read_observation-same a = Only-ok _ a λ b h. ground arith

read_identity-same : (a : JournalIdentity) → Only (read_identity (identity_value a)) a
unfolding read_identity field
read_identity-same a = Only-ok _ a λ b h. ground arith

read_transaction-same :
    (a : JournalSignedTransaction) → Only (read_signed_transaction (transaction_value a)) a
unfolding read_signed_transaction field
read_transaction-same a = Only-ok _ a λ b h. ground arith

read_through-same :
    (n : ℕ) (a : Option BlockAnchor) → Only (read_through n (nullable anchor_value a)) a
unfolding read_through
read_through-same n none = inl refl
read_through-same n (some a) = Only-ok _ (some a) λ b h. ground (arith, read_anchor-same a)

read_search-same :
    (n : ℕ) (a : Option ReplacementSearch)
    → Only (read_search_or_null n (nullable search_value a)) a
unfolding read_search_or_null read_replacement_search field
read_search-same n none = inl refl
read_search-same n (some a) = Only-ok _ (some a) λ b h. ground (
  arith,
  read_observation-same a.lower_bound,
  read_through-same a.lower_bound.anchor.block_number a.searched_through,
)

module _ (n : ℕ) (txs : List JournalSignedTransaction) where
  read_outcome-same :
      (i o : BlockAnchor) (a b : InclusionOutcome)
      → read_outcome
          (outcome_name a)
          (inclusion_value (record { inclusion = i; observed_at = o; outcome = a }))
          n
          txs
        ≡ ok b
      → b ≡ a
  unfolding read_outcome field
  read_outcome-same i o (success hash) b h = ground (arith, read_hex-same 32 hash)
  read_outcome-same i o (reverted hash) b h = ground (arith, read_hex-same 32 hash)
  read_outcome-same i o (replaced hash k) b h =
      ground (arith, read_hex-same 32 hash, read_uint-same k)

  read_inclusion-same :
      (a : JournalInclusionObservation) → Only (read_inclusion (inclusion_value a) n txs) a
  unfolding read_inclusion field
  read_inclusion-same a = Only-ok _ a λ b h. ground (
    arith,
    read_anchor-same a.inclusion,
    read_anchor-same a.observed_at,
    read_outcome-same a.inclusion a.observed_at a.outcome b.outcome,
  )

  read_phase-same : (a : Phase) → Only (read_phase (phase_name a) (phase_inclusion a) n txs) a
  unfolding read_phase
  read_phase-same signed = inl refl
  read_phase-same broadcast_may_have_occurred = inl refl
  read_phase-same (included i) = Only-ok _ (included i) λ b h. ground (arith, read_inclusion-same i)

read_items-same :
    {A : Type 0} (read : Value → Checked A) (f : A → Value)
    → ((x : A) → Only (read (f x)) x)
    → (xs : List A) → Only (read_items read (array f xs)) xs
read_items-same read f eq [] = inl refl
read_items-same read f eq (x ∷ xs) =
    Only-ok _ (x ∷ xs) λ ys h. ground (arith, eq x, read_items-same read f eq xs)

read_repair-same : (a : JournalNonceRepair) → Only (read_repair (repair_value a)) a
unfolding read_repair read_text field
read_repair-same a = Only-ok _ a λ b h. ground (
  arith,
  read_timestamp-same a.time,
  read_uint-same a.previous_next_nonce,
  read_uint-same a.next_nonce,
  read_observation-same a.observation,
)

read_repairs-same :
    (as' : List JournalNonceRepair) → Only (read_repairs (arr (array repair_value as'))) as'
unfolding read_repairs
read_repairs-same as' =
    Only-ok _ as'
      λ b h. ground (arith, read_items-same read_repair repair_value read_repair-same as')

read_transactions-same :
    (tx : JournalSignedTransaction) (txs : List JournalSignedTransaction)
    → Only (read_transactions (arr (array transaction_value (tx ∷ txs)))) (tx, txs)
unfolding read_transactions
read_transactions-same tx txs =
    Only-ok _ (tx, txs)
      λ b h. ground (
        arith,
        read_items-same read_signed_transaction transaction_value read_transaction-same (tx ∷ txs),
      )

read_attempt-same : (a : JournalAttempt) → Only (read_attempt (attempt_value a)) a
unfolding read_attempt read_text field
read_attempt-same a = Only-ok _ a λ b h. ground (
  arith,
  read_uint-same a.nonce,
  read_timestamp-same a.created_at,
  read_transactions-same a.first_transaction a.replacements,
  read_search-same a.nonce a.replacement_search,
  read_phase-same a.nonce (signed_transactions a) a.phase,
)

read_counters-same :
    (s : TransactionJournalSnapshot)
    → Only (read_counters (snapshot_value s)) (record {
      baseline = s.baseline;
      last_observation = s.last_observation;
      next_nonce = s.next_nonce;
      durable_next_nonce = s.durable_next_nonce;
    })
unfolding read_counters field
read_counters-same s = Only-ok _ _ λ b h. ground (
  arith,
  read_observation-same s.baseline,
  read_observation-same s.last_observation,
  read_uint-same s.next_nonce,
  read_uint-same s.durable_next_nonce,
)

module _ (s : TransactionJournalSnapshot) where
  read_owner-same : (v : Value) → Only (read_owner (snapshot_value s) v) s.identity
  unfolding read_owner field
  read_owner-same v = Only-ok _ s.identity λ b h. ground (arith, read_identity-same s.identity)

  read_history-same : (d : ℕ) → Only (read_history (snapshot_value s) d) s.repairs
  unfolding read_history field
  read_history-same d = Only-ok _ s.repairs λ b h. ground (arith, read_repairs-same s.repairs)

  read_queue-same : (n d : ℕ) → Only (read_queue (snapshot_value s) n d) s.attempts
  unfolding read_queue field
  read_queue-same n d =
      Only-ok _ s.attempts λ b h.
        ground (arith, read_items-same read_attempt attempt_value read_attempt-same s.attempts)

  -- What validation returns for a snapshot is that snapshot.
  pub validate-same :
      (v : Value) (t : TransactionJournalSnapshot)
      → validate_journal_snapshot_structure (snapshot_value s) v ≡ ok t
      → t ≡ s
  unfolding validate_journal_snapshot_structure
  validate-same v t h = ground (
    arith,
    read_owner-same v,
    read_counters-same s,
    read_history-same s.durable_next_nonce,
    read_queue-same s.next_nonce s.durable_next_nonce,
  )
