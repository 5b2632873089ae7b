-- ===== src/Journal/Validation/Attempts.antt =====
-- The same two facts for the readers of inclusions, phases, attempts, repairs and lists.
use drand_quicknet_evm.Base.{
  ℕ, ◌≡◌, refl, Bool, true, Option, none, some, List, [], ◌∷◌, arith, ok, ◌>>=◌, >>=-eq-ok,
  and_split, length, leb,
}
use drand_quicknet_evm.Text.{Text, codes, is_uuid_v4, is_work_id}
use drand_quicknet_evm.Text.Iso.{is_iso_timestamp}
use drand_quicknet_evm.Text.Equality.{text_eq_refl}
use drand_quicknet_evm.Journal.{
  ReplacementSearch, InclusionOutcome, JournalNonceRepair, JournalSignedTransaction,
  JournalInclusionObservation, Phase, signed, broadcast_may_have_occurred, included, JournalAttempt,
  signed_transactions, max_retained_nonce_repairs,
}
use drand_quicknet_evm.Journal.Value.{
  Value, Items, field, null, arr, nil, cons, hole, nullable, array, search_value, transaction_value,
  inclusion_value, attempt_value, repair_value, phase_name, phase_inclusion,
}
use drand_quicknet_evm.Journal.Check.{
  Checked, is_uint, is_transaction, is_outcome, is_inclusion, is_phase, is_attempt, is_repair,
  search_ok, all_of,
}
use drand_quicknet_evm.Journal.Validation.{
  read_items, read_outcome, read_inclusion, read_phase, read_search_or_null,
  read_signed_transaction, read_text,
}
use drand_quicknet_evm.Journal.Validation.Structure.{
  read_attempt, read_repair, read_repairs, items_length, non_empty, read_transactions,
}
use drand_quicknet_evm.Journal.Validation.Readers.{
  read_anchor-anchor_value, read_anchor-is_anchor, read_uint-bigint, read_uint-is_uint,
  read_hex-str, read_hex-is_fixed_hex, read_timestamp-str, read_timestamp-is_iso,
  read_observation-observation_value, read_observation-is_observation,
  read_transaction-transaction_value, read_transaction-is_transaction, read_search-search_value,
  read_search-is_search,
}

-- A reader of items that inverts `f` on the values with `p` inverts `array f` on lists of them.
pub read_items-array :
    {A : Type 0} (read : Value → Checked A) (f : A → Value) (p : A → Bool)
    → ((x : A) → p x ≡ true → read (f x) ≡ ok x)
    → (xs : List A) → all_of p xs ≡ true
    → read_items read (array f xs) ≡ ok xs
read_items-array read f p inv [] h = refl
read_items-array read f p inv (x ∷ xs) h =
    let (hx, hxs) = and_split (p x) (all_of p xs) h in
    rw (inv x hx) (rw (read_items-array read f p inv xs hxs))

pub read_items-all_of :
    {A : Type 0} (read : Value → Checked A) (p : A → Bool)
    → ((v : Value) (x : A) → read v ≡ ok x → p x ≡ true)
    → (items : Items) (xs : List A) → read_items read items ≡ ok xs
    → all_of p xs ≡ true
read_items-all_of read p sound nil xs h = ground arith
read_items-all_of read p sound (hole rest) xs h = cc
read_items-all_of read p sound (cons v rest) xs h =
    let (x, ex, h') = >>=-eq-ok (read v) (λ x. read_items read rest >>= (λ xs. ok (x ∷ xs))) h in
    let (ys, ey, h'') = >>=-eq-ok (read_items read rest) (λ xs. ok (x ∷ xs)) h' in
    ground (arith, sound v x ex, read_items-all_of read p sound rest ys ey)

pub read_items-length :
    {A : Type 0} (read : Value → Checked A) (items : Items) (xs : List A)
    → read_items read items ≡ ok xs
    → items_length items ≡ length xs
read_items-length read nil xs h = ground arith
read_items-length read (hole rest) xs h = cc
read_items-length read (cons v rest) xs h =
    let (x, ex, h') = >>=-eq-ok (read v) (λ x. read_items read rest >>= (λ xs. ok (x ∷ xs))) h in
    let (ys, ey, h'') = >>=-eq-ok (read_items read rest) (λ xs. ok (x ∷ xs)) h' in
    ground (arith, read_items-length read rest ys ey)

items_length-array :
    {A : Type 0} (f : A → Value) (xs : List A) → items_length (array f xs) ≡ length xs
items_length-array f [] = refl
items_length-array f (x ∷ xs) = ground (arith, items_length-array f xs)

module _ (nonce : ℕ) (txs : List JournalSignedTransaction) where
  pub read_inclusion-inclusion_value :
      (i : JournalInclusionObservation)
      → is_inclusion nonce txs i ≡ true
      → read_inclusion (inclusion_value i) nonce txs ≡ ok i
  unfolding read_inclusion read_outcome field
  read_inclusion-inclusion_value i h =
      grind (arith, read_anchor-anchor_value, read_uint-bigint, read_hex-str)

  pub read_outcome-is_outcome :
      (name : Text) (v : Value) (o : InclusionOutcome)
      → read_outcome name v nonce txs ≡ ok o
      → is_outcome nonce txs o ≡ true
  unfolding read_outcome
  read_outcome-is_outcome name v o h = grind (arith, read_uint-is_uint, read_hex-is_fixed_hex)

  pub read_inclusion-is_inclusion :
      (v : Value) (i : JournalInclusionObservation)
      → read_inclusion v nonce txs ≡ ok i
      → is_inclusion nonce txs i ≡ true
  unfolding read_inclusion
  read_inclusion-is_inclusion v i h = grind (arith, read_anchor-is_anchor, read_outcome-is_outcome)

  pub read_phase-is_phase :
      (name : Text) (v : Value) (p : Phase)
      → read_phase name v nonce txs ≡ ok p
      → is_phase nonce txs p ≡ true
  unfolding read_phase
  read_phase-is_phase name v p h = grind (arith, read_inclusion-is_inclusion)

pub read_search_or_null-search :
    (n : ℕ) (s : Option ReplacementSearch)
    → search_ok n s ≡ true
    → read_search_or_null n (nullable search_value s) ≡ ok s
unfolding read_search_or_null
read_search_or_null-search n none h = refl
read_search_or_null-search n (some s) h = rw (read_search-search_value n s h)

pub read_search_or_null-search_ok :
    (n : ℕ) (v : Value) (s : Option ReplacementSearch)
    → read_search_or_null n v ≡ ok s
    → search_ok n s ≡ true
unfolding read_search_or_null
read_search_or_null-search_ok n null s h = ground arith
read_search_or_null-search_ok n v s h = grind (arith, read_search-is_search)

pub read_repair-repair_value :
    (r : JournalNonceRepair) → is_repair r ≡ true → read_repair (repair_value r) ≡ ok r
unfolding read_repair read_text field
read_repair-repair_value r h = ground (
  arith,
  text_eq_refl (codes "sync-nonce"),
  read_timestamp-str r.time,
  read_uint-bigint r.previous_next_nonce,
  read_uint-bigint r.next_nonce,
  read_observation-observation_value r.observation,
)

pub read_repair-is_repair :
    (v : Value) (r : JournalNonceRepair) → read_repair v ≡ ok r → is_repair r ≡ true
unfolding read_repair
read_repair-is_repair v r h =
    grind (arith, read_timestamp-is_iso, read_uint-is_uint, read_observation-is_observation)

pub read_repairs-repairs :
    (rs : List JournalNonceRepair)
    → all_of is_repair rs ≡ true
    → leb (length rs) max_retained_nonce_repairs ≡ true
    → read_repairs (arr (array repair_value rs)) ≡ ok rs
unfolding read_repairs
read_repairs-repairs rs h b =
    rw
      (
        items_length-array repair_value rs,
        read_items-array read_repair repair_value is_repair read_repair-repair_value rs h,
      )
      (ground arith)

pub read_repairs-is_repair :
    (v : Value) (rs : List JournalNonceRepair)
    → read_repairs v ≡ ok rs
    → (all_of is_repair rs ≡ true) × (leb (length rs) max_retained_nonce_repairs ≡ true)
unfolding read_repairs
read_repairs-is_repair (arr items) rs h = (
  ground (arith, read_items-all_of read_repair is_repair read_repair-is_repair items rs),
  ground (arith, read_items-length read_repair items rs),
)
read_repairs-is_repair v rs h = cc

pub read_transactions-transactions :
    (tx : JournalSignedTransaction) (txs : List JournalSignedTransaction)
    → all_of is_transaction (tx ∷ txs) ≡ true
    → read_transactions (arr (array transaction_value (tx ∷ txs))) ≡ ok (tx, txs)
unfolding read_transactions
read_transactions-transactions tx txs h = rw (
    read_items-array read_signed_transaction transaction_value is_transaction
      read_transaction-transaction_value (tx ∷ txs) h)

pub read_transactions-is_transaction :
    (v : Value) (p : JournalSignedTransaction × List JournalSignedTransaction)
    → read_transactions v ≡ ok p
    → all_of is_transaction (p.0 ∷ p.1) ≡ true
unfolding read_transactions
read_transactions-is_transaction (arr items) p h =
    let (txs, e, h') = >>=-eq-ok (read_items read_signed_transaction items) non_empty h in
    ground (
      arith,
      h',
      read_items-all_of read_signed_transaction is_transaction read_transaction-is_transaction items
          txs e,
    )
read_transactions-is_transaction v p h = cc

-- The tests on an attempt, one by one.
attempt_parts :
    (a : JournalAttempt)
    → is_attempt a ≡ true
    → (is_uint a.nonce ≡ true)
      × (is_uuid_v4 a.attempt_id ≡ true)
      × (is_work_id a.work_id ≡ true)
      × (is_iso_timestamp a.created_at ≡ true)
      × (all_of is_transaction (signed_transactions a) ≡ true)
      × (search_ok a.nonce a.replacement_search ≡ true)
      × (is_phase a.nonce (signed_transactions a) a.phase ≡ true)
attempt_parts a h = ground arith

read_phase-phase :
    (n : ℕ) (txs : List JournalSignedTransaction) (p : Phase)
    → is_phase n txs p ≡ true
    → read_phase (phase_name p) (phase_inclusion p) n txs ≡ ok p
unfolding read_phase
read_phase-phase n txs signed h = refl
read_phase-phase n txs broadcast_may_have_occurred h = refl
read_phase-phase n txs (included i) h = rw (read_inclusion-inclusion_value n txs i h)

pub read_attempt-attempt_value :
    (a : JournalAttempt) → is_attempt a ≡ true → read_attempt (attempt_value a) ≡ ok a
unfolding read_attempt read_text field
read_attempt-attempt_value a h =
    let (u, id, work, time, txs, search, phase) = attempt_parts a h in
    simp (
      read_uint-bigint a.nonce u,
      id,
      work,
      read_timestamp-str a.created_at time,
      read_transactions-transactions a.first_transaction a.replacements txs,
      read_search_or_null-search a.nonce a.replacement_search search,
      read_phase-phase a.nonce (signed_transactions a) a.phase phase,
    )

pub read_attempt-is_attempt :
    (v : Value) (a : JournalAttempt) → read_attempt v ≡ ok a → is_attempt a ≡ true
unfolding read_attempt
read_attempt-is_attempt v a h = grind (
  arith, read_uint-is_uint, read_timestamp-is_iso, read_transactions-is_transaction,
  read_search_or_null-search_ok, read_phase-is_phase,
)
