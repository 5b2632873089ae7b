-- ===== src/Journal/Validation.antt =====
-- apps/relayer/src/state/transaction-journal-validation.ts: readers that take an unknown value
-- apart into a fresh snapshot of declared fields only, or throw. `Object.freeze` and the detached
-- copy are what a value of a data type is. A test `typeof x` is the match on the constructor.
pub mod Structure
pub mod Readers
pub mod Attempts
pub mod Same
pub mod Laws
use drand_quicknet_evm.Base.{
  ℕ, suc, ◌-◌, ◌≡◌, ◌==◌, ◌&&◌, not, Bool, true, false, Option, none, some, List, [], ◌∷◌, ltb, leb,
  if◌then◌else◌, Result, ok, err, ◌>>=◌, ◌>>◌, or_throw, length,
}
use drand_quicknet_evm.Text.{Text, codes, text_eq, same, is_fixed_hex, is_uuid_v4, is_work_id}
use drand_quicknet_evm.Text.Iso.{is_iso_timestamp}
use drand_quicknet_evm.Journal.{
  BlockAnchor, JournalIdentity, AnchoredNonceObservation, JournalNonceRepair, ReplacementSearch,
  JournalSignedTransaction, InclusionOutcome, success, reverted, replaced,
  JournalInclusionObservation, Phase, signed, broadcast_may_have_occurred, included, JournalAttempt,
  TransactionJournalSnapshot, contains_hash, max_retained_nonce_repairs,
}
use drand_quicknet_evm.Journal.Value.{
  Value, Items, nil, cons, hole, null, num, bigint, str, arr, field, invalid_snapshot,
  invalid_repairs, is_non_negative_safe_integer, is_positive_safe_integer,
}
use drand_quicknet_evm.Journal.Check.{
  Checked, valid, valid_repair, is_uint, is_within, is_signed_bytes, repair_order,
  last_repair_below, attempts_in_order,
}

pub read_text : Value → Checked Text
read_text (str s) = ok s
read_text _ = err invalid_snapshot

pub read_hex : ℕ → Value → Checked Text
unfolding read_text
read_hex bytes v = do s ← read_text v; valid (is_fixed_hex s bytes); ok s

pub read_uint : Value → Checked ℕ
read_uint (bigint n) = valid (is_uint n) >> ok n
read_uint _ = err invalid_snapshot

-- The loop of `readArray`. An array's own `length` is always a safe integer.
abbrev pub read_items : {A : Type 0} → (Value → Checked A) → Items → Checked (List A)
read_items read nil = ok []
read_items read (hole rest) = err invalid_snapshot
read_items read (cons v rest) = do x ← read v; xs ← read_items read rest; ok (x ∷ xs)

abbrev pub read_array : {A : Type 0} → (Value → Checked A) → Value → Checked (List A)
read_array read (arr items) = read_items read items
read_array read _ = err invalid_snapshot

pub read_chain_id : Value → Checked ℕ
read_chain_id (num n) = valid (is_positive_safe_integer (num n)) >> ok n
read_chain_id _ = err invalid_snapshot

pub read_identity : Value → Checked JournalIdentity
unfolding read_chain_id read_hex
read_identity input = do
  chain_id ← read_chain_id (← field input "chainId")
  signer ← read_hex 20 (← field input "signer")
  ok (record { chain_id = chain_id; signer = signer })

pub read_anchor : Value → Checked BlockAnchor
unfolding read_uint read_hex
read_anchor input = do
  block_number ← read_uint (← field input "blockNumber")
  block_hash ← read_hex 32 (← field input "blockHash")
  ok (record { block_number = block_number; block_hash = block_hash })

pub read_observation : Value → Checked AnchoredNonceObservation
unfolding read_anchor read_uint
read_observation input = do
  anchor ← read_anchor (← field input "anchor")
  nonce ← read_uint (← field input "nonce")
  ok (record { anchor = anchor; nonce = nonce })

-- A string that a date prints.
pub read_timestamp : Value → Checked Text
unfolding read_text
read_timestamp v = do s ← read_text v; valid (is_iso_timestamp s); ok s

pub read_signed_transaction : Value → Checked JournalSignedTransaction
unfolding read_hex read_text
read_signed_transaction input = do
  hash ← read_hex 32 (← field input "transactionHash")
  bytes ← read_text (← field input "signedTransaction")
  valid (is_signed_bytes bytes)
  ok (record { transaction_hash = hash; signed_transaction = bytes })

pub read_through : ℕ → Value → Checked (Option BlockAnchor)
read_through block null = ok none
read_through block raw = do
  through ← read_anchor raw
  valid (ltb block through.block_number)
  ok (some through)

pub read_replacement_search : ℕ → Value → Checked ReplacementSearch
read_replacement_search nonce input = do
  lower_bound ← read_observation (← field input "lowerBound")
  valid (leb lower_bound.nonce nonce)
  through ← read_through lower_bound.anchor.block_number (← field input "searchedThrough")
  ok (record { lower_bound = lower_bound; searched_through = through })

-- `rawSearch === null ? null : readReplacementSearch(rawSearch, nonce)`
pub read_search_or_null : ℕ → Value → Checked (Option ReplacementSearch)
read_search_or_null nonce null = ok none
read_search_or_null nonce raw = do search ← read_replacement_search nonce raw; ok (some search)

-- The `switch` on the outcome.
pub read_outcome : Text → Value → ℕ → List JournalSignedTransaction → Checked InclusionOutcome
read_outcome outcome input nonce txs =
    if text_eq outcome (codes "success")
    then (do
      hash ← read_hex 32 (← field input "transactionHash")
      valid (contains_hash txs hash)
      ok (success hash))
    else if text_eq outcome (codes "reverted")
    then (do
      hash ← read_hex 32 (← field input "transactionHash")
      valid (contains_hash txs hash)
      ok (reverted hash))
    else if text_eq outcome (codes "replaced")
    then (do
      raw ← field input "replacementTransactionHash"
      at_anchor ← read_uint (← field input "nonceAtAnchor")
      hash ← read_hex 32 raw
      valid (not (contains_hash txs hash))
      valid (ltb nonce at_anchor)
      ok (replaced hash at_anchor))
    else err invalid_snapshot

pub read_inclusion : Value → ℕ → List JournalSignedTransaction → Checked JournalInclusionObservation
unfolding read_text
read_inclusion input nonce txs = do
  inclusion ← read_anchor (← field input "inclusion")
  observed_at ← read_anchor (← field input "observedAt")
  raw ← field input "outcome"
  valid (is_within inclusion observed_at)
  outcome ← read_text raw
  outcome' ← read_outcome outcome input nonce txs
  ok (record { inclusion = inclusion; observed_at = observed_at; outcome = outcome' })

valid_null : Value → Phase → Checked Phase
valid_null null phase = ok phase
valid_null _ phase = err invalid_snapshot

-- The `switch` on the phase.
pub read_phase : Text → Value → ℕ → List JournalSignedTransaction → Checked Phase
unfolding valid_null
read_phase phase raw nonce txs =
    if text_eq phase (codes "signed")
    then valid_null raw signed
    else if text_eq phase (codes "broadcast-may-have-occurred")
    then valid_null raw broadcast_may_have_occurred
    else if text_eq phase (codes "included")
    then (do inclusion ← read_inclusion raw nonce txs; ok (included inclusion))
    else err invalid_snapshot
