-- ===== src/Journal/Check.antt =====
-- The tests of apps/relayer/src/state/transaction-journal-validation.ts on values that have the
-- journal's types already, each read with the value that it returns.
use drand_quicknet_evm.Base.{
  ℕ, ◌+◌, ◌%◌, ◌==◌, ◌&&◌, not, Bool, true, false, Option, none, some, List, [], ◌∷◌, ltb, leb,
  if◌then◌else◌, Result, require, length, last?,
}
use drand_quicknet_evm.Text.{
  Text, has, lower, same, is_fixed_hex, is_uuid_v4, is_work_id, after_0x, every, is_lower_hex,
}
use drand_quicknet_evm.Text.Iso.{is_iso_timestamp}
use drand_quicknet_evm.Journal.Value.{
  ValidationError, invalid_snapshot, invalid_repairs, max_safe_integer, max_uint256,
}
use drand_quicknet_evm.Journal.{
  BlockAnchor, JournalIdentity, AnchoredNonceObservation, JournalNonceRepair, ReplacementSearch,
  JournalSignedTransaction, InclusionOutcome, success, reverted, replaced,
  JournalInclusionObservation, Phase, signed, broadcast_may_have_occurred, included, JournalAttempt,
  signed_transactions, contains_hash,
}

abbrev pub Checked : Type 0 → Type 0
Checked A = Result ValidationError A

abbrev pub valid : Bool → Checked (Unit {0})
valid test = require test invalid_snapshot

abbrev pub valid_repair : Bool → Checked (Unit {0})
valid_repair test = require test invalid_repairs

abbrev pub is_uint : ℕ → Bool
is_uint n = leb n max_uint256

-- The loop over two neighbouring repairs, behind the one that stands before them.
abbrev pub repairs_in_order : JournalNonceRepair → List JournalNonceRepair → Bool
repairs_in_order previous [] = true
repairs_in_order previous (r ∷ rest) =
    leb previous.next_nonce r.previous_next_nonce && repairs_in_order r rest

abbrev pub repair_order : List JournalNonceRepair → Bool
repair_order [] = true
repair_order (r ∷ rest) = repairs_in_order r rest

-- The hashes of one attempt, none of them among `seen`; the longer `seen` is returned.
abbrev pub fresh_hashes : List JournalSignedTransaction → List Text → Option (List Text)
fresh_hashes [] seen = some seen
fresh_hashes (tx ∷ txs) seen =
    let hash = lower tx.transaction_hash in
    let rest = fresh_hashes txs (hash ∷ seen) in if has hash seen then none else rest

-- The loop over the attempts: consecutive nonces, and no identity, work or hash twice.
abbrev pub attempts_in_order : ℕ → List Text → List Text → List Text → List JournalAttempt → Bool
attempts_in_order nonce ids works hashes [] = true
attempts_in_order nonce ids works hashes (a ∷ rest) =
    let id = lower a.attempt_id in
    a.nonce == nonce
    && not (has id ids)
    && not (has a.work_id works)
    && elim (fresh_hashes (signed_transactions a) hashes) [
      | none ↦ false
      | some seen ↦ attempts_in_order (nonce + 1) (id ∷ ids) (a.work_id ∷ works) seen rest
    ]

-- What each reader demands of the value that it returns.
abbrev pub is_anchor : BlockAnchor → Bool
is_anchor a = is_uint a.block_number && is_fixed_hex a.block_hash 32

abbrev pub is_identity : JournalIdentity → Bool
is_identity i = ltb 0 i.chain_id && leb i.chain_id max_safe_integer && is_fixed_hex i.signer 20

abbrev pub is_observation : AnchoredNonceObservation → Bool
is_observation o = is_anchor o.anchor && is_uint o.nonce

abbrev pub is_repair : JournalNonceRepair → Bool
is_repair r =
    is_iso_timestamp r.time
    && is_uint r.previous_next_nonce
    && is_uint r.next_nonce
    && is_observation r.observation
    && ltb r.previous_next_nonce r.next_nonce
    && r.observation.nonce == r.next_nonce

abbrev pub searched_after : ℕ → Option BlockAnchor → Bool
searched_after block none = true
searched_after block (some through) = is_anchor through && ltb block through.block_number

abbrev pub is_search : ℕ → ReplacementSearch → Bool
is_search nonce s =
    is_observation s.lower_bound
    && leb s.lower_bound.nonce nonce
    && searched_after s.lower_bound.anchor.block_number s.searched_through

-- `signedTransaction.length >= 66`, an even length, and `/^0x[0-9a-f]+$/`.
unfoldable pub is_signed_bytes : Text → Bool
is_signed_bytes bytes =
    leb 66 (length bytes) && length bytes % 2 == 0 && after_0x (every is_lower_hex) bytes

abbrev pub is_transaction : JournalSignedTransaction → Bool
is_transaction t = is_fixed_hex t.transaction_hash 32 && is_signed_bytes t.signed_transaction

abbrev pub is_outcome : ℕ → List JournalSignedTransaction → InclusionOutcome → Bool
is_outcome nonce txs (success hash) = is_fixed_hex hash 32 && contains_hash txs hash
is_outcome nonce txs (reverted hash) = is_fixed_hex hash 32 && contains_hash txs hash
is_outcome nonce txs (replaced hash at_anchor) =
    is_uint at_anchor && is_fixed_hex hash 32 && not (contains_hash txs hash) && ltb nonce at_anchor

-- One block is not above another, and has its hash if they have one number.
unfoldable pub is_within : BlockAnchor → BlockAnchor → Bool
is_within a b =
    leb a.block_number b.block_number
    && (if a.block_number == b.block_number then same a.block_hash b.block_hash else true)

abbrev pub is_inclusion : ℕ → List JournalSignedTransaction → JournalInclusionObservation → Bool
is_inclusion nonce txs i =
    is_anchor i.inclusion
    && is_anchor i.observed_at
    && is_within i.inclusion i.observed_at
    && is_outcome nonce txs i.outcome

abbrev pub is_phase : ℕ → List JournalSignedTransaction → Phase → Bool
is_phase nonce txs signed = true
is_phase nonce txs broadcast_may_have_occurred = true
is_phase nonce txs (included i) = is_inclusion nonce txs i

abbrev pub all_of {ℓ} : {A : Type ℓ} → (A → Bool) → List A → Bool
all_of p [] = true
all_of p (x ∷ xs) = p x && all_of p xs

abbrev pub search_ok : ℕ → Option ReplacementSearch → Bool
search_ok nonce none = true
search_ok nonce (some s) = is_search nonce s

abbrev pub is_attempt : JournalAttempt → Bool
is_attempt a =
    is_uint a.nonce
    && is_uuid_v4 a.attempt_id
    && is_work_id a.work_id
    && is_iso_timestamp a.created_at
    && all_of is_transaction (signed_transactions a)
    && search_ok a.nonce a.replacement_search
    && is_phase a.nonce (signed_transactions a) a.phase

abbrev pub last_repair_below : List JournalNonceRepair → ℕ → Bool
last_repair_below repairs n = elim (last? repairs) [ none ↦ true | some r ↦ leb r.next_nonce n ]
