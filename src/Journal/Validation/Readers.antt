-- ===== src/Journal/Validation/Readers.antt =====
-- A reader, applied to the object of a typed value, returns that value exactly when it passes the
-- tests; and all that it ever returns has passed them.
use drand_quicknet_evm.Base.{ℕ, ◌≡◌, refl, true, Option, none, some, arith, ok}
use drand_quicknet_evm.Text.{Text, is_fixed_hex}
use drand_quicknet_evm.Text.Iso.{is_iso_timestamp}
use drand_quicknet_evm.Journal.{
  BlockAnchor, JournalIdentity, AnchoredNonceObservation, ReplacementSearch,
  JournalSignedTransaction,
}
use drand_quicknet_evm.Journal.Value.{
  Value, field, null, bigint, str, nullable, anchor_value, identity_value, observation_value,
  search_value, transaction_value,
}
use drand_quicknet_evm.Journal.Check.{
  is_uint, is_anchor, is_identity, is_observation, is_transaction, is_search, searched_after,
}
use drand_quicknet_evm.Journal.Validation.{
  read_uint, read_hex, read_anchor, read_identity, read_observation, read_timestamp,
  read_signed_transaction, read_replacement_search, read_through,
}

pub read_anchor-anchor_value :
    (a : BlockAnchor) → is_anchor a ≡ true → read_anchor (anchor_value a) ≡ ok a
unfolding read_anchor field
read_anchor-anchor_value a h = ground arith

pub read_anchor-is_anchor :
    (v : Value) (a : BlockAnchor) → read_anchor v ≡ ok a → is_anchor a ≡ true
unfolding read_anchor
read_anchor-is_anchor v a h = ground arith

pub read_uint-bigint : (n : ℕ) → is_uint n ≡ true → read_uint (bigint n) ≡ ok n
unfolding read_uint
read_uint-bigint n h = ground arith

pub read_uint-is_uint : (v : Value) (n : ℕ) → read_uint v ≡ ok n → is_uint n ≡ true
unfolding read_uint
read_uint-is_uint v n h = ground arith

pub read_hex-str : (k : ℕ) (s : Text) → is_fixed_hex s k ≡ true → read_hex k (str s) ≡ ok s
unfolding read_hex
read_hex-str k s h = ground arith

pub read_hex-is_fixed_hex :
    (k : ℕ) (v : Value) (s : Text) → read_hex k v ≡ ok s → is_fixed_hex s k ≡ true
unfolding read_hex
read_hex-is_fixed_hex k v s h = ground arith

pub read_timestamp-str : (s : Text) → is_iso_timestamp s ≡ true → read_timestamp (str s) ≡ ok s
unfolding read_timestamp
read_timestamp-str s h = ground arith

pub read_timestamp-is_iso :
    (v : Value) (s : Text) → read_timestamp v ≡ ok s → is_iso_timestamp s ≡ true
unfolding read_timestamp
read_timestamp-is_iso v s h = ground arith

pub read_identity-identity_value :
    (i : JournalIdentity) → is_identity i ≡ true → read_identity (identity_value i) ≡ ok i
unfolding read_identity field
read_identity-identity_value i h = ground arith

pub read_identity-is_identity :
    (v : Value) (i : JournalIdentity) → read_identity v ≡ ok i → is_identity i ≡ true
unfolding read_identity
read_identity-is_identity v i h = ground arith

pub read_observation-observation_value :
    (o : AnchoredNonceObservation)
    → is_observation o ≡ true
    → read_observation (observation_value o) ≡ ok o
unfolding read_observation field
read_observation-observation_value o h = ground arith

pub read_observation-is_observation :
    (v : Value) (o : AnchoredNonceObservation) → read_observation v ≡ ok o → is_observation o ≡ true
unfolding read_observation
read_observation-is_observation v o h = ground arith

pub read_transaction-transaction_value :
    (t : JournalSignedTransaction)
    → is_transaction t ≡ true
    → read_signed_transaction (transaction_value t) ≡ ok t
unfolding read_signed_transaction field
read_transaction-transaction_value t h = ground arith

pub read_transaction-is_transaction :
    (v : Value) (t : JournalSignedTransaction)
    → read_signed_transaction v ≡ ok t
    → is_transaction t ≡ true
unfolding read_signed_transaction
read_transaction-is_transaction v t h = ground arith

pub read_through-anchor :
    (block : ℕ) (through : Option BlockAnchor)
    → searched_after block through ≡ true
    → read_through block (nullable anchor_value through) ≡ ok through
unfolding read_through
read_through-anchor block none h = refl
read_through-anchor block (some a) h = rw (read_anchor-anchor_value a (ground arith)) (ground arith)

pub read_through-searched_after :
    (block : ℕ) (v : Value) (through : Option BlockAnchor)
    → read_through block v ≡ ok through
    → searched_after block through ≡ true
unfolding read_through
read_through-searched_after block null through h = ground arith
read_through-searched_after block v through h = grind (arith, read_anchor-is_anchor)

pub read_search-search_value :
    (n : ℕ) (s : ReplacementSearch)
    → is_search n s ≡ true
    → read_replacement_search n (search_value s) ≡ ok s
unfolding read_replacement_search field
read_search-search_value n s h =
    rw (read_observation-observation_value s.lower_bound (ground arith))
      (ground (arith, read_through-anchor s.lower_bound.anchor.block_number s.searched_through))

pub read_search-is_search :
    (n : ℕ) (v : Value) (s : ReplacementSearch)
    → read_replacement_search n v ≡ ok s
    → is_search n s ≡ true
unfolding read_replacement_search
read_search-is_search n v s h =
    grind (arith, read_observation-is_observation, read_through-searched_after)
