-- ===== src/Journal/Verification.antt =====
-- apps/relayer/src/state/transaction-journal-verification.ts: every signed transaction of the
-- journal belongs to its signer, chain and nonce, and a fee replacement keeps the call. What viem
-- does is a parameter: hashing, decoding, encoding and signer recovery, each of which may throw
-- but the first.
pub mod Laws
use drand_quicknet_evm.Base.{
  ℕ, ◌+◌, ◌-◌, ◌*◌, ◌/◌, ◌==◌, ◌&&◌, ◌||◌, not, Bool, true, false, Option, none, some, List, [],
  ◌∷◌, ltb, leb, if◌then◌else◌, Result, ok, err, ◌>>=◌, ◌>>◌, require,
}
use drand_quicknet_evm.Text.{Text, text_eq, has, lower, same}
use drand_quicknet_evm.Journal.{
  JournalIdentity, JournalSignedTransaction, JournalAttempt, signed_transactions,
  TransactionJournalSnapshot,
}
use drand_quicknet_evm.Journal.Value.{Value, max_safe_integer, identity_value, snapshot_value}
use drand_quicknet_evm.Journal.Validation.Structure.{validate_journal_snapshot_structure}

pub data TransactionType : Type 0 where
  legacy eip2930 eip1559 eip4844 eip7702 : TransactionType

-- `v` and `yParity` of a signature.
pub record Signature : Type 0 where
  pub r : Option ℕ
  pub s : Option ℕ
  pub v : Option ℕ
  pub y_parity : Option ℕ

-- A decoded transaction. `call` is what is neither nonce, chain, fee nor signature: the receiver,
-- the data, the value, the gas limit and the access list.
pub record ParsedTransaction : Type 0 where
  pub type : TransactionType
  pub chain_id : Option ℕ
  pub nonce : Option ℕ
  pub gas_price : Option ℕ
  pub max_fee_per_gas : Option ℕ
  pub max_priority_fee_per_gas : Option ℕ
  pub call : Text
  pub signature : Signature

pub record Viem : Type 0 where
  pub keccak256 : Text → Text
  pub parse_transaction : Text → Option ParsedTransaction
  -- The encoding with the signature that the transaction carries, or with none.
  pub serialize_transaction : ParsedTransaction → Option Text
  pub recover_transaction_address : Text → Option Text

pub data VerificationError : Type 0 where
  invalid_journal_snapshot invalid_signed_transaction : VerificationError

abbrev pub Verified : Type 0 → Type 0
Verified A = Result VerificationError A

abbrev pub require_valid : Bool → Verified (Unit {0})
require_valid test = require test invalid_signed_transaction

-- A call of viem that throws, and a field that is `undefined`.
abbrev pub defined : {A : Type 0} → Option A → Verified A
defined none = err invalid_signed_transaction
defined (some a) = ok a

abbrev pub secp256k1_order : ℕ
secp256k1_order = 0xfffffffffffffffffffffffffffffffebaaedce6af48a03bbfd25e8cd0364141

abbrev pub is_supported : TransactionType → Bool
is_supported legacy = true
is_supported eip2930 = true
is_supported eip1559 = true
is_supported _ = false

pub unsigned : Signature
unsigned = record { r = none; s = none; v = none; y_parity = none }

-- The transaction with its signature and its fees removed: the call that was signed.
abbrev pub without_fees : ParsedTransaction → ParsedTransaction
without_fees t = elim t.type [
  | eip1559 ↦ record t {
    max_fee_per_gas = some 0;
    max_priority_fee_per_gas = some 0;
    signature = unsigned;
  }
  | _ ↦ record t { gas_price = some 0; signature = unsigned }
]

module _ (viem : Viem) where
  -- Returns the encoding of the call, which the caller compares.
  unfoldable pub verify_signed_transaction :
      JournalIdentity → ℕ → JournalSignedTransaction → Verified Text
  verify_signed_transaction identity nonce signed = do
    require_valid (same (viem.keccak256 signed.signed_transaction) signed.transaction_hash)
    t ← defined (viem.parse_transaction signed.signed_transaction)
    require_valid (is_supported t.type)
    chain ← defined t.chain_id
    require_valid (chain == identity.chain_id)
    parsed_nonce ← defined t.nonce
    require_valid (leb parsed_nonce max_safe_integer)
    require_valid (parsed_nonce == nonce)
    r ← defined t.signature.r
    s ← defined t.signature.s
    require_valid (ltb 0 r && ltb r secp256k1_order && ltb 0 s && leb s (secp256k1_order / 2))
    y_parity ← defined t.signature.y_parity
    require_valid (y_parity == 0 || y_parity == 1)
    serialized ← defined (viem.serialize_transaction t)
    require_valid (same serialized signed.signed_transaction)
    signer ← defined (viem.recover_transaction_address serialized)
    require_valid (same signer identity.signer)
    intent ← defined (viem.serialize_transaction (without_fees t))
    ok (lower intent)

  -- The loop over the transactions of one attempt, with the hashes seen and the first call.
  unfoldable pub verify_transactions :
      JournalIdentity
      → ℕ
      → List Text
      → Option Text
      → List JournalSignedTransaction
      → Verified (Unit {0})
  verify_transactions identity nonce hashes original [] = ok tt
  verify_transactions identity nonce hashes original (tx ∷ txs) = do
    let hash = lower tx.transaction_hash
    require_valid (not (has hash hashes))
    intent ← verify_signed_transaction identity nonce tx
    require_valid (elim original [ none ↦ true | some first ↦ text_eq intent first ])
    verify_transactions identity nonce (hash ∷ hashes)
        (elim original [ none ↦ some intent | some first ↦ some first ]) txs

  unfoldable pub verify_journal_attempt :
      JournalIdentity → ℕ → List JournalSignedTransaction → Verified (Unit {0})
  verify_journal_attempt identity nonce transactions = do
    require_valid (elim transactions [ [] ↦ false | _ ↦ true ])
    verify_transactions identity nonce [] none transactions

  unfoldable pub verify_attempts : JournalIdentity → List JournalAttempt → Verified (Unit {0})
  verify_attempts identity [] = ok tt
  verify_attempts identity (a ∷ rest) = do
    verify_journal_attempt identity a.nonce (signed_transactions a)
    verify_attempts identity rest

  unfoldable pub verify_journal_snapshot :
      Value → JournalIdentity → Verified TransactionJournalSnapshot
  verify_journal_snapshot input expected =
      elim (validate_journal_snapshot_structure input (identity_value expected)) [
        | err _ ↦ err invalid_journal_snapshot
        | ok snapshot ↦ do verify_attempts snapshot.identity snapshot.attempts; ok snapshot
      ]
