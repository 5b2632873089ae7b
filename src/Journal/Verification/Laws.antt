-- ===== src/Journal/Verification/Laws.antt =====
-- What verification establishes of an attempt's transactions, said without its loop.
use drand_quicknet_evm.Base.{
  ℕ, ◌/◌, ◌≤◌, ◌<◌, ◌≡◌, refl, ◌⊎◌, inl, inr, Bool, true, not, Option, none, some, List, [], ◌∷◌,
  arith, ok, err, ◌>>=◌, ◌>>◌, >>=-eq-ok, Result-cases, subst, require-eq-ok, ok_injective, ◌∙◌, ap,
  ==_iff, ◌==◌, leb, ltb, ◌&&◌, ◌||◌, All, length,
}
use drand_quicknet_evm.Text.{Text, text_eq, has, lower, same}
use drand_quicknet_evm.Text.Equality.{text_eq→eq, has→Fresh}
use drand_quicknet_evm.Journal.{
  JournalIdentity, JournalSignedTransaction, TransactionJournalSnapshot,
}
use drand_quicknet_evm.Journal.Value.{max_safe_integer, identity_value, snapshot_value}
use drand_quicknet_evm.Journal.Queue.{DistinctFrom, Distinct, hashes, DistinctFrom→Distinct}
use drand_quicknet_evm.Journal.Snapshot.{IsJournal}
use drand_quicknet_evm.Journal.Validation.Same.{validate-same}
use drand_quicknet_evm.Journal.Validation.Laws.{validate-IsJournal}
use drand_quicknet_evm.Journal.Validation.Structure.{validate_journal_snapshot_structure}
use drand_quicknet_evm.Journal.Verification.{
  Viem, ParsedTransaction, Verified, VerificationError, defined, invalid_signed_transaction,
  invalid_journal_snapshot, require_valid, is_supported, without_fees, secp256k1_order,
  verify_signed_transaction, verify_transactions, verify_journal_attempt, verify_attempts,
  verify_journal_snapshot,
}

defined-eq-ok :
    {A B : Type 0} (o : Option A) (f : A → Verified B) {b : B}
    → (defined o >>= f) ≡ ok b
    → (a : A) × (o ≡ some a) × (f a ≡ ok b)
defined-eq-ok none f h = cc
defined-eq-ok (some a) f h = (a, refl, h)

passed :
    {A : Type 0} (test : Bool) (m : Verified A) {a : A}
    → (require_valid test >> m) ≡ ok a
    → (test ≡ true) × (m ≡ ok a)
passed test m h = require-eq-ok test invalid_signed_transaction m h

low_s_range :
    (r s : ℕ)
    → (ltb 0 r && ltb r secp256k1_order && ltb 0 s && leb s (secp256k1_order / 2)) ≡ true
    → (0 < s) × (s ≤ secp256k1_order / 2)
low_s_range r s h = ground arith

module _ (viem : Viem) where
  -- The transaction decodes to one of the chain and nonce, signed by the signer with a low `s`,
  -- and its call without fees encodes to `intent`.
  pub record Belongs (identity : JournalIdentity) (nonce : ℕ) (intent : Text)
      (tx : JournalSignedTransaction) : Type 0 where
    pub parsed : ParsedTransaction
    pub encoded : Text
    pub signer : Text
    pub call : Text
    pub s : ℕ
    pub hashed : same (viem.keccak256 tx.signed_transaction) tx.transaction_hash ≡ true
    pub decodes : viem.parse_transaction tx.signed_transaction ≡ some parsed
    pub on_chain : parsed.chain_id ≡ some identity.chain_id
    pub at_nonce : parsed.nonce ≡ some nonce
    pub has_s : parsed.signature.s ≡ some s
    pub low_s : (0 < s) × (s ≤ secp256k1_order / 2)
    pub encodes : viem.serialize_transaction parsed ≡ some encoded
    pub canonical : same encoded tx.signed_transaction ≡ true
    pub recovers : viem.recover_transaction_address encoded ≡ some signer
    pub signed_by : same signer identity.signer ≡ true
    pub calls : viem.serialize_transaction (without_fees parsed) ≡ some call
    pub same_call : lower call ≡ intent

  verify_signed_transaction-Belongs :
      (identity : JournalIdentity) (nonce : ℕ) (tx : JournalSignedTransaction) (intent : Text)
      → verify_signed_transaction viem identity nonce tx ≡ ok intent
      → Belongs identity nonce intent tx
  unfolding verify_signed_transaction
  verify_signed_transaction-Belongs identity nonce tx intent h =
      let (hashed, h) =
        passed (same (viem.keccak256 tx.signed_transaction) tx.transaction_hash) _ h in
      let (t, decodes, h) = defined-eq-ok (viem.parse_transaction tx.signed_transaction) _ h in
      let (_, h) = passed (is_supported t.type) _ h in
      let (chain, on_chain, h) = defined-eq-ok t.chain_id _ h in
      let (chain_eq, h) = passed (chain == identity.chain_id) _ h in
      let (n, at_nonce, h) = defined-eq-ok t.nonce _ h in
      let (_, h) = passed (leb n max_safe_integer) _ h in
      let (n_eq, h) = passed (n == nonce) _ h in
      let (r, _, h) = defined-eq-ok t.signature.r _ h in
      let (s, has_s, h) = defined-eq-ok t.signature.s _ h in
      let (range, h) =
        passed (ltb 0 r && ltb r secp256k1_order && ltb 0 s && leb s (secp256k1_order / 2)) _ h in
      let (y, _, h) = defined-eq-ok t.signature.y_parity _ h in
      let (_, h) = passed (y == 0 || y == 1) _ h in
      let (encoded, encodes, h) = defined-eq-ok (viem.serialize_transaction t) _ h in
      let (canonical, h) = passed (same encoded tx.signed_transaction) _ h in
      let (signer, recovers, h) = defined-eq-ok (viem.recover_transaction_address encoded) _ h in
      let (signed_by, h) = passed (same signer identity.signer) _ h in
      let (call, calls, h) =
        defined-eq-ok (viem.serialize_transaction (without_fees t)) (λ c. ok (lower c)) h in
      record {
        parsed = t;
        encoded = encoded;
        signer = signer;
        call = call;
        s = s;
        hashed = hashed;
        decodes = decodes;
        on_chain = on_chain ∙ ap some ((==_iff chain identity.chain_id).0 chain_eq);
        at_nonce = at_nonce ∙ ap some ((==_iff n nonce).0 n_eq);
        has_s = has_s;
        low_s = low_s_range r s range;
        encodes = encodes;
        canonical = canonical;
        recovers = recovers;
        signed_by = signed_by;
        calls = calls;
        same_call = ok_injective (lower call) intent h;
      }

  verify_transactions-Belongs :
      (identity : JournalIdentity) (nonce : ℕ) (seen : List Text) (first : Text)
      (txs : List JournalSignedTransaction)
      → verify_transactions viem identity nonce seen (some first) txs ≡ ok tt
      → All (Belongs identity nonce first) txs × DistinctFrom seen (hashes txs)
  unfolding verify_transactions
  verify_transactions-Belongs identity nonce seen first [] h = (tt, tt)
  verify_transactions-Belongs identity nonce seen first (tx ∷ txs) h =
      let (fresh, h) = passed (not (has (lower tx.transaction_hash) seen)) _ h in
      let (intent, e, h) = >>=-eq-ok (verify_signed_transaction viem identity nonce tx) _ h in
      let (same_intent, h) = passed (text_eq intent first) _ h in
      let (all, distinct) =
        verify_transactions-Belongs identity nonce (lower tx.transaction_hash ∷ seen) first txs h in
      let b =
        verify_signed_transaction-Belongs identity nonce tx first
          (e ∙ ap ok (text_eq→eq intent first same_intent)) in
      ((b, all), (has→Fresh (lower tx.transaction_hash) seen (ground arith), distinct))

  -- An attempt that verifies has a transaction or more, no hash twice, and one call: each of them
  -- decodes to a transaction of the chain and the nonce, signed by the signer with a low `s`, whose
  -- encoding without fees and signature is that call.
  pub verify_journal_attempt-Belongs :
      (identity : JournalIdentity) (nonce : ℕ) (txs : List JournalSignedTransaction)
      → verify_journal_attempt viem identity nonce txs ≡ ok tt
      → (intent : Text) × All (Belongs identity nonce intent) txs
        × Distinct (hashes txs)
        × (0 < length txs)
  unfolding verify_journal_attempt verify_transactions
  verify_journal_attempt-Belongs identity nonce [] h = absurd (cc)
  verify_journal_attempt-Belongs identity nonce (tx ∷ txs) h =
      let (intent, e, h) = >>=-eq-ok (verify_signed_transaction viem identity nonce tx) _ h in
      let (all, distinct) =
        verify_transactions-Belongs identity nonce (lower tx.transaction_hash ∷ []) intent txs h in
      (
        intent,
        (verify_signed_transaction-Belongs identity nonce tx intent e, all),
        (DistinctFrom→Distinct [] (hashes (tx ∷ txs)) (tt, distinct)).1,
        omega arith,
      )

  -- The snapshot passes verification for this identity.
  abbrev pub Accepted : JournalIdentity → TransactionJournalSnapshot → Type 0
  Accepted identity s = verify_journal_snapshot viem (snapshot_value s) identity ≡ ok s

  -- Verification gives back the snapshot that it was given, a well-formed journal of the identity,
  -- or throws.
  pub verify_cases :
      (identity : JournalIdentity) (s : TransactionJournalSnapshot)
      → Accepted identity s × IsJournal identity s
        ⊎ ((e : VerificationError) × (verify_journal_snapshot viem (snapshot_value s) identity
              ≡ err e))
  unfolding verify_journal_snapshot
  verify_cases identity s =
      elim (Result-cases
        (validate_journal_snapshot_structure (snapshot_value s) (identity_value identity))) [
          | inr (e, h) ↦ inr (invalid_journal_snapshot, ground (arith, h))
          | inl (t, h) ↦
              let h' =
                subst
                  (λ t.
                    validate_journal_snapshot_structure (snapshot_value s) (identity_value identity)
                    ≡ ok t)
                  (validate-same s (identity_value identity) t h) h in
              elim (Result-cases (verify_attempts viem s.identity s.attempts)) [
                | inr (e, v) ↦ inr (e, ground (arith, h', v))
                | inl (_, v) ↦
                    inl (ground (arith, h', v), validate-IsJournal identity (snapshot_value s) s h')
              ]
        ]

  -- An accepted snapshot is a well-formed journal of the identity.
  pub Accepted-IsJournal :
      (identity : JournalIdentity) (s : TransactionJournalSnapshot)
      → Accepted identity s
      → IsJournal identity s
  Accepted-IsJournal identity s h = elim (verify_cases identity s) [
    | inl (_, journal) ↦ journal
    | inr (e, refused) ↦ absurd (cc)
  ]
