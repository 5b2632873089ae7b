-- ===== src/Journal/Value.antt =====
-- JavaScript values as the journal's readers meet them (`unknown`): `field` and `ownValue` of
-- apps/relayer/src/state/transaction-journal-validation.ts, and the values of the journal's types.
use text.Mathlib.Text.{◌==◌ as str_eq}
use drand_quicknet_evm.Base.{
  ℕ, ◌-◌, ◌^◌, String, Bool, false, ◌&&◌, Option, none, some, List, [], ◌∷◌, ltb, leb,
  if◌then◌else◌, Result, ok, err,
}
use drand_quicknet_evm.Text.{Text, codes}
use drand_quicknet_evm.Journal.{
  BlockAnchor, JournalIdentity, AnchoredNonceObservation, JournalNonceRepair, ReplacementSearch,
  JournalSignedTransaction, InclusionOutcome, success, reverted, replaced,
  JournalInclusionObservation, Phase, signed, broadcast_may_have_occurred, included, JournalAttempt,
  signed_transactions, TransactionJournalSnapshot,
}

pub data ValidationError : Type 0 where
  invalid_snapshot invalid_repairs : ValidationError

-- `num` is a whole number that is not negative, and `other_num` any other number. `trapped` is an
-- object whose `getOwnPropertyDescriptor` throws. A `hole` is an index with no data property, and a
-- `getter` a property that is not a data property.
mutual
  pub data Value : Type 0 where
    undefined null other_num trapped other : Value
    bool : Bool → Value
    num : ℕ → Value
    bigint : ℕ → Value
    negative_bigint : ℕ → Value
    str : Text → Value
    arr : Items → Value
    obj : Fields → Value

  pub data Items : Type 0 where
    nil : Items
    cons : Value → Items → Items
    hole : Items → Items

  pub data Fields : Type 0 where
    end : Fields
    entry : String → Value → Fields → Fields
    getter : String → Fields → Fields

abbrev pub own_value : Fields → String → Result ValidationError Value
own_value end name = err invalid_snapshot
own_value (entry key v rest) name = if str_eq key name then ok v else own_value rest name
own_value (getter key rest) name =
    if str_eq key name then err invalid_snapshot else own_value rest name

unfoldable pub field : Value → String → Result ValidationError Value
field (obj fields) name = own_value fields name
field _ name = err invalid_snapshot

abbrev pub max_safe_integer : ℕ
max_safe_integer = 2 ^ 53 - 1

abbrev pub max_uint256 : ℕ
max_uint256 = 2 ^ 256 - 1

abbrev pub is_non_negative_safe_integer : Value → Bool
is_non_negative_safe_integer (num n) = leb n max_safe_integer
is_non_negative_safe_integer _ = false

abbrev pub is_positive_safe_integer : Value → Bool
is_positive_safe_integer (num n) = ltb 0 n && leb n max_safe_integer
is_positive_safe_integer _ = false

-- The objects that stand for values of the journal's types.
abbrev pub array {ℓ} : {A : Type ℓ} → (A → Value) → List A → Items
array f [] = nil
array f (x ∷ xs) = cons (f x) (array f xs)

abbrev pub nullable {ℓ} : {A : Type ℓ} → (A → Value) → Option A → Value
nullable f none = null
nullable f (some x) = f x

abbrev pub anchor_value : BlockAnchor → Value
anchor_value a =
    obj (entry "blockNumber" (bigint a.block_number) (entry "blockHash" (str a.block_hash) end))

abbrev pub identity_value : JournalIdentity → Value
identity_value i = obj (entry "chainId" (num i.chain_id) (entry "signer" (str i.signer) end))

abbrev pub observation_value : AnchoredNonceObservation → Value
observation_value o =
    obj (entry "anchor" (anchor_value o.anchor) (entry "nonce" (bigint o.nonce) end))

abbrev pub repair_value : JournalNonceRepair → Value
repair_value r = obj (
    entry "kind" (str (codes "sync-nonce")) (
      entry "at" (str r.time) (
        entry "previousNextNonce" (bigint r.previous_next_nonce) (
          entry "nextNonce" (bigint r.next_nonce)
            (entry "observation" (observation_value r.observation) end)))))

abbrev pub search_value : ReplacementSearch → Value
search_value s = obj (
    entry "lowerBound" (observation_value s.lower_bound)
      (entry "searchedThrough" (nullable anchor_value s.searched_through) end))

abbrev pub transaction_value : JournalSignedTransaction → Value
transaction_value t = obj (
    entry "transactionHash" (str t.transaction_hash)
      (entry "signedTransaction" (str t.signed_transaction) end))

abbrev pub outcome_name : InclusionOutcome → Text
outcome_name (success _) = codes "success"
outcome_name (reverted _) = codes "reverted"
outcome_name (replaced _ _) = codes "replaced"

abbrev outcome_fields : InclusionOutcome → Fields
outcome_fields (success hash) = entry "transactionHash" (str hash) end
outcome_fields (reverted hash) = entry "transactionHash" (str hash) end
outcome_fields (replaced hash nonce) =
    entry "replacementTransactionHash" (str hash) (entry "nonceAtAnchor" (bigint nonce) end)

abbrev pub inclusion_value : JournalInclusionObservation → Value
inclusion_value i = obj (
    entry "inclusion" (anchor_value i.inclusion) (
      entry "observedAt" (anchor_value i.observed_at)
        (entry "outcome" (str (outcome_name i.outcome)) (outcome_fields i.outcome))))

abbrev pub phase_name : Phase → Text
phase_name signed = codes "signed"
phase_name broadcast_may_have_occurred = codes "broadcast-may-have-occurred"
phase_name (included _) = codes "included"

abbrev pub phase_inclusion : Phase → Value
phase_inclusion (included i) = inclusion_value i
phase_inclusion _ = null

abbrev pub attempt_value : JournalAttempt → Value
attempt_value a = obj (
    entry "attemptId" (str a.attempt_id) (
      entry "workId" (str a.work_id) (
        entry "nonce" (bigint a.nonce) (
          entry "createdAt" (str a.created_at) (
            entry "signedTransactions" (arr (array transaction_value (signed_transactions a))) (
              entry "replacementSearch" (nullable search_value a.replacement_search) (
                entry "phase" (str (phase_name a.phase))
                  (entry "inclusion" (phase_inclusion a.phase) end))))))))

abbrev pub snapshot_value : TransactionJournalSnapshot → Value
snapshot_value s = obj (
    entry "version" (num 1) (
      entry "identity" (identity_value s.identity) (
        entry "baseline" (observation_value s.baseline) (
          entry "lastObservation" (observation_value s.last_observation) (
            entry "nextNonce" (bigint s.next_nonce) (
              entry "durableNextNonce" (bigint s.durable_next_nonce) (
                entry "repairs" (arr (array repair_value s.repairs))
                  (entry "attempts" (arr (array attempt_value s.attempts)) end))))))))
