-- ===== src/NonceSync.antt =====
-- apps/relayer/src/state/plan-nonce-sync.ts: whether an empty journal may adopt a higher nonce that
-- the chain shows, and the journal that does.
pub mod Repairs
pub mod Laws
use drand_quicknet_evm.Base.{
  ℕ, ◌==◌, ◌&&◌, ◌||◌, not, Bool, true, false, Option, none, some, List, [], ◌∷◌, ◌++◌, ltb,
  if◌then◌else◌, Result, ok, err, ◌>>=◌, ◌>>◌, require, length, take_last, last?,
}
use drand_quicknet_evm.Text.{Text, same}
use drand_quicknet_evm.Text.Iso.{is_iso_timestamp}
use drand_quicknet_evm.Journal.{
  JournalIdentity, AnchoredNonceObservation, JournalNonceRepair, TransactionJournalSnapshot,
  max_retained_nonce_repairs,
}
use drand_quicknet_evm.Journal.Value.{
  ValidationError, snapshot_value, identity_value, observation_value,
}
use drand_quicknet_evm.Journal.Check.{is_uint}
use drand_quicknet_evm.Journal.Validation.{read_observation}
use drand_quicknet_evm.Journal.Validation.Structure.{validate_journal_snapshot_structure}

pub record PlanNonceSyncOptions : Type 0 where
  pub snapshot : TransactionJournalSnapshot
  pub identity : JournalIdentity
  pub observation : AnchoredNonceObservation
  pub latest_nonce : ℕ
  pub pending_nonce : ℕ
  pub time : Text

pub data NonceSyncRefusal : Type 0 where
  retained_attempts nonce_regression anchor_regression anchor_conflict : NonceSyncRefusal

-- The repair is the last one of the journal's, which an empty list would not have.
pub data NonceSyncPlan : Type 0 where
  already_synchronized deferred : NonceSyncPlan
  refused : NonceSyncRefusal → NonceSyncPlan
  repair_available : Option JournalNonceRepair → TransactionJournalSnapshot → NonceSyncPlan

pub data NonceSyncError : Type 0 where
  invalid_input : ValidationError → NonceSyncError
  invalid_count invalid_timestamp : NonceSyncError

abbrev pub read : {A : Type 0} → Result ValidationError A → Result NonceSyncError A
read (ok a) = ok a
read (err e) = err (invalid_input e)

-- The tests that refuse a repair, in the order of the code.
unfoldable pub refusal :
    TransactionJournalSnapshot → AnchoredNonceObservation → Option NonceSyncRefusal
refusal s o =
    let previous = s.last_observation in
    if not (length s.attempts == 0)
    then some retained_attempts
    else if ltb o.anchor.block_number previous.anchor.block_number
    then some anchor_regression
    else if o.anchor.block_number == previous.anchor.block_number
        && not (same o.anchor.block_hash previous.anchor.block_hash)
    then some anchor_conflict
    else if ltb o.nonce s.next_nonce || ltb o.nonce previous.nonce
    then some nonce_regression
    else none

abbrev pub repair_of :
    Text → TransactionJournalSnapshot → AnchoredNonceObservation → JournalNonceRepair
repair_of time s o = record {
  time = time;
  previous_next_nonce = s.next_nonce;
  next_nonce = o.nonce;
  observation = o;
}

-- The journal after the repair, with the latest repairs only.
abbrev pub repaired :
    Text → TransactionJournalSnapshot → AnchoredNonceObservation → TransactionJournalSnapshot
repaired time s o = record s {
  last_observation = o;
  next_nonce = o.nonce;
  durable_next_nonce = o.nonce;
  repairs = take_last max_retained_nonce_repairs (s.repairs ++ (repair_of time s o ∷ []));
}

unfoldable pub repair :
    PlanNonceSyncOptions
    → TransactionJournalSnapshot
    → AnchoredNonceObservation
    → Result NonceSyncError NonceSyncPlan
repair options current o = do
  next ← read (
      validate_journal_snapshot_structure (snapshot_value (repaired options.time current o))
        (identity_value options.identity))
  ok (repair_available (last? next.repairs) next)

-- The plan for a journal and an observation that have been read.
unfoldable pub decide :
    PlanNonceSyncOptions
    → TransactionJournalSnapshot
    → AnchoredNonceObservation
    → Result NonceSyncError NonceSyncPlan
decide options current o = elim (refusal current o) [
  | some reason ↦ ok (refused reason)
  | none ↦
      if not (o.nonce == options.latest_nonce) || not (o.nonce == options.pending_nonce)
      then ok deferred
      else if o.nonce == current.next_nonce
      then ok already_synchronized
      else repair options current o
]

-- `planNonceSync`
unfoldable pub plan_nonce_sync : PlanNonceSyncOptions → Result NonceSyncError NonceSyncPlan
plan_nonce_sync options = do
  current ← read (
      validate_journal_snapshot_structure (snapshot_value options.snapshot)
        (identity_value options.identity))
  o ← read (read_observation (observation_value options.observation))
  require (is_uint options.latest_nonce) invalid_count
  require (is_uint options.pending_nonce) invalid_count
  require (is_iso_timestamp options.time) invalid_timestamp
  decide options current o
