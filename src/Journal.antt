-- ===== src/Journal.antt =====
-- The data of the transaction journal: apps/relayer/src/state/transaction-journal.ts, with
-- BlockAnchor of chain/block-anchor.ts. Strings are their code units; a nonce or a block number is
-- a `bigint`, and a value of these types has passed the range tests of Journal/Validation.
pub mod Value
pub mod Check
pub mod Validation
pub mod Queue
pub mod Snapshot
pub mod Verification
use drand_quicknet_evm.Base.{
  ℕ, ◌==◌, ◌&&◌, Bool, true, false, Option, List, map, ◌∷◌, [], any, not, ◌++◌,
}
use drand_quicknet_evm.Text.{Text, same}

pub record BlockAnchor : Type 0 where
  pub block_number : ℕ
  pub block_hash : Text

-- `blockAnchorsMatch`
unfoldable pub block_anchors_match : BlockAnchor → BlockAnchor → Bool
block_anchors_match a b = a.block_number == b.block_number && same a.block_hash b.block_hash

pub record JournalIdentity : Type 0 where
  pub chain_id : ℕ
  pub signer : Text

pub record AnchoredNonceObservation : Type 0 where
  pub anchor : BlockAnchor
  pub nonce : ℕ

abbrev pub max_retained_nonce_repairs : ℕ
max_retained_nonce_repairs = 8

-- The field `kind` is always 'sync-nonce'.
pub record JournalNonceRepair : Type 0 where
  pub time : Text
  pub previous_next_nonce : ℕ
  pub next_nonce : ℕ
  pub observation : AnchoredNonceObservation

pub record ReplacementSearch : Type 0 where
  pub lower_bound : AnchoredNonceObservation
  pub searched_through : Option BlockAnchor

pub record JournalSignedTransaction : Type 0 where
  pub transaction_hash : Text
  pub signed_transaction : Text

pub data InclusionOutcome : Type 0 where
  success : Text → InclusionOutcome
  reverted : Text → InclusionOutcome
  replaced : Text → ℕ → InclusionOutcome

pub record JournalInclusionObservation : Type 0 where
  pub inclusion : BlockAnchor
  pub observed_at : BlockAnchor
  pub outcome : InclusionOutcome

-- The phase with the inclusion that it carries: `null` but in the last.
pub data Phase : Type 0 where
  signed : Phase
  broadcast_may_have_occurred : Phase
  included : JournalInclusionObservation → Phase

-- The signed transactions, of which there is at least one.
pub record JournalAttempt : Type 0 where
  pub attempt_id : Text
  pub work_id : Text
  pub nonce : ℕ
  pub created_at : Text
  pub first_transaction : JournalSignedTransaction
  pub replacements : List JournalSignedTransaction
  pub replacement_search : Option ReplacementSearch
  pub phase : Phase

abbrev pub signed_transactions : JournalAttempt → List JournalSignedTransaction
signed_transactions a = a.first_transaction ∷ a.replacements

-- `attempt.phase !== 'included'`
abbrev pub is_unresolved : JournalAttempt → Bool
is_unresolved a = elim a.phase [ included _ ↦ false | _ ↦ true ]

-- The field `version` is always 1.
pub record TransactionJournalSnapshot : Type 0 where
  pub identity : JournalIdentity
  pub baseline : AnchoredNonceObservation
  pub last_observation : AnchoredNonceObservation
  pub next_nonce : ℕ
  pub durable_next_nonce : ℕ
  pub repairs : List JournalNonceRepair
  pub attempts : List JournalAttempt

pub data TransactionJournalRead : Type 0 where
  missing : TransactionJournalRead
  present : TransactionJournalSnapshot → TransactionJournalRead

-- One of these transactions has the hash, up to letter case.
abbrev pub contains_hash : List JournalSignedTransaction → Text → Bool
contains_hash txs hash = any (λ tx. same tx.transaction_hash hash) txs

-- Every signed transaction of a queue, in order.
abbrev pub all_signed : List JournalAttempt → List Text
all_signed [] = []
all_signed (a ∷ rest) = map (λ tx. tx.signed_transaction) (signed_transactions a) ++ all_signed rest
