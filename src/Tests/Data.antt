-- ===== src/Tests/Data.antt =====
-- A signer with one prepared attempt, and stand-ins for the libraries, for the examples.
use drand_quicknet_evm.Base.{ℕ, ◌+◌, some, none, List, [], ◌∷◌, length}
use drand_quicknet_evm.Text.{Text, codes}
use drand_quicknet_evm.Journal.{
  BlockAnchor, JournalIdentity, AnchoredNonceObservation, JournalSignedTransaction, signed,
  broadcast_may_have_occurred, JournalAttempt, TransactionJournalSnapshot,
}
use drand_quicknet_evm.Journal.Verification.{Viem, ParsedTransaction, eip1559}

abbrev pub hash : Text
hash = codes "0xabababababababababababababababababababababababababababababababab"

abbrev pub block_hash : Text
block_hash = codes "0xcdcdcdcdcdcdcdcdcdcdcdcdcdcdcdcdcdcdcdcdcdcdcdcdcdcdcdcdcdcdcdcd"

abbrev pub signed_bytes : Text
signed_bytes =
    codes "0x02020202020202020202020202020202020202020202020202020202020202020202020202020202"

abbrev pub identity : JournalIdentity
identity = record { chain_id = 84532; signer = codes "0x7070707070707070707070707070707070707070" }

abbrev pub anchor : BlockAnchor
anchor = record { block_number = 100; block_hash = block_hash }

abbrev pub observation : AnchoredNonceObservation
observation = record { anchor = anchor; nonce = 5 }

abbrev pub transaction : JournalSignedTransaction
transaction = record { transaction_hash = hash; signed_transaction = signed_bytes }

abbrev pub attempt : JournalAttempt
attempt = record {
  attempt_id = codes "0f8fad5b-d9cb-469f-a165-70867728950e";
  work_id = codes "fulfill:7";
  nonce = 5;
  created_at = codes "2025-11-26T10:06:36.000Z";
  first_transaction = transaction;
  replacements = [];
  replacement_search = some (record { lower_bound = observation; searched_through = none });
  phase = signed;
}

-- A journal from this baseline, without repairs.
abbrev pub journal_at :
    AnchoredNonceObservation → ℕ → List JournalAttempt → TransactionJournalSnapshot
journal_at last durable queue = record {
  identity = identity;
  baseline = observation;
  last_observation = last;
  next_nonce = durable + length queue;
  durable_next_nonce = durable;
  repairs = [];
  attempts = queue;
}

abbrev pub empty_journal : TransactionJournalSnapshot
empty_journal = journal_at observation 5 []

abbrev pub journal : TransactionJournalSnapshot
journal = journal_at observation 5 (attempt ∷ [])

abbrev pub sent_attempt : JournalAttempt
sent_attempt = record attempt { phase = broadcast_may_have_occurred }

abbrev pub sent_journal : TransactionJournalSnapshot
sent_journal = journal_at observation 5 (sent_attempt ∷ [])

-- The observation after the transaction was included.
abbrev pub later : AnchoredNonceObservation
later = record { anchor = record { block_number = 120; block_hash = hash }; nonce = 6 }

abbrev pub resolved_journal : TransactionJournalSnapshot
resolved_journal = journal_at later 6 []

abbrev pub parsed : ParsedTransaction
parsed = record {
  type = eip1559;
  chain_id = some 84532;
  nonce = some 5;
  gas_price = none;
  max_fee_per_gas = some 100;
  max_priority_fee_per_gas = some 1;
  call = codes "call";
  signature = record { r = some 7; s = some 9; v = none; y_parity = some 1 };
}

-- A viem that knows one transaction.
abbrev pub viem : Viem
viem = record {
  keccak256 = λ _. hash;
  parse_transaction = λ _. some parsed;
  serialize_transaction = λ _. some signed_bytes;
  recover_transaction_address = λ _. some identity.signer;
}
