-- ===== src/Chain.antt =====
-- What the relayer asks of a node: apps/relayer/src/chain. The client is viem's `PublicClient`, a
-- parameter. It answers at a moment, and may answer otherwise at another; of two calls in the source
-- the later one stands at the later moment.
pub mod Anchor
pub mod Nonce
pub mod Receipt
pub mod Search
pub mod Recovery
pub mod Inclusion
pub mod Inclusions
pub mod Heads
pub mod Policy
use drand_quicknet_evm.Base.{ℕ, Option, List, Result}
use drand_quicknet_evm.Text.{Text}
use drand_quicknet_evm.Journal.Value.{Value, ValidationError}

pub data ChainError : Type 0 where
  rpc_failed invalid_anchor_response invalid_nonce_input invalid_nonce_response : ChainError
  invalid_receipt_input invalid_receipt_response invalid_evidence : ChainError
  conflicting_receipts invalid_search_input invalid_search_anchor : ChainError
  invalid_search_boundary invalid_search_lower_bound invalid_search_block : ChainError
  invalid_search_transaction multiple_matches invalid_recovery_input : ChainError
  invalid_recheck_input inconsistent_receipt invalid_inclusion_input : ChainError
  durable_ahead chain_mismatch : ChainError
  invalid_finality_policy invalid_poll_interval : ChainError
  validation : ValidationError → ChainError

abbrev pub Checked : Type 0 → Type 0
Checked A = Result ChainError A

-- A response as viem types it. A field of another type than its own is one that fails the same test:
-- a text that is not hexadecimal, a number that is not a safe integer, a block number that is absent.
pub record RpcTransaction : Type 0 where
  pub hash : Text
  pub sender : Text
  pub nonce : ℕ

pub record RpcBlock : Type 0 where
  pub number : Option ℕ
  pub hash : Text
  pub parent_hash : Text
  pub transactions : List RpcTransaction

pub data ReceiptStatus : Type 0 where
  succeeded failed unknown : ReceiptStatus

pub record RpcReceipt : Type 0 where
  pub transaction_hash : Text
  pub block_number : Option ℕ
  pub block_hash : Text
  pub status : ReceiptStatus

-- `getTransactionReceipt` throws `TransactionReceiptNotFoundError` or another error, or returns.
pub data ReceiptReply : Type 0 where
  receipt_missing receipt_failed : ReceiptReply
  receipt_found : RpcReceipt → ReceiptReply

pub data CountAt : Type 0 where
  at_block : ℕ → CountAt
  at_latest at_pending : CountAt

pub data BlockTag : Type 0 where
  at_safe at_finalized : BlockTag

-- Calls at a moment; `none` is a call that throws.
pub record Client : Type 0 where
  pub get_block : ℕ → ℕ → Option RpcBlock
  pub get_transaction_count : ℕ → Text → CountAt → Option Value
  pub get_transaction_receipt : ℕ → Text → ReceiptReply
  pub get_block_number : ℕ → Option ℕ
  -- The number of the block with a tag.
  pub get_tagged_block : ℕ → BlockTag → Option ℕ
  pub get_chain_id : ℕ → Option ℕ
