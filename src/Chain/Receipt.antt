-- ===== src/Chain/Receipt.antt =====
-- apps/relayer/src/chain/reconcile-attempt-receipt.ts: the receipts of every recorded transaction of
-- an attempt, under one anchor.
pub mod Verified
use drand_quicknet_evm.Base.{
  ℕ, ◌+◌, ◌*◌, ◌==◌, ◌&&◌, not, Bool, true, false, Option, none, some, List, [], ◌∷◌, Result, ok,
  err, ◌>>=◌, ◌>>◌, require, ltb, length, if◌then◌else◌,
}
use drand_quicknet_evm.Text.{Text, is_fixed_hex, same, has, lower}
use drand_quicknet_evm.Journal.{
  BlockAnchor, block_anchors_match, InclusionOutcome, success, reverted,
}
use drand_quicknet_evm.Coordinator.{AttemptResolutionEvidence}
use drand_quicknet_evm.Coordinator.Evidence.{is_resolution_evidence}
use drand_quicknet_evm.Chain.{
  Client, ReceiptStatus, succeeded, failed, unknown, RpcReceipt, receipt_missing, receipt_failed,
  receipt_found, Checked, rpc_failed, invalid_receipt_input, invalid_receipt_response,
  invalid_evidence, conflicting_receipts,
}
use drand_quicknet_evm.Chain.Anchor.{get_block_anchor, check_block_anchor}

-- `included_not_durable` has the hash, the outcome with it, and the block of the inclusion.
pub data AttemptReceiptResult : Type 0 where
  verified : AttemptResolutionEvidence → AttemptReceiptResult
  receipt_not_found : AttemptReceiptResult
  anchor_changed : BlockAnchor → AttemptReceiptResult
  included_not_durable : InclusionOutcome → BlockAnchor → AttemptReceiptResult
  fork_served_receipt : BlockAnchor → BlockAnchor → AttemptReceiptResult

-- The outcome that a receipt of this transaction tells, if its status is known.
abbrev pub receipt_outcome : ReceiptStatus → Text → Option InclusionOutcome
receipt_outcome succeeded hash = some (success hash)
receipt_outcome failed hash = some (reverted hash)
receipt_outcome unknown hash = none

abbrev pub is_about : RpcReceipt → Text → Bool
is_about r hash =
    is_fixed_hex r.transaction_hash 32
    && same r.transaction_hash hash
    && is_fixed_hex r.block_hash 32

-- The block that a receipt names, and the outcome.
unfoldable pub read_inclusion : RpcReceipt → Text → Checked (BlockAnchor × InclusionOutcome)
read_inclusion r hash = elim r.block_number [
  | none ↦ err invalid_receipt_response
  | some number ↦ elim (receipt_outcome r.status hash) [
    | none ↦ err invalid_receipt_response
    | some outcome ↦ do
      require (is_about r hash) invalid_receipt_response
      ok (record { block_number = number; block_hash = r.block_hash }, outcome)
  ]
]

-- What an inclusion says under the anchor, given the block that is canonical at its number.
unfoldable pub classify_inclusion :
    BlockAnchor → BlockAnchor → InclusionOutcome → BlockAnchor → Checked AttemptReceiptResult
classify_inclusion anchor inclusion outcome canonical =
    let evidence : AttemptResolutionEvidence = record {
      anchor = anchor;
      inclusion = inclusion;
      outcome = outcome;
    } in
    if block_anchors_match inclusion canonical
    then (if ltb anchor.block_number inclusion.block_number
        then ok (included_not_durable outcome inclusion)
        else require (is_resolution_evidence evidence) invalid_evidence >> ok (verified evidence))
    else ok (fork_served_receipt inclusion canonical)

-- `readReceipt`: two calls at most.
unfoldable pub read_receipt : Client → ℕ → Text → BlockAnchor → Checked AttemptReceiptResult
read_receipt client moment hash anchor = elim (client.get_transaction_receipt moment hash) [
  | receipt_missing ↦ ok receipt_not_found
  | receipt_failed ↦ err rpc_failed
  | receipt_found r ↦ do
    read ← read_inclusion r hash
    canonical ← get_block_anchor client (moment + 1) read.0.block_number
    classify_inclusion anchor read.0 read.1 canonical
]

-- What the loop over the hashes has found.
pub record ReceiptsFound : Type 0 where
  pub included : Option AttemptReceiptResult
  pub fork : Option AttemptReceiptResult
  pub conflicting : Bool

abbrev pub nothing_found : ReceiptsFound
nothing_found = record { included = none; fork = none; conflicting = false }

abbrev first_of : Option AttemptReceiptResult → AttemptReceiptResult → Option AttemptReceiptResult
first_of none result = some result
first_of (some earlier) _ = some earlier

abbrev is_some_result : Option AttemptReceiptResult → Bool
is_some_result none = false
is_some_result (some _) = true

abbrev add_included : AttemptReceiptResult → ReceiptsFound → ReceiptsFound
add_included result found =
    if is_some_result found.included
    then record found { conflicting = true }
    else record found { included = some result }

unfoldable pub add_receipt : AttemptReceiptResult → ReceiptsFound → ReceiptsFound
add_receipt (verified evidence) found = add_included (verified evidence) found
add_receipt (included_not_durable o b) found = add_included (included_not_durable o b) found
add_receipt (fork_served_receipt b c) found = record found {
  fork = first_of found.fork (fork_served_receipt b c);
}
add_receipt _ found = found

unfoldable pub read_receipts :
    Client → ℕ → BlockAnchor → List Text → ReceiptsFound → Checked ReceiptsFound
read_receipts client moment anchor [] found = ok found
read_receipts client moment anchor (hash ∷ rest) found = do
  result ← read_receipt client moment hash anchor
  read_receipts client (moment + 2) anchor rest (add_receipt result found)

-- Each hash is one of 32 bytes, and none stands twice.
unfoldable pub are_hashes : List Text → List Text → Bool
are_hashes [] seen = true
are_hashes (hash ∷ rest) seen =
    is_fixed_hex hash 32 && not (has (lower hash) seen) && are_hashes rest (lower hash ∷ seen)

abbrev pub is_empty_list : List Text → Bool
is_empty_list [] = true
is_empty_list (_ ∷ _) = false

-- `included ?? fork ?? { status: 'receipt-not-found' }`
abbrev pub best_receipt : ReceiptsFound → AttemptReceiptResult
best_receipt found = elim found.included [
  | some result ↦ result
  | none ↦ elim found.fork [ some result ↦ result | none ↦ receipt_not_found ]
]

unfoldable pub conclude_receipts :
    Client → ℕ → BlockAnchor → ReceiptsFound → Checked AttemptReceiptResult
conclude_receipts client moment anchor found = do
  after ← check_block_anchor client moment anchor
  elim after [
    | some observed ↦ ok (anchor_changed observed)
    | none ↦ require (not found.conflicting) conflicting_receipts >> ok (best_receipt found)
  ]

-- `reconcileAttemptReceipt`: two calls for the anchor, and two at most for each hash.
unfoldable pub reconcile_attempt_receipt :
    Client → ℕ → List Text → BlockAnchor → Checked AttemptReceiptResult
reconcile_attempt_receipt client moment hashes anchor = do
  require (not (is_empty_list hashes) && is_fixed_hex anchor.block_hash 32 && are_hashes hashes [])
      invalid_receipt_input
  before ← check_block_anchor client moment anchor
  elim before [
    | some observed ↦ ok (anchor_changed observed)
    | none ↦ do
      found ← read_receipts client (moment + 1) anchor hashes nothing_found
      conclude_receipts client (moment + 1 + 2 * length hashes) anchor found
  ]
