-- ===== src/Chain/Inclusion.antt =====
-- apps/relayer/src/chain/recheck-attempt-inclusion.ts: whether a saved inclusion still stands under an
-- observed head.
use drand_quicknet_evm.Base.{
  ℕ, ◌+◌, ◌&&◌, Bool, true, false, none, some, ok, err, ◌>>=◌, ◌>>◌, require, ltb,
}
use drand_quicknet_evm.Text.{Text, is_fixed_hex, same}
use drand_quicknet_evm.Journal.{
  BlockAnchor, block_anchors_match, InclusionOutcome, success, reverted, replaced,
  JournalInclusionObservation,
}
use drand_quicknet_evm.Coordinator.{AttemptResolutionEvidence}
use drand_quicknet_evm.Coordinator.Evidence.{is_resolution_evidence}
use drand_quicknet_evm.Chain.{
  Client, ReceiptStatus, succeeded, failed, RpcReceipt, receipt_missing, receipt_failed,
  receipt_found, Checked, rpc_failed, invalid_evidence, invalid_recheck_input, inconsistent_receipt,
}
use drand_quicknet_evm.Chain.Anchor.{is_number, get_block_anchor, check_block_anchor}

pub data InclusionRecheckResult : Type 0 where
  verified_unchanged : BlockAnchor → InclusionRecheckResult
  inclusion_block_changed : BlockAnchor → BlockAnchor → InclusionRecheckResult
  receipt_unavailable head_behind_inclusion : InclusionRecheckResult
  anchor_changed : BlockAnchor → InclusionRecheckResult

abbrev pub evidence_of : JournalInclusionObservation → AttemptResolutionEvidence
evidence_of o = record { anchor = o.observed_at; inclusion = o.inclusion; outcome = o.outcome }

-- `captureInclusionRecheck`, of input that has its type already.
unfoldable pub capture_inclusion_recheck :
    JournalInclusionObservation → BlockAnchor → Checked (Unit {0})
capture_inclusion_recheck o head =
    require (is_resolution_evidence (evidence_of o)) invalid_evidence
    >> require (is_fixed_hex head.block_hash 32) invalid_recheck_input

-- The transaction that was included.
abbrev pub included_hash : InclusionOutcome → Text
included_hash (success hash) = hash
included_hash (reverted hash) = hash
included_hash (replaced hash _) = hash

-- The receipt's status is known, and that of the outcome unless the transaction was another one.
abbrev pub fits_outcome : ReceiptStatus → InclusionOutcome → Bool
fits_outcome succeeded (success _) = true
fits_outcome failed (reverted _) = true
fits_outcome succeeded (replaced _ _) = true
fits_outcome failed (replaced _ _) = true
fits_outcome _ _ = false

unfoldable pub is_consistent : JournalInclusionObservation → RpcReceipt → Bool
is_consistent o r =
    is_fixed_hex r.transaction_hash 32
    && same r.transaction_hash (included_hash o.outcome)
    && is_number r.block_number o.inclusion.block_number
    && is_fixed_hex r.block_hash 32
    && same r.block_hash o.inclusion.block_hash
    && fits_outcome r.status o.outcome

unfoldable pub inspect_inclusion_receipt :
    Client → ℕ → JournalInclusionObservation → BlockAnchor → Checked InclusionRecheckResult
inspect_inclusion_receipt client moment o head =
    elim (client.get_transaction_receipt moment (included_hash o.outcome)) [
      | receipt_failed ↦ err rpc_failed
      | receipt_missing ↦ ok receipt_unavailable
      | receipt_found r ↦ do
        require (is_consistent o r) inconsistent_receipt
        ok (verified_unchanged head)
    ]

-- `inspectInclusionEvidence`: two calls at most.
unfoldable pub inspect_inclusion_evidence :
    Client → ℕ → JournalInclusionObservation → BlockAnchor → Checked InclusionRecheckResult
inspect_inclusion_evidence client moment o head =
    elim (ltb head.block_number o.inclusion.block_number) [
      | true ↦ ok head_behind_inclusion
      | false ↦ do
        canonical ← get_block_anchor client moment o.inclusion.block_number
        elim (block_anchors_match o.inclusion canonical) [
          | false ↦ ok (inclusion_block_changed o.inclusion canonical)
          | true ↦ inspect_inclusion_receipt client (moment + 1) o head
        ]
    ]

-- `recheckAttemptInclusionWithinPass`
unfoldable pub recheck_attempt_inclusion_within_pass :
    Client → ℕ → JournalInclusionObservation → BlockAnchor → Checked InclusionRecheckResult
recheck_attempt_inclusion_within_pass client moment o head =
    capture_inclusion_recheck o head >> inspect_inclusion_evidence client moment o head

-- The recheck between two checks of the head.
unfoldable pub recheck_bracketed :
    Client → ℕ → JournalInclusionObservation → BlockAnchor → Checked InclusionRecheckResult
recheck_bracketed client moment o head = do
  before ← check_block_anchor client moment head
  elim before [
    | some observed ↦ ok (anchor_changed observed)
    | none ↦ do
      result ← inspect_inclusion_evidence client (moment + 1) o head
      after ← check_block_anchor client (moment + 3) head
      ok (elim after [ some observed ↦ anchor_changed observed | none ↦ result ])
  ]

-- `recheckAttemptInclusion`
unfoldable pub recheck_attempt_inclusion :
    Client → ℕ → JournalInclusionObservation → BlockAnchor → Checked InclusionRecheckResult
recheck_attempt_inclusion client moment o head = do
  capture_inclusion_recheck o head
  elim (ltb head.block_number o.inclusion.block_number) [
    | true ↦ ok head_behind_inclusion
    | false ↦ recheck_bracketed client moment o head
  ]
