-- ===== src/Chain/Inclusions/Seen.antt =====
-- What the inclusions and the candidates of a pass have from the node, and the recheck of a saved
-- inclusion: apps/relayer/src/chain/inspect-signer-inclusions.ts and recheck-attempt-inclusion.ts.
use drand_quicknet_evm.Base.{◌⊎◌, ℕ, ◌+◌, ◌≡◌, refl, true, inl, inr, arith, ok, Result-cases}
use drand_quicknet_evm.Journal.{
  BlockAnchor, AnchoredNonceObservation, included, InclusionOutcome, success, reverted, replaced,
  JournalInclusionObservation, JournalAttempt, TransactionJournalSnapshot,
}
use drand_quicknet_evm.Coordinator.{AttemptResolutionEvidence}
use drand_quicknet_evm.Chain.{
  Client, RpcReceipt, ReceiptStatus, succeeded, failed, unknown, receipt_missing, receipt_failed,
  receipt_found,
}
use drand_quicknet_evm.Chain.Anchor.{get_block_anchor, Stands, is_number_lem}
use drand_quicknet_evm.Chain.Receipt.Verified.{IsStatusOf, IsReceiptOf, IsServed}
use drand_quicknet_evm.Chain.Receipt.{AttemptReceiptResult, reconcile_attempt_receipt}
use drand_quicknet_evm.Chain.Search.{ReplacementSearchResult}
use drand_quicknet_evm.Chain.Search.Checks.{search_attempt_replacement}
use drand_quicknet_evm.Chain.Recovery.{transaction_hashes, search_for}
use drand_quicknet_evm.Chain.Inclusion.{
  included_hash, fits_outcome, is_consistent, InclusionRecheckResult,
  recheck_attempt_inclusion_within_pass, capture_inclusion_recheck, inspect_inclusion_evidence,
  inspect_inclusion_receipt,
}
use drand_quicknet_evm.Chain.Inclusions.{Entry}

-- What an inclusion rests on: a receipt that the client served, in a block that it then had at its
-- number; or a search for the attempt's nonce that found another transaction.
pub data IsSeen (client : Client) (s : TransactionJournalSnapshot) (head : BlockAnchor)
    (a : JournalAttempt) (o : JournalInclusionObservation) : Type 0 where
  by_receipt :
      o.observed_at ≡ head
      → IsServed client (included_hash o.outcome) o.inclusion o.outcome
      → IsSeen client s head a o
  by_search :
      o.observed_at ≡ head
      → (moment range : ℕ) (observation : AnchoredNonceObservation)
      → (evidence : AttemptResolutionEvidence) → observation.anchor ≡ head
      → search_attempt_replacement client moment (search_for s a observation range)
        ≡ ok (ReplacementSearchResult.replacement_found evidence)
      → (o.inclusion ≡ evidence.inclusion) × (o.outcome ≡ evidence.outcome)
      → IsSeen client s head a o

-- The attempt is included, by an observation at this head.
abbrev pub IsSeenAt : Client → TransactionJournalSnapshot → BlockAnchor → JournalAttempt → Type 0
IsSeenAt client s head a = elim a.phase [ included o ↦ IsSeen client s head a o | _ ↦ ⊥ ]

-- The receipts of the attempt's transactions, asked for under this head, were missing or of another
-- fork.
abbrev pub HasNoReceipt : Client → BlockAnchor → JournalAttempt → Type 0
HasNoReceipt client head a =
    (moment : ℕ) × ((reconcile_attempt_receipt client moment (transaction_hashes a) head
        ≡ ok AttemptReceiptResult.receipt_not_found)
      ⊎ ((inclusion : BlockAnchor) × (canonical : BlockAnchor) × (reconcile_attempt_receipt client
              moment (transaction_hashes a) head
            ≡ ok (AttemptReceiptResult.fork_served_receipt inclusion canonical))))

abbrev pub IsFounded : Client → TransactionJournalSnapshot → BlockAnchor → Entry → Type 0
IsFounded client s head entry =
    (entry.is_verified ≡ true → IsSeenAt client s head entry.attempt)
    × (entry.is_candidate ≡ true → HasNoReceipt client head entry.attempt)

fits_outcome-IsStatusOf :
    (status : ReceiptStatus) (outcome : InclusionOutcome)
    → fits_outcome status outcome ≡ true
    → IsStatusOf status outcome
fits_outcome-IsStatusOf succeeded (success _) h = tt
fits_outcome-IsStatusOf failed (reverted _) h = tt
fits_outcome-IsStatusOf succeeded (replaced _ _) h = tt
fits_outcome-IsStatusOf failed (replaced _ _) h = tt
fits_outcome-IsStatusOf succeeded (reverted _) h = absurd (ground arith)
fits_outcome-IsStatusOf failed (success _) h = absurd (ground arith)
fits_outcome-IsStatusOf unknown (success _) h = absurd (ground arith)
fits_outcome-IsStatusOf unknown (reverted _) h = absurd (ground arith)
fits_outcome-IsStatusOf unknown (replaced _ _) h = absurd (ground arith)

is_consistent-IsReceiptOf :
    (o : JournalInclusionObservation) (r : RpcReceipt)
    → is_consistent o r ≡ true
    → IsReceiptOf r (included_hash o.outcome) o.inclusion o.outcome
unfolding is_consistent
is_consistent-IsReceiptOf o r h = record {
  is_of_hash = ground arith;
  is_number = is_number_lem r.block_number o.inclusion.block_number (ground arith);
  is_hash = ground arith;
  is_status = fits_outcome-IsStatusOf r.status o.outcome (ground arith);
}

module _ (client : Client) (o : JournalInclusionObservation) (head b : BlockAnchor) where
  receipt-IsServed :
      (moment later : ℕ)
      → Stands client moment o.inclusion
      → inspect_inclusion_receipt client later o head
        ≡ ok (InclusionRecheckResult.verified_unchanged b)
      → (head ≡ b) × IsServed client (included_hash o.outcome) o.inclusion o.outcome
  unfolding inspect_inclusion_receipt
  receipt-IsServed moment later stands h =
      elim (client.get_transaction_receipt later (included_hash o.outcome))
          as (λ reply.
            client.get_transaction_receipt later (included_hash o.outcome) ≡ reply
            → (head ≡ b) × IsServed client (included_hash o.outcome) o.inclusion o.outcome) [
              | receipt_missing ↦ λ e. absurd (ground (arith, e))
              | receipt_failed ↦ λ e. absurd (ground (arith, e))
              | receipt_found r ↦ λ e. (
                ground (arith, e),
                record {
                  moment = later;
                  receipt = r;
                  is_reply = e;
                  is_receipt = is_consistent-IsReceiptOf o r (ground (arith, e));
                  block_moment = moment;
                  is_canonical = stands;
                },
              )
            ]
        refl

  evidence-IsServed :
      (moment : ℕ)
      → inspect_inclusion_evidence client moment o head
        ≡ ok (InclusionRecheckResult.verified_unchanged b)
      → (head ≡ b) × IsServed client (included_hash o.outcome) o.inclusion o.outcome
  unfolding inspect_inclusion_evidence
  evidence-IsServed moment h =
      elim (Result-cases (get_block_anchor client moment o.inclusion.block_number)) [
        | inr (x, e) ↦ absurd (ground (arith, e))
        | inl (canonical, e) ↦
            receipt-IsServed moment (moment + 1)
              (record { observed = canonical; is_read = e; is_same = ground (arith, e) })
              (ground (arith, e))
      ]

  -- An inclusion that is verified is served at the head of the pass.
  pub recheck-IsServed :
      (moment : ℕ)
      → recheck_attempt_inclusion_within_pass client moment o head
        ≡ ok (InclusionRecheckResult.verified_unchanged b)
      → (head ≡ b) × IsServed client (included_hash o.outcome) o.inclusion o.outcome
  unfolding recheck_attempt_inclusion_within_pass capture_inclusion_recheck
  recheck-IsServed moment h = evidence-IsServed moment (ground arith)
