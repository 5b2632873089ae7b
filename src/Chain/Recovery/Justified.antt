-- ===== src/Chain/Recovery/Justified.antt =====
-- What a recovery inspection's answer has behind it in the journal, for any answers of the node:
-- apps/relayer/src/chain/inspect-signer-recovery.ts.
use drand_quicknet_evm.Journal.Check.{is_uint, is_observation}
use drand_quicknet_evm.Base.{
  ℕ, ◌+◌, ◌*◌, ◌≡◌, refl, inl, inr, true, none, some, arith, ok, err, ltb, ltb→lt, length,
  Bool-cases, Result-cases, subst,
}
use drand_quicknet_evm.Journal.{
  BlockAnchor, AnchoredNonceObservation, JournalAttempt, TransactionJournalSnapshot,
}
use drand_quicknet_evm.Coordinator.Recover.{
  UnresolvedReceipt, SignerRecoveryInspection, resolution_available, unresolved, oldest_attempt,
}
use drand_quicknet_evm.Chain.{Client}
use drand_quicknet_evm.Chain.Nonce.{AnchoredNonceResult, read_anchored_nonce}
use drand_quicknet_evm.Chain.Receipt.{AttemptReceiptResult, reconcile_attempt_receipt}
use drand_quicknet_evm.Chain.Receipt.Verified.{reconcile_attempt_receipt-IsReceipted}
use drand_quicknet_evm.Chain.Search.Checks.{search_attempt_replacement}
use drand_quicknet_evm.Chain.Recovery.{
  transaction_hashes, search_for, conclude_search, inspect_unreceipted, inspect_receipted,
  inspect_observed, inspect_nonce, inspect_oldest,
}
use drand_quicknet_evm.Chain.Recovery.Found.{
  IsJustifiedFor, read_anchored_nonce-is_observation, receipted_matches, search_justified,
}

module _ (client : Client) (s : TransactionJournalSnapshot) (a : JournalAttempt) (range : ℕ) where
  unreceipted_justified :
      (moment : ℕ) (o : AnchoredNonceObservation) (r : UnresolvedReceipt)
      (result : SignerRecoveryInspection)
      → is_observation o ≡ true
      → inspect_unreceipted client moment s a range o r ≡ ok result
      → IsJustifiedFor s a result
  unfolding inspect_unreceipted
  unreceipted_justified moment o r result seen h = elim (Bool-cases (ltb a.nonce o.nonce)) [
    | inr e ↦
        let same_end : unresolved o r none ≡ result = ground (arith, e) in
        subst (IsJustifiedFor s a) same_end seen
    | inl e ↦
        elim (Result-cases (search_attempt_replacement client moment (search_for s a o range))) [
          | inr (x, e') ↦ absurd (ground (arith, e, e'))
          | inl (found, e') ↦
              let same_end : conclude_search o r found ≡ result = ground (arith, e, e') in
              subst (IsJustifiedFor s a) same_end
                (search_justified client moment s a o range r found seen e')
        ]
  ]

  receipted_justified :
      (moment : ℕ) (anchor : BlockAnchor) (o : AnchoredNonceObservation)
      (receipt : AttemptReceiptResult) (result : SignerRecoveryInspection)
      → reconcile_attempt_receipt client moment (transaction_hashes a) anchor ≡ ok receipt
      → is_observation o ≡ true
      → (later : ℕ) → inspect_receipted client later s a range o receipt ≡ ok result
      → IsJustifiedFor s a result
  unfolding inspect_receipted
  receipted_justified moment anchor o (AttemptReceiptResult.verified evidence) result r seen later
        h =
      elim (Bool-cases (ltb a.nonce o.nonce)) [
        | inl e ↦
            let receipted =
              (reconcile_attempt_receipt-IsReceipted client moment (transaction_hashes a) anchor
                evidence r).2 in
            let same_end : resolution_available o evidence ≡ result = ground (arith, e) in
            subst (IsJustifiedFor s a) same_end (record {
              is_valid = receipted.is_valid;
              is_matching = receipted_matches client a anchor evidence receipted;
              is_consumed = ltb→lt a.nonce o.nonce e;
              is_read = seen;
            })
        | inr e ↦
            let same_end : SignerRecoveryInspection.inconsistent_observations o ≡ result =
              ground (arith, e) in
            subst (IsJustifiedFor s a) same_end tt
      ]
  receipted_justified moment anchor o (AttemptReceiptResult.included_not_durable _ _) result r seen
        later h =
      elim (Bool-cases (ltb a.nonce o.nonce)) [
        | inl e ↦
            let same_end : SignerRecoveryInspection.inconsistent_observations o ≡ result =
              ground (arith, e) in
            subst (IsJustifiedFor s a) same_end tt
        | inr e ↦
            let same_end : unresolved o UnresolvedReceipt.included_not_durable none ≡ result =
              ground (arith, e) in
            subst (IsJustifiedFor s a) same_end seen
      ]
  receipted_justified moment anchor o AttemptReceiptResult.receipt_not_found result r seen later h =
      unreceipted_justified later o _ result seen h
  receipted_justified moment anchor o (AttemptReceiptResult.fork_served_receipt _ _) result r seen
        later h =
      unreceipted_justified later o _ result seen h
  receipted_justified moment anchor o (AttemptReceiptResult.anchor_changed b) result r seen later
        h =
      let same_end : SignerRecoveryInspection.anchor_changed b ≡ result = ground arith in
      subst (IsJustifiedFor s a) same_end tt

  nonce_justified :
      (moment later : ℕ) (anchor : BlockAnchor) (receipt : AttemptReceiptResult)
      (result : SignerRecoveryInspection)
      → reconcile_attempt_receipt client moment (transaction_hashes a) anchor ≡ ok receipt
      → is_uint anchor.block_number ≡ true
      → inspect_nonce client later s anchor range (some (a, receipt)) ≡ ok result
      → IsJustifiedFor s a result
  unfolding inspect_nonce inspect_observed
  nonce_justified moment later anchor receipt result r u h =
      elim (Result-cases (read_anchored_nonce client later s.identity.signer anchor)) [
        | inr (x, e) ↦ absurd (ground (arith, e))
        | inl (AnchoredNonceResult.anchor_changed b, e) ↦
            let same_end : SignerRecoveryInspection.anchor_changed b ≡ result = ground (arith, e) in
            subst (IsJustifiedFor s a) same_end tt
        | inl (AnchoredNonceResult.verified o, e) ↦
            elim (Bool-cases (ltb o.nonce s.durable_next_nonce)) [
              | inl e' ↦
                  let same_end : SignerRecoveryInspection.nonce_behind_journal o ≡ result =
                    ground (arith, e, e') in
                  subst (IsJustifiedFor s a) same_end tt
              | inr e' ↦
                  receipted_justified moment anchor o receipt result r
                    (read_anchored_nonce-is_observation client later s.identity.signer anchor o u e)
                    (later + 3) (ground (arith, e, e'))
            ]
      ]

  pub inspect_oldest-IsJustifiedFor :
      (moment : ℕ) (anchor : BlockAnchor) (result : SignerRecoveryInspection)
      → is_uint anchor.block_number ≡ true
      → oldest_attempt s ≡ some a
      → inspect_oldest client moment s anchor range ≡ ok result
      → IsJustifiedFor s a result
  unfolding inspect_oldest
  inspect_oldest-IsJustifiedFor moment anchor result u is_oldest h =
      let later = moment + 2 + 2 * length (transaction_hashes a) in
      elim (reconcile_attempt_receipt client moment (transaction_hashes a) anchor)
          as (λ call.
            reconcile_attempt_receipt client moment (transaction_hashes a) anchor ≡ call
            → IsJustifiedFor s a result) [
              | err x ↦ λ e. absurd (ground (arith, is_oldest, e))
              | ok (AttemptReceiptResult.anchor_changed b) ↦ λ e.
                  let same_end : SignerRecoveryInspection.anchor_changed b ≡ result =
                    ground (arith, is_oldest, e) in
                  subst (IsJustifiedFor s a) same_end tt
              | ok (AttemptReceiptResult.verified v) ↦ λ e.
                  nonce_justified moment later anchor _ result e u (ground (arith, is_oldest, e))
              | ok AttemptReceiptResult.receipt_not_found ↦ λ e.
                  nonce_justified moment later anchor _ result e u (ground (arith, is_oldest, e))
              | ok (AttemptReceiptResult.included_not_durable v w) ↦ λ e.
                  nonce_justified moment later anchor _ result e u (ground (arith, is_oldest, e))
              | ok (AttemptReceiptResult.fork_served_receipt v w) ↦ λ e.
                  nonce_justified moment later anchor _ result e u (ground (arith, is_oldest, e))
            ]
        refl
