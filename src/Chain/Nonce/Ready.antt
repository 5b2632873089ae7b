-- ===== src/Chain/Nonce/Ready.antt =====
-- When a journal may start at the durable nonce: apps/relayer/src/chain/inspect-signer-bootstrap.ts.
use drand_quicknet_evm.Base.{
  ℕ, ◌+◌, ◌≡◌, ◌↔◌, inl, inr, true, none, some, arith, ok, Result-cases, subst,
}
use drand_quicknet_evm.Text.{Text, is_fixed_hex}
use drand_quicknet_evm.Journal.{BlockAnchor, AnchoredNonceObservation}
use drand_quicknet_evm.Chain.{Client, at_block, at_latest, at_pending}
use drand_quicknet_evm.Chain.Anchor.{check_block_anchor}
use drand_quicknet_evm.Chain.Nonce.{
  verified, anchor_changed, count_transactions, read_between, read_anchored_nonce, compare_counts,
  inspect_signer_bootstrap,
}
use drand_quicknet_evm.Coordinator.Recover.{ready}

module _ (client : Client) (moment : ℕ) (signer : Text) (anchor : BlockAnchor) where
  -- The count at the anchor's block, between two checks that the anchor stands.
  pub record IsVerified (o : AnchoredNonceObservation) : Type 0 where
    pub is_signer : is_fixed_hex signer 20 ≡ true
    pub is_hash : is_fixed_hex anchor.block_hash 32 ≡ true
    pub is_anchor_of : o.anchor ≡ anchor
    pub before : check_block_anchor client moment anchor ≡ ok none
    pub is_count :
        count_transactions client (moment + 1) signer (at_block anchor.block_number) ≡ ok o.nonce
    pub after : check_block_anchor client (moment + 2) anchor ≡ ok none

  read_anchored_nonce-IsVerified :
      (o : AnchoredNonceObservation)
      → read_anchored_nonce client moment signer anchor ≡ ok (verified o)
      → IsVerified o
  unfolding read_anchored_nonce read_between
  read_anchored_nonce-IsVerified o h =
      elim (Result-cases (check_block_anchor client moment anchor)) [
        | inr (x, e) ↦ absurd (ground (arith, e))
        | inl (some b, e) ↦ absurd (ground (arith, e))
        | inl (none, e) ↦
            elim (Result-cases
              (count_transactions client (moment + 1) signer (at_block anchor.block_number))) [
                | inr (x, e') ↦ absurd (ground (arith, e, e'))
                | inl (n, e') ↦
                    elim (Result-cases (check_block_anchor client (moment + 1 + 1) anchor)) [
                      | inr (x, e'') ↦ absurd (ground (arith, e, e', e''))
                      | inl (some b, e'') ↦ absurd (ground (arith, e, e', e''))
                      | inl (none, e'') ↦ record {
                        is_signer = ground (arith, e, e', e'');
                        is_hash = ground (arith, e, e', e'');
                        is_anchor_of = ground (arith, e, e', e'');
                        before = e;
                        is_count = ground (arith, e, e', e'');
                        after = ground (arith, e'');
                      }
                    ]
              ]
      ]

  IsVerified-read_anchored_nonce :
      (o : AnchoredNonceObservation)
      → IsVerified o
      → read_anchored_nonce client moment signer anchor ≡ ok (verified o)
  unfolding read_anchored_nonce read_between
  IsVerified-read_anchored_nonce o v = ground (arith, v)

  -- A read of the nonce at an anchor is verified exactly when the anchor stands before and after it,
  -- and then it is the count that the client gave between the two checks.
  pub read_anchored_nonce_iff :
      (o : AnchoredNonceObservation)
      → (read_anchored_nonce client moment signer anchor ≡ ok (verified o)) ↔ IsVerified o
  read_anchored_nonce_iff o = (read_anchored_nonce-IsVerified o, IsVerified-read_anchored_nonce o)

  -- The three counts of the signer agree, and the anchor stands to the end.
  pub record IsReady (o : AnchoredNonceObservation) : Type 0 where
    pub is_verified : IsVerified o
    pub is_latest : count_transactions client (moment + 3) signer at_latest ≡ ok o.nonce
    pub is_pending : count_transactions client (moment + 4) signer at_pending ≡ ok o.nonce
    pub closing : check_block_anchor client (moment + 5) anchor ≡ ok none

  inspect_signer_bootstrap-IsReady :
      (o : AnchoredNonceObservation)
      → inspect_signer_bootstrap client moment signer anchor ≡ ok (ready o)
      → IsReady o
  unfolding inspect_signer_bootstrap compare_counts
  inspect_signer_bootstrap-IsReady o h =
      elim (Result-cases (read_anchored_nonce client moment signer anchor)) [
        | inr (x, e) ↦ absurd (ground (arith, e))
        | inl (anchor_changed b, e) ↦ absurd (ground (arith, e))
        | inl (verified v, e) ↦
            let seen = read_anchored_nonce-IsVerified v e in
            elim (Result-cases (count_transactions client (moment + 3) signer at_latest)) [
              | inr (x, e1) ↦ absurd (ground (arith, e, e1))
              | inl (latest, e1) ↦
                  elim (Result-cases
                    (count_transactions client (moment + 3 + 1) signer at_pending)) [
                      | inr (x, e2) ↦ absurd (ground (arith, e, e1, e2))
                      | inl (pending, e2) ↦
                          elim (Result-cases
                            (check_block_anchor client (moment + 3 + 2) v.anchor)) [
                              | inr (x, e3) ↦ absurd (ground (arith, e, e1, e2, e3))
                              | inl (some b, e3) ↦ absurd (ground (arith, e, e1, e2, e3))
                              | inl (none, e3) ↦
                                  let agree : (v ≡ o) × (latest ≡ o.nonce) × (pending ≡ o.nonce) =
                                    ground (arith, e, e1, e2, e3) in
                                  record {
                                    is_verified = subst IsVerified agree.0 seen;
                                    is_latest = ground (arith, e1, agree);
                                    is_pending = ground (arith, e2, agree);
                                    closing = ground (arith, e3, seen.is_anchor_of);
                                  }
                            ]
                    ]
            ]
      ]

  IsReady-inspect_signer_bootstrap :
      (o : AnchoredNonceObservation)
      → IsReady o
      → inspect_signer_bootstrap client moment signer anchor ≡ ok (ready o)
  unfolding inspect_signer_bootstrap compare_counts
  IsReady-inspect_signer_bootstrap o r =
      ground (arith, IsVerified-read_anchored_nonce o r.is_verified, r.is_verified.is_anchor_of)

  -- A bootstrap is ready exactly when the signer's counts at the anchor, at the latest block and with the
  -- pending transactions agree, read in this order, and the anchor stands before, between and after.
  pub inspect_signer_bootstrap_iff :
      (o : AnchoredNonceObservation)
      → (inspect_signer_bootstrap client moment signer anchor ≡ ok (ready o)) ↔ IsReady o
  inspect_signer_bootstrap_iff o =
      (inspect_signer_bootstrap-IsReady o, IsReady-inspect_signer_bootstrap o)
