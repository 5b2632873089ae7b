-- ===== src/Chain/Receipt/Verified.antt =====
-- What a verified receipt establishes, for any answers of the node:
-- apps/relayer/src/chain/reconcile-attempt-receipt.ts.
use drand_quicknet_evm.Base.{
  ℕ, ◌+◌, ◌*◌, ◌≡◌, refl, sym, ◌⊎◌, inl, inr, Bool, true, Option, none, some, List, [], ◌∷◌, arith,
  ok, any, All, All-map, Option-cases, Result-cases, subst, length,
}
use drand_quicknet_evm.Text.{Text, same}
use drand_quicknet_evm.Text.Equality.{same_refl}
use drand_quicknet_evm.Journal.{
  BlockAnchor, block_anchors_match, InclusionOutcome, success, reverted, replaced,
}
use drand_quicknet_evm.Coordinator.{AttemptResolutionEvidence}
use drand_quicknet_evm.Coordinator.Evidence.{is_resolution_evidence}
use drand_quicknet_evm.Chain.{
  Client, RpcReceipt, ReceiptStatus, succeeded, failed, unknown, receipt_missing, receipt_failed,
  receipt_found,
}
use drand_quicknet_evm.Chain.Anchor.{
  get_block_anchor, check_block_anchor, Stands, check_block_anchor-Stands,
}
use drand_quicknet_evm.Chain.Receipt.{
  AttemptReceiptResult, verified, receipt_not_found, anchor_changed, included_not_durable,
  fork_served_receipt, read_inclusion, classify_inclusion, read_receipt, ReceiptsFound,
  nothing_found, add_receipt, read_receipts, best_receipt, conclude_receipts,
  reconcile_attempt_receipt,
}

-- One of the hashes, up to letter case.
abbrev pub is_listed : List Text → Text → Bool
is_listed hashes hash = any (λ h. same h hash) hashes

abbrev pub IsOutcomeOf : Text → InclusionOutcome → Type 0
IsOutcomeOf hash outcome = (outcome ≡ success hash) ⊎ (outcome ≡ reverted hash)

abbrev pub IsStatusOf : ReceiptStatus → InclusionOutcome → Type 0
IsStatusOf succeeded (success _) = Unit
IsStatusOf failed (reverted _) = Unit
IsStatusOf succeeded (replaced _ _) = Unit
IsStatusOf failed (replaced _ _) = Unit
IsStatusOf _ _ = ⊥

-- The receipt is of this transaction in this block, with this outcome.
pub record IsReceiptOf (r : RpcReceipt) (hash : Text) (inclusion : BlockAnchor)
    (outcome : InclusionOutcome) : Type 0 where
  pub is_of_hash : same r.transaction_hash hash ≡ true
  pub is_number : r.block_number ≡ some inclusion.block_number
  pub is_hash : same r.block_hash inclusion.block_hash ≡ true
  pub is_status : IsStatusOf r.status outcome

-- The client served a receipt of this transaction in this block, and then had that block at its number.
pub record IsServed (client : Client) (hash : Text) (inclusion : BlockAnchor)
    (outcome : InclusionOutcome) : Type 0 where
  pub moment : ℕ
  pub receipt : RpcReceipt
  pub is_reply : client.get_transaction_receipt moment hash ≡ receipt_found receipt
  pub is_receipt : IsReceiptOf receipt hash inclusion outcome
  pub block_moment : ℕ
  pub is_canonical : Stands client block_moment inclusion

-- Evidence that one of these transactions is in a block of the anchor's chain, by a receipt.
pub record IsReceipted (client : Client) (hashes : List Text) (anchor : BlockAnchor)
    (evidence : AttemptResolutionEvidence) : Type 0 where
  pub hash : Text
  pub is_recorded : is_listed hashes hash ≡ true
  pub is_outcome : IsOutcomeOf hash evidence.outcome
  pub is_anchor_of : evidence.anchor ≡ anchor
  pub is_valid : is_resolution_evidence evidence ≡ true
  pub is_served : IsServed client hash evidence.inclusion evidence.outcome

-- A result that is evidence, if it is verified.
abbrev IsBacked : Client → List Text → BlockAnchor → AttemptReceiptResult → Type 0
IsBacked client hashes anchor (verified evidence) = IsReceipted client hashes anchor evidence
IsBacked client hashes anchor _ = Unit

abbrev AreBacked : Client → List Text → BlockAnchor → Option AttemptReceiptResult → Type 0
AreBacked client hashes anchor none = Unit
AreBacked client hashes anchor (some result) = IsBacked client hashes anchor result

read_inclusion_lem :
    (r : RpcReceipt) (hash : Text) (b : BlockAnchor) (outcome : InclusionOutcome)
    → read_inclusion r hash ≡ ok (b, outcome)
    → IsOutcomeOf hash outcome × IsReceiptOf r hash b outcome
unfolding read_inclusion
read_inclusion_lem r hash b outcome h =
    elim r.status
        as (λ status. r.status ≡ status → IsOutcomeOf hash outcome × IsReceiptOf r hash b outcome) [
          | unknown ↦ λ e. absurd (ground (arith, e))
          | succeeded ↦ λ e.
              let o : success hash ≡ outcome = ground (arith, e) in
              (
                inl (sym o),
                record {
                  is_of_hash = ground (arith, e);
                  is_number = ground (arith, e);
                  is_hash = ground (arith, e, same_refl r.block_hash);
                  is_status =
                      subst (IsStatusOf r.status) o
                        (subst (λ x. IsStatusOf x (success hash)) (sym e) tt);
                },
              )
          | failed ↦ λ e.
              let o : reverted hash ≡ outcome = ground (arith, e) in
              (
                inr (sym o),
                record {
                  is_of_hash = ground (arith, e);
                  is_number = ground (arith, e);
                  is_hash = ground (arith, e, same_refl r.block_hash);
                  is_status =
                      subst (IsStatusOf r.status) o
                        (subst (λ x. IsStatusOf x (reverted hash)) (sym e) tt);
                },
              )
        ]
      refl

classify_inclusion_lem :
    (client : Client) (moment later : ℕ) (r : RpcReceipt) (hashes : List Text) (hash : Text)
    (anchor inclusion canonical : BlockAnchor) (outcome : InclusionOutcome)
    (result : AttemptReceiptResult)
    → is_listed hashes hash ≡ true
    → IsOutcomeOf hash outcome
    → client.get_transaction_receipt moment hash ≡ receipt_found r
    → IsReceiptOf r hash inclusion outcome
    → get_block_anchor client later inclusion.block_number ≡ ok canonical
    → classify_inclusion anchor inclusion outcome canonical ≡ ok result
    → IsBacked client hashes anchor result
unfolding classify_inclusion
classify_inclusion_lem client moment later r hashes hash anchor inclusion canonical outcome
      (verified evidence) l o reply is_of g h =
    let made : AttemptResolutionEvidence = record {
      anchor = anchor;
      inclusion = inclusion;
      outcome = outcome;
    } in
    let is_made : (block_anchors_match inclusion canonical ≡ true)
        × (is_resolution_evidence made ≡ true)
        × (made ≡ evidence) =
      ground arith in
    subst (IsReceipted client hashes anchor) is_made.2 (record {
      hash = hash;
      is_recorded = l;
      is_outcome = o;
      is_anchor_of = refl;
      is_valid = is_made.1;
      is_served = record {
        moment = moment;
        receipt = r;
        is_reply = reply;
        is_receipt = is_of;
        block_moment = later;
        is_canonical = record { observed = canonical; is_read = g; is_same = is_made.0 };
      };
    })
classify_inclusion_lem client moment later r hashes hash anchor inclusion canonical outcome _ l o
      reply is_of g h =
    tt

read_receipt_lem :
    (client : Client) (moment : ℕ) (hashes : List Text) (hash : Text) (anchor : BlockAnchor)
    (result : AttemptReceiptResult)
    → is_listed hashes hash ≡ true
    → read_receipt client moment hash anchor ≡ ok result
    → IsBacked client hashes anchor result
unfolding read_receipt
read_receipt_lem client moment hashes hash anchor result l h =
    elim (client.get_transaction_receipt moment hash)
        as (λ reply.
          client.get_transaction_receipt moment hash ≡ reply
          → IsBacked client hashes anchor result) [
            | receipt_missing ↦ λ e.
                let same_end : receipt_not_found ≡ result = ground (arith, e) in
                subst (IsBacked client hashes anchor) same_end tt
            | receipt_failed ↦ λ e. absurd (ground (arith, e))
            | receipt_found r ↦ λ e. elim (Result-cases (read_inclusion r hash)) [
              | inr (x, e') ↦ absurd (ground (arith, e, e'))
              | inl ((b, outcome), e') ↦
                  elim (Result-cases (get_block_anchor client (moment + 1) b.block_number)) [
                    | inr (x, e'') ↦ absurd (ground (arith, e, e', e''))
                    | inl (canonical, e'') ↦
                        let (named, is_of) = read_inclusion_lem r hash b outcome e' in
                        classify_inclusion_lem client moment (moment + 1) r hashes hash anchor b
                          canonical outcome result l named e is_of e'' (ground (arith, e, e', e''))
                  ]
            ]
          ]
      refl

abbrev FoundBacked : Client → List Text → BlockAnchor → ReceiptsFound → Type 0
FoundBacked client hashes anchor found =
    AreBacked client hashes anchor found.included × AreBacked client hashes anchor found.fork

add_receipt_lem :
    (client : Client) (hashes : List Text) (anchor : BlockAnchor) (result : AttemptReceiptResult)
    (found : ReceiptsFound)
    → IsBacked client hashes anchor result
    → FoundBacked client hashes anchor found
    → FoundBacked client hashes anchor (add_receipt result found)
unfolding add_receipt
add_receipt_lem client hashes anchor (verified e) found b k = elim (Option-cases found.included) [
  | inl o ↦ rw (o, add_receipt) (b, k.1)
  | inr (x, o) ↦ rw (o, add_receipt) (subst (AreBacked client hashes anchor) o k.0, k.1)
]
add_receipt_lem client hashes anchor (included_not_durable _ _) found b k =
    elim (Option-cases found.included) [
      | inl o ↦ rw (o, add_receipt) (tt, k.1)
      | inr (x, o) ↦ rw (o, add_receipt) (subst (AreBacked client hashes anchor) o k.0, k.1)
    ]
add_receipt_lem client hashes anchor (fork_served_receipt _ _) found b k =
    elim (Option-cases found.fork) [
      | inl o ↦ rw (o, add_receipt) (k.0, tt)
      | inr (x, o) ↦ rw (o, add_receipt) (k.0, subst (AreBacked client hashes anchor) o k.1)
    ]
add_receipt_lem client hashes anchor receipt_not_found found b k = k
add_receipt_lem client hashes anchor (anchor_changed _) found b k = k

members : (hashes : List Text) → All (λ hash. is_listed hashes hash ≡ true) hashes
members [] = tt
members (h ∷ rest) = (
  ground (arith, same_refl h),
  All-map (λ hash listed. ground (arith, listed)) rest (members rest),
)

read_receipts_lem :
    (client : Client) (moment : ℕ) (hashes : List Text) (anchor : BlockAnchor) (left : List Text)
    (found end : ReceiptsFound)
    → All (λ hash. is_listed hashes hash ≡ true) left
    → FoundBacked client hashes anchor found
    → read_receipts client moment anchor left found ≡ ok end
    → FoundBacked client hashes anchor end
unfolding read_receipts
read_receipts_lem client moment hashes anchor [] found end l k h =
    let e : found ≡ end = ground arith in subst (FoundBacked client hashes anchor) e k
read_receipts_lem client moment hashes anchor (hash ∷ left) found end l k h =
    elim (Result-cases (read_receipt client moment hash anchor)) [
      | inr (x, e) ↦ absurd (ground (arith, e))
      | inl (result, e) ↦
          read_receipts_lem client (moment + 2) hashes anchor left (add_receipt result found) end
            l.1
            (add_receipt_lem client hashes anchor result found
              (read_receipt_lem client moment hashes hash anchor result l.0 e) k)
            (ground (arith, e))
    ]

best_receipt_lem :
    (client : Client) (hashes : List Text) (anchor : BlockAnchor) (found : ReceiptsFound)
    → FoundBacked client hashes anchor found
    → (evidence : AttemptResolutionEvidence) → best_receipt found ≡ verified evidence
    → IsReceipted client hashes anchor evidence
best_receipt_lem client hashes anchor found k evidence h = elim (Option-cases found.included) [
  | inr (x, e) ↦
      let same_end : x ≡ verified evidence = ground (arith, e) in
      subst (IsBacked client hashes anchor) same_end (subst (AreBacked client hashes anchor) e k.0)
  | inl e ↦ elim (Option-cases found.fork) [
    | inl e' ↦ absurd (ground (arith, e, e'))
    | inr (x, e') ↦
        let same_end : x ≡ verified evidence = ground (arith, e, e') in
        subst (IsBacked client hashes anchor) same_end
          (subst (AreBacked client hashes anchor) e' k.1)
  ]
]

-- A verified receipt: the anchor stood before and after, and the evidence is well formed under it and is
-- that of a recorded transaction. The client served a receipt of just that transaction, whose block and
-- status are the evidence's, and then had that block at its number.
pub reconcile_attempt_receipt-IsReceipted :
    (client : Client) (moment : ℕ) (hashes : List Text) (anchor : BlockAnchor)
    (evidence : AttemptResolutionEvidence)
    → reconcile_attempt_receipt client moment hashes anchor ≡ ok (verified evidence)
    → Stands client moment anchor
      × Stands client (moment + 1 + 2 * length hashes) anchor
      × IsReceipted client hashes anchor evidence
unfolding reconcile_attempt_receipt conclude_receipts
reconcile_attempt_receipt-IsReceipted client moment hashes anchor evidence h =
    elim (Result-cases (check_block_anchor client moment anchor)) [
      | inr (x, e) ↦ absurd (ground (arith, e))
      | inl (some b, e) ↦ absurd (ground (arith, e))
      | inl (none, e) ↦
          elim (Result-cases (read_receipts client (moment + 1) anchor hashes nothing_found)) [
            | inr (x, e') ↦ absurd (ground (arith, e, e'))
            | inl (found, e') ↦
                elim (Result-cases
                  (check_block_anchor client (moment + 1 + 2 * length hashes) anchor)) [
                    | inr (x, e'') ↦ absurd (ground (arith, e, e', e''))
                    | inl (some b, e'') ↦ absurd (ground (arith, e, e', e''))
                    | inl (none, e'') ↦ (
                      check_block_anchor-Stands client moment anchor e,
                      check_block_anchor-Stands client (moment + 1 + 2 * length hashes) anchor e'',
                      best_receipt_lem client hashes anchor found
                          (read_receipts_lem client (moment + 1) hashes anchor hashes nothing_found
                            found (members hashes) (tt, tt) e')
                          evidence (ground (arith, e, e', e'')),
                    )
                  ]
          ]
    ]
