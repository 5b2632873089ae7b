-- ===== src/Chain/Inclusions/Work.antt =====
-- The work of the retained attempts, and the head at which verified ones were seen, through the loops of
-- apps/relayer/src/chain/inspect-signer-inclusions.ts.
use drand_quicknet_evm.Base.{
  ℕ, ◌+◌, ◌*◌, ◌≡◌, refl, sym, ap, ◌∙◌, All, inl, inr, none, List, [], ◌∷◌, map, arith, ok, length,
  ltb, Bool-cases, Result-cases, >>=-eq-ok, ok_injective, subst, ◌&&◌, ◌>>=◌,
}
use drand_quicknet_evm.Journal.{
  BlockAnchor, AnchoredNonceObservation, signed, broadcast_may_have_occurred, included,
  InclusionOutcome, JournalInclusionObservation, JournalAttempt, TransactionJournalSnapshot,
}
use drand_quicknet_evm.Text.{Text}
use drand_quicknet_evm.Chain.{Client}
use drand_quicknet_evm.Chain.Receipt.Verified.{
  IsOutcomeOf, IsServed, reconcile_attempt_receipt-IsReceipted,
}
use drand_quicknet_evm.Chain.Receipt.{AttemptReceiptResult, reconcile_attempt_receipt}
use drand_quicknet_evm.Chain.Search.{ReplacementSearchResult}
use drand_quicknet_evm.Chain.Search.Checks.{search_attempt_replacement}
use drand_quicknet_evm.Chain.Recovery.{transaction_hashes, search_for}
use drand_quicknet_evm.Chain.Inclusion.{
  included_hash, InclusionRecheckResult, recheck_attempt_inclusion_within_pass,
}
use drand_quicknet_evm.Chain.Inclusions.{
  Entry, kept, Step, taken, moved, apply_search, apply_recheck, apply_receipt, inspect_attempt,
  inspect_attempts, search_entry, search_entries,
}
use drand_quicknet_evm.Chain.Inclusions.Pass.{queue_of}
use drand_quicknet_evm.Chain.Inclusions.Seen.{by_receipt, by_search, IsFounded, recheck-IsServed}

-- An attempt but for its phase and its replacement search.
abbrev pub work_of : JournalAttempt → JournalAttempt
work_of a = record a { replacement_search = none; phase = signed }

-- The two queues are of the same work.
abbrev pub SameWork : List JournalAttempt → List JournalAttempt → Type 0
SameWork xs ys = map work_of xs ≡ map work_of ys

-- A step that keeps the work of its attempt, and has what it says of it from the client.
abbrev KeepsWork :
    Client → TransactionJournalSnapshot → BlockAnchor → JournalAttempt → Step Entry → Type 0
KeepsWork client s head a (taken entry) =
    (work_of entry.attempt ≡ work_of a) × IsFounded client s head entry
KeepsWork client s head a (moved _) = Unit

not_verified :
    (client : Client) (s : TransactionJournalSnapshot) (head : BlockAnchor) (a : JournalAttempt)
    → IsFounded client s head (kept a)
not_verified client s head a = (λ h. ground (arith, h), λ h. ground (arith, h))

apply_recheck-KeepsWork :
    (client : Client) (s : TransactionJournalSnapshot) (head : BlockAnchor) (a : JournalAttempt)
    (o : JournalInclusionObservation) (r : InclusionRecheckResult)
    → ((b : BlockAnchor)
        → r ≡ InclusionRecheckResult.verified_unchanged b
        → (head ≡ b) × IsServed client (included_hash o.outcome) o.inclusion o.outcome)
    → KeepsWork client s head a (apply_recheck a o r)
unfolding apply_recheck
apply_recheck-KeepsWork client s head a o (InclusionRecheckResult.anchor_changed _) seen = tt
apply_recheck-KeepsWork client s head a o (InclusionRecheckResult.verified_unchanged b) seen =
    let (at_head, served) = seen b refl in
    (refl, (λ _. by_receipt (sym at_head) served, λ h. ground (arith, h)))
apply_recheck-KeepsWork client s head a o (InclusionRecheckResult.inclusion_block_changed _ _)
      seen =
    (refl, (λ h. ground (arith, h), λ h. ground (arith, h)))
apply_recheck-KeepsWork client s head a o InclusionRecheckResult.receipt_unavailable seen =
    (refl, not_verified client s head a)
apply_recheck-KeepsWork client s head a o InclusionRecheckResult.head_behind_inclusion seen =
    (refl, not_verified client s head a)

included_as :
    (hash : Text) (outcome : InclusionOutcome)
    → IsOutcomeOf hash outcome
    → hash ≡ included_hash outcome
included_as hash outcome (inl e) = ap included_hash (sym e)
included_as hash outcome (inr e) = ap included_hash (sym e)

apply_receipt-KeepsWork :
    (client : Client) (s : TransactionJournalSnapshot) (moment : ℕ) (a : JournalAttempt)
    (head : BlockAnchor) (r : AttemptReceiptResult)
    → reconcile_attempt_receipt client moment (transaction_hashes a) head ≡ ok r
    → KeepsWork client s head a (apply_receipt a head r)
unfolding apply_receipt
apply_receipt-KeepsWork client s moment a head (AttemptReceiptResult.anchor_changed _) e = tt
apply_receipt-KeepsWork client s moment a head (AttemptReceiptResult.verified evidence) e =
    let r =
      (reconcile_attempt_receipt-IsReceipted client moment (transaction_hashes a) head evidence
        e).2 in
    let served =
      subst (λ hash. IsServed client hash evidence.inclusion evidence.outcome)
        (included_as r.hash evidence.outcome r.is_outcome) r.is_served in
    (refl, (λ _. by_receipt refl served, λ h. ground (arith, h)))
apply_receipt-KeepsWork client s moment a head AttemptReceiptResult.receipt_not_found e =
    (refl, (λ h. ground (arith, h), λ _. (moment, inl e)))
apply_receipt-KeepsWork client s moment a head (AttemptReceiptResult.fork_served_receipt b d) e =
    (refl, (λ h. ground (arith, h), λ _. (moment, inr (b, d, e))))
apply_receipt-KeepsWork client s moment a head (AttemptReceiptResult.included_not_durable _ _) e =
    (refl, not_verified client s head a)

apply_search-KeepsWork :
    (client : Client) (s : TransactionJournalSnapshot) (moment range : ℕ)
    (o : AnchoredNonceObservation) (entry : Entry) (head : BlockAnchor)
    (r : ReplacementSearchResult)
    → o.anchor ≡ head
    → search_attempt_replacement client moment (search_for s entry.attempt o range) ≡ ok r
    → IsFounded client s head entry
    → KeepsWork client s head entry.attempt (apply_search entry head r)
unfolding apply_search
apply_search-KeepsWork client s moment range o entry head (ReplacementSearchResult.anchor_changed _)
      at_head e founded =
    tt
apply_search-KeepsWork client s moment range o entry head
      (ReplacementSearchResult.replacement_found evidence) at_head e founded =
    (refl, (λ _. by_search refl moment range o evidence at_head e (refl, refl), founded.1))
apply_search-KeepsWork client s moment range o entry head _ at_head e founded = (refl, founded)

inspect_attempt-KeepsWork :
    (client : Client) (s : TransactionJournalSnapshot) (moment : ℕ) (head : BlockAnchor)
    (a : JournalAttempt) (step : Step Entry)
    → inspect_attempt client moment head a ≡ ok step
    → KeepsWork client s head a step
unfolding inspect_attempt
inspect_attempt-KeepsWork client s moment head a step h =
    elim a.phase as (λ phase. a.phase ≡ phase → KeepsWork client s head a step) [
      | included o ↦ λ e.
          elim (Result-cases (recheck_attempt_inclusion_within_pass client moment o head)) [
            | inr (x, e') ↦ absurd (ground (arith, e, e'))
            | inl (r, e') ↦
                let taken_step : apply_recheck a o r ≡ step = ground (arith, e, e') in
                subst (KeepsWork client s head a) taken_step (
                  apply_recheck-KeepsWork client s head a o r
                    (λ b e''. recheck-IsServed client o head b moment (e' ∙ ap (λ x. ok x) e'')))
          ]
      | signed ↦ λ e. receipted (ground (arith, e))
      | broadcast_may_have_occurred ↦ λ e. receipted (ground (arith, e))
    ]
      refl
  where
    receipted :
        (do
          receipt ← reconcile_attempt_receipt client moment (transaction_hashes a) head
          ok (apply_receipt a head receipt))
          ≡ ok step
        → KeepsWork client s head a step
    receipted k =
        let (r, e, same_step) =
          >>=-eq-ok (reconcile_attempt_receipt client moment (transaction_hashes a) head) _ k in
        subst (KeepsWork client s head a) (ok_injective _ _ same_step)
          (apply_receipt-KeepsWork client s moment a head r e)

-- The entries are of the same work as the queue, and verified ones are seen at the head.
abbrev pub IsWorked :
    Client → TransactionJournalSnapshot → BlockAnchor → List Entry → List JournalAttempt → Type 0
IsWorked client s head entries queue =
    SameWork (queue_of entries) queue × All (IsFounded client s head) entries

pub inspect_attempts-IsWorked :
    (client : Client) (s : TransactionJournalSnapshot) (moment : ℕ) (head : BlockAnchor)
    (queue : List JournalAttempt) (entries : List Entry)
    → inspect_attempts client moment head queue ≡ ok (taken entries)
    → IsWorked client s head entries queue
unfolding inspect_attempts
inspect_attempts-IsWorked client s moment head [] entries h =
    let e : [] ≡ entries = ground arith in subst (λ x. IsWorked client s head x []) e (refl, tt)
inspect_attempts-IsWorked client s moment head (a ∷ rest) entries h =
    let next = moment + 2 + 2 * length (transaction_hashes a) in
    elim (Result-cases (inspect_attempt client moment head a)) [
      | inr (x, e) ↦ absurd (ground (arith, e))
      | inl (moved b, e) ↦ absurd (ground (arith, e))
      | inl (taken entry, e) ↦ elim (Result-cases (inspect_attempts client next head rest)) [
        | inr (x, e') ↦ absurd (ground (arith, e, e'))
        | inl (moved b, e') ↦ absurd (ground (arith, e, e'))
        | inl (taken found, e') ↦
            let first = inspect_attempt-KeepsWork client s moment head a (taken entry) e in
            let later = inspect_attempts-IsWorked client s next head rest found e' in
            let whole : (entry ∷ found) ≡ entries = ground (arith, e, e') in
            subst (λ x. IsWorked client s head x (a ∷ rest)) whole
              (cc (first.0, later.0), (first.1, later.1))
      ]
    ]

module _ (client : Client) (s : TransactionJournalSnapshot) (o : AnchoredNonceObservation)
    (head : BlockAnchor) (range : ℕ) (at_head : o.anchor ≡ head) where
  search_entry-KeepsWork :
      (moment : ℕ) (entry : Entry) (step : Step Entry)
      → search_entry client moment s o head range entry ≡ ok step
      → IsFounded client s head entry
      → KeepsWork client s head entry.attempt step
  unfolding search_entry
  search_entry-KeepsWork moment entry step h founded =
      elim (Bool-cases (entry.is_candidate && ltb entry.attempt.nonce o.nonce)) [
        | inr e ↦
            let kept_step : taken entry ≡ step = ground (arith, e) in
            subst (KeepsWork client s head entry.attempt) kept_step (refl, founded)
        | inl e ↦
            elim (Result-cases
              (search_attempt_replacement client moment (search_for s entry.attempt o range))) [
                | inr (x, e') ↦ absurd (ground (arith, e, e'))
                | inl (r, e') ↦
                    let searched : apply_search entry head r ≡ step = ground (arith, e, e') in
                    subst (KeepsWork client s head entry.attempt) searched (
                      apply_search-KeepsWork client s moment range o entry head r at_head e'
                        founded)
              ]
      ]

  pub search_entries-IsWorked :
      (moment : ℕ) (entries found : List Entry)
      → search_entries client moment s o head range entries ≡ ok (taken found)
      → All (IsFounded client s head) entries
      → IsWorked client s head found (queue_of entries)
  unfolding search_entries
  search_entries-IsWorked moment [] found h founded =
      let e : [] ≡ found = ground arith in subst (λ x. IsWorked client s head x []) e (refl, tt)
  search_entries-IsWorked moment (entry ∷ rest) found h founded =
      let next = moment + 4 + range in
      elim (Result-cases (search_entry client moment s o head range entry)) [
        | inr (x, e) ↦ absurd (ground (arith, e))
        | inl (moved b, e) ↦ absurd (ground (arith, e))
        | inl (taken searched, e) ↦
            elim (Result-cases (search_entries client next s o head range rest)) [
              | inr (x, e') ↦ absurd (ground (arith, e, e'))
              | inl (moved b, e') ↦ absurd (ground (arith, e, e'))
              | inl (taken others, e') ↦
                  let first = search_entry-KeepsWork moment entry (taken searched) e founded.0 in
                  let later = search_entries-IsWorked next rest others e' founded.1 in
                  let whole : (searched ∷ others) ≡ found = ground (arith, e, e') in
                  subst (λ x. IsWorked client s head x (queue_of (entry ∷ rest))) whole
                    (cc (first.0, later.0), (first.1, later.1))
            ]
      ]
