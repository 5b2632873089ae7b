-- ===== src/Chain/Inclusions/Inspected.antt =====
-- What an inspection of the retained attempts returns, for any answers of the node:
-- apps/relayer/src/chain/inspect-signer-inclusions.ts.
use drand_quicknet_evm.Base.{
  All, ℕ, ◌+◌, ◌≤◌, ◌≡◌, refl, inl, inr, Bool, true, false, Option, none, some, List, [], ◌∷◌,
  arith, ok, any, length, ltb, Bool-cases, Result-cases, subst, ◌∙◌, ap,
}
use drand_quicknet_evm.Text.{Text}
use drand_quicknet_evm.Journal.{
  BlockAnchor, AnchoredNonceObservation, JournalAttempt, is_unresolved, TransactionJournalSnapshot,
}
use drand_quicknet_evm.Journal.Value.{snapshot_value, identity_value}
use drand_quicknet_evm.Journal.Snapshot.{IsJournal}
use drand_quicknet_evm.Journal.Validation.Structure.{validate_journal_snapshot_structure}
use drand_quicknet_evm.Journal.Validation.Same.{validate-same}
use drand_quicknet_evm.Journal.Validation.Laws.{validate-snapshot_value, validate-IsJournal}
use drand_quicknet_evm.Coordinator.Inclusions.{InspectedInclusions, SignerInclusionInspection}
use drand_quicknet_evm.Chain.{Client}
use drand_quicknet_evm.Chain.Nonce.{AnchoredNonceResult, read_anchored_nonce}
use drand_quicknet_evm.Chain.Inclusions.{Entry, taken, moved, inspect_attempts}
use drand_quicknet_evm.Chain.Inclusions.Pass.{
  search_candidates, broadcast_id, queue_of, conclude_inclusions, check_outer_head,
  close_inclusions, contradicts, all_verified, search_calls, inspect_at_nonce, inspect_entries,
  queue_calls, inspect_queue, inspect_signer_inclusions,
}
use drand_quicknet_evm.Chain.Inclusions.Seen.{IsSeenAt, HasNoReceipt, IsFounded}
use drand_quicknet_evm.Chain.Nonce.Ready.{read_anchored_nonce_iff}
use drand_quicknet_evm.Chain.Inclusions.Work.{
  SameWork, IsWorked, inspect_attempts-IsWorked, search_entries-IsWorked,
}

-- The first attempt of the queue that is not included has this identity, and its nonce is the next one
-- at the head, where no receipt of it was found and all attempts before it were seen.
abbrev pub IsOldestOpen :
    Client
    → TransactionJournalSnapshot
    → BlockAnchor
    → AnchoredNonceObservation
    → Text
    → List JournalAttempt
    → Type 0
IsOldestOpen client s head o id [] = ⊥
IsOldestOpen client s head o id (a ∷ rest) = elim (is_unresolved a) [
  | true ↦ (a.attempt_id ≡ id) × (o.nonce ≡ a.nonce) × HasNoReceipt client head a
  | false ↦ IsSeenAt client s head a × IsOldestOpen client s head o id rest
]

pub record IsInspected (client : Client) (s : TransactionJournalSnapshot) (head : BlockAnchor)
    (i : InspectedInclusions) : Type 0 where
  pub is_journal :
      IsJournal s.identity (record s { last_observation = i.observation; attempts = i.attempts })
  pub same_work : SameWork i.attempts s.attempts
  pub is_ahead : s.durable_next_nonce ≤ i.observation.nonce
  pub is_complete : i.inclusion_checks_complete ≡ true → All (IsSeenAt client s head) i.attempts
  pub is_permitted :
      (id : Text)
      → i.broadcast_attempt_id ≡ some id
      → IsOldestOpen client s head i.observation id i.attempts

broadcast_id-IsOldestOpen :
    (client : Client) (s : TransactionJournalSnapshot) (head : BlockAnchor)
    (o : AnchoredNonceObservation) (entries : List Entry) (id : Text)
    → All (IsFounded client s head) entries
    → broadcast_id o entries ≡ some id
    → IsOldestOpen client s head o id (queue_of entries)
unfolding broadcast_id
broadcast_id-IsOldestOpen client s head o [] id founded h = ground arith
broadcast_id-IsOldestOpen client s head o (entry ∷ rest) id founded h =
    elim (Bool-cases (is_unresolved entry.attempt)) [
      | inl e ↦
          rw (e, IsOldestOpen)
            (ground (arith, e), ground (arith, e), founded.0.1 (ground (arith, e)))
      | inr e ↦
          let later =
            broadcast_id-IsOldestOpen client s head o rest id founded.1 (ground (arith, e)) in
          rw (e, IsOldestOpen) (founded.0.0 (ground (arith, e)), later)
    ]

all_verified_lem :
    (client : Client) (s : TransactionJournalSnapshot) (head : BlockAnchor) (entries : List Entry)
    → All (IsFounded client s head) entries
    → all_verified entries ≡ true
    → All (IsSeenAt client s head) (queue_of entries)
all_verified_lem client s head [] founded h = tt
all_verified_lem client s head (entry ∷ rest) founded h =
    (founded.0.0 (ground arith), all_verified_lem client s head rest founded.1 (ground arith))

conclude_inclusions-IsInspected :
    (client : Client) (s : TransactionJournalSnapshot) (o : AnchoredNonceObservation)
    (head : BlockAnchor) (entries : List Entry) (i : InspectedInclusions)
    → IsWorked client s head entries s.attempts
    → s.durable_next_nonce ≤ o.nonce
    → conclude_inclusions s o entries ≡ ok (SignerInclusionInspection.inspected i)
    → IsInspected client s head i
unfolding conclude_inclusions
conclude_inclusions-IsInspected client s o head entries i w n h =
    let next : TransactionJournalSnapshot = record s {
      last_observation = o;
      attempts = queue_of entries;
    } in
    elim (Result-cases
      (validate_journal_snapshot_structure (snapshot_value next) (identity_value s.identity))) [
        | inr (x, e) ↦ absurd (ground (arith, e))
        | inl (t, e) ↦
            let same : t ≡ next = validate-same next (identity_value s.identity) t e in
            let e' : validate_journal_snapshot_structure (snapshot_value next)
                  (identity_value s.identity)
                ≡ ok next =
              e ∙ ap (λ x. ok x) same in
            let journal = validate-IsJournal s.identity (snapshot_value next) next e' in
            let given : InspectedInclusions = record {
              observation = o;
              attempts = queue_of entries;
              inclusion_checks_complete = all_verified entries;
              broadcast_attempt_id = broadcast_id o entries;
            } in
            let same_end : given ≡ i = ground (arith, e') in
            subst (IsInspected client s head) same_end (record {
              is_journal = journal;
              same_work = w.0;
              is_complete = all_verified_lem client s head entries w.1;
              is_ahead = n;
              is_permitted = λ id. broadcast_id-IsOldestOpen client s head o entries id w.1;
            })
      ]

module _ (client : Client) (moment : ℕ) (checks : Bool) (s : TransactionJournalSnapshot)
    (head : BlockAnchor) (range : Option ℕ) (i : InspectedInclusions) where
  candidates_lem :
      (later : ℕ) (o : AnchoredNonceObservation) (entries found : List Entry)
      → o.anchor ≡ head
      → IsWorked client s head entries s.attempts
      → search_candidates client later s o head range entries ≡ ok (taken found)
      → IsWorked client s head found s.attempts
  unfolding search_candidates
  candidates_lem later o entries found at_head w h =
      elim range as (λ r. range ≡ r → IsWorked client s head found s.attempts) [
        | none ↦ λ e.
            let unchanged : entries ≡ found = ground (arith, e) in
            subst (λ x. IsWorked client s head x s.attempts) unchanged w
        | some n ↦ λ e.
            let (work, founded) =
              search_entries-IsWorked client s o head n at_head later entries found
                (ground (arith, e)) w.1 in
            (work ∙ w.0, founded)
      ]
        refl

  at_nonce_lem :
      (later : ℕ) (o : AnchoredNonceObservation) (entries : List Entry)
      → o.anchor ≡ head
      → IsWorked client s head entries s.attempts
      → inspect_at_nonce client later checks s o head range entries
        ≡ ok (SignerInclusionInspection.inspected i)
      → IsInspected client s head i
  unfolding inspect_at_nonce close_inclusions
  at_nonce_lem later o entries at_head w h = elim (Bool-cases (ltb o.nonce s.durable_next_nonce)) [
    | inl e ↦ absurd (ground (arith, e))
    | inr e ↦ elim (Bool-cases (any (contradicts o) entries)) [
      | inl e1 ↦ absurd (ground (arith, e, e1))
      | inr e1 ↦ elim (Result-cases (search_candidates client later s o head range entries)) [
        | inr (x, e2) ↦ absurd (ground (arith, e, e1, e2))
        | inl (moved b, e2) ↦ absurd (ground (arith, e, e1, e2))
        | inl (taken found, e2) ↦
            elim (Result-cases (
              check_outer_head client (later + search_calls range (length entries)) checks s
                head)) [
                  | inr (x, e3) ↦ absurd (ground (arith, e, e1, e2, e3))
                  | inl (some b, e3) ↦ absurd (ground (arith, e, e1, e2, e3))
                  | inl (none, e3) ↦
                      conclude_inclusions-IsInspected client s o head found i
                        (candidates_lem later o entries found at_head w e2) (ground (arith, e))
                        (ground (arith, e, e1, e2, e3))
                ]
      ]
    ]
  ]

  queue_lem :
      inspect_queue client moment checks s head range ≡ ok (SignerInclusionInspection.inspected i)
      → IsInspected client s head i
  unfolding inspect_queue inspect_entries
  queue_lem h = elim (Result-cases (check_outer_head client moment checks s head)) [
    | inr (x, e) ↦ absurd (ground (arith, e))
    | inl (some b, e) ↦ absurd (ground (arith, e))
    | inl (none, e) ↦ elim (Result-cases (inspect_attempts client (moment + 1) head s.attempts)) [
      | inr (x, e1) ↦ absurd (ground (arith, e, e1))
      | inl (moved b, e1) ↦ absurd (ground (arith, e, e1))
      | inl (taken entries, e1) ↦
          let later = moment + 1 + queue_calls s.attempts in
          elim (Result-cases (read_anchored_nonce client later s.identity.signer head)) [
            | inr (x, e2) ↦ absurd (ground (arith, e, e1, e2))
            | inl (AnchoredNonceResult.anchor_changed b, e2) ↦ absurd (ground (arith, e, e1, e2))
            | inl (AnchoredNonceResult.verified o, e2) ↦
                at_nonce_lem (later + 3) o entries
                  ((read_anchored_nonce_iff client later s.identity.signer head o).0
                    e2).is_anchor_of
                  (inspect_attempts-IsWorked client s (moment + 1) head s.attempts entries e1)
                  (ground (arith, e, e1, e2))
          ]
    ]
  ]

  -- Whatever the node answers, a completed inspection of a well-formed journal keeps the work of every
  -- attempt, changing its phase and its search at most; with the observation it is a well-formed journal
  -- again, whose durable nonce the observation has reached. When it calls its checks complete, every
  -- attempt is seen at the head: it is included by a receipt of its transaction that the node served, in
  -- a block that the node then had at that number, or by a search for its nonce that found another
  -- transaction. An attempt that it lets be broadcast is the first that is not included, behind seen ones
  -- alone, has the next nonce at the head, and the receipts of its transactions were missing or of
  -- another fork.
  pub inspect_signer_inclusions-IsInspected :
      IsJournal s.identity s
      → inspect_signer_inclusions client moment checks s head range
        ≡ ok (SignerInclusionInspection.inspected i)
      → IsInspected client s head i
  unfolding inspect_signer_inclusions
  inspect_signer_inclusions-IsInspected j h =
      queue_lem (ground (arith, validate-snapshot_value s.identity s j))
