-- ===== src/Journal/Snapshot.antt =====
-- The loop over the attempts decides `IsQueue`, and a well-formed journal of an identity.
use drand_quicknet_evm.Base.{
  ℕ, ◌+◌, ◌≤◌, ◌≡◌, refl, subst, true, List, [], ◌∷◌, arith, length, Option-cases, inl, inr, ◌↔◌,
  ==_iff,
}
use drand_quicknet_evm.Text.{Text, lower, same}
use drand_quicknet_evm.Text.Equality.{has→Fresh, Fresh→has}
use drand_quicknet_evm.Journal.{
  AnchoredNonceObservation, JournalIdentity, JournalAttempt, signed_transactions,
  TransactionJournalSnapshot, max_retained_nonce_repairs,
}
use drand_quicknet_evm.Journal.Check.{
  is_uint, is_identity, is_observation, is_repair, is_attempt, all_of, repair_order,
  last_repair_below, fresh_hashes, attempts_in_order,
}
use drand_quicknet_evm.Journal.Queue.{
  DistinctFrom, Distinct, ids, works, hashes, all_hashes, Consecutive, pushed, DistinctFrom-append,
  DistinctFrom→Distinct, Distinct→DistinctFrom, All-trivial, fresh_hashes→DistinctFrom,
  DistinctFrom→fresh_hashes,
}

-- A queue from nonce `n` on whose identities avoid those seen before.
record QueueFrom (n : ℕ) (is ws hs : List Text) (queue : List JournalAttempt) : Type 0 where
  consecutive : Consecutive n queue
  fresh_ids : DistinctFrom is (ids queue)
  fresh_works : DistinctFrom ws (works queue)
  fresh_hash : DistinctFrom hs (all_hashes queue)

attempts_in_order→QueueFrom :
    (n : ℕ) (is ws hs : List Text) (queue : List JournalAttempt)
    → attempts_in_order n is ws hs queue ≡ true
    → QueueFrom n is ws hs queue
attempts_in_order→QueueFrom n is ws hs [] h = record {
  consecutive = tt;
  fresh_ids = tt;
  fresh_works = tt;
  fresh_hash = tt;
}
attempts_in_order→QueueFrom n is ws hs (a ∷ rest) h =
    elim (Option-cases (fresh_hashes (signed_transactions a) hs)) [
      | inl e ↦ absurd (ground arith)
      | inr (seen, e) ↦
          let (d, pushes) = fresh_hashes→DistinctFrom (signed_transactions a) hs e in
          let q =
            attempts_in_order→QueueFrom (n + 1) (lower a.attempt_id ∷ is) (a.work_id ∷ ws) seen rest
              (ground arith) in
          record {
            consecutive = (ground arith, q.consecutive);
            fresh_ids = (has→Fresh (lower a.attempt_id) is (ground arith), q.fresh_ids);
            fresh_works = (has→Fresh a.work_id ws (ground arith), q.fresh_works);
            fresh_hash =
                (DistinctFrom-append hs (hashes (signed_transactions a)) (all_hashes rest)).1
                  (d, subst (λ s. DistinctFrom s (all_hashes rest)) pushes q.fresh_hash);
          }
    ]

QueueFrom→attempts_in_order :
    (n : ℕ) (is ws hs : List Text) (queue : List JournalAttempt)
    → QueueFrom n is ws hs queue
    → attempts_in_order n is ws hs queue ≡ true
QueueFrom→attempts_in_order n is ws hs [] q = refl
QueueFrom→attempts_in_order n is ws hs (a ∷ rest) q =
    let (d, more) =
      (DistinctFrom-append hs (hashes (signed_transactions a)) (all_hashes rest)).0 q.fresh_hash in
    let rest_ok =
      QueueFrom→attempts_in_order (n + 1) (lower a.attempt_id ∷ is) (a.work_id ∷ ws)
        (pushed hs (hashes (signed_transactions a))) rest
        (record {
          consecutive = q.consecutive.1;
          fresh_ids = q.fresh_ids.1;
          fresh_works = q.fresh_works.1;
          fresh_hash = more;
        }) in
    rw
      (
        DistinctFrom→fresh_hashes (signed_transactions a) hs d,
        Fresh→has (lower a.attempt_id) is q.fresh_ids.0,
        Fresh→has a.work_id ws q.fresh_works.0,
        (==_iff a.nonce n).1 q.consecutive.0,
      )
      rest_ok

-- Consecutive nonces from `n` on, and every attempt, work and transaction hash once.
pub record IsQueue (n : ℕ) (queue : List JournalAttempt) : Type 0 where
  pub consecutive : Consecutive n queue
  pub distinct_ids : Distinct (ids queue)
  pub distinct_works : Distinct (works queue)
  pub distinct_hashes : Distinct (all_hashes queue)

pub attempts_in_order-IsQueue :
    (n : ℕ) (queue : List JournalAttempt)
    → (attempts_in_order n [] [] [] queue ≡ true) ↔ IsQueue n queue
attempts_in_order-IsQueue n queue = (
  λ h.
      let q = attempts_in_order→QueueFrom n [] [] [] queue h in
      record {
        consecutive = q.consecutive;
        distinct_ids = (DistinctFrom→Distinct [] (ids queue) q.fresh_ids).1;
        distinct_works = (DistinctFrom→Distinct [] (works queue) q.fresh_works).1;
        distinct_hashes = (DistinctFrom→Distinct [] (all_hashes queue) q.fresh_hash).1;
      },
  λ q. QueueFrom→attempts_in_order n [] [] [] queue (record {
    consecutive = q.consecutive;
    fresh_ids = Distinct→DistinctFrom [] (ids queue) (All-trivial (ids queue)) q.distinct_ids;
    fresh_works =
        Distinct→DistinctFrom [] (works queue) (All-trivial (works queue)) q.distinct_works;
    fresh_hash =
        Distinct→DistinctFrom [] (all_hashes queue) (All-trivial (all_hashes queue))
          q.distinct_hashes;
  }),
)

-- A well-formed journal of the identity.
pub record IsJournal (expected : JournalIdentity) (s : TransactionJournalSnapshot) : Type 0 where
  pub readable_expected : is_identity expected ≡ true
  pub readable_identity : is_identity s.identity ≡ true
  pub same_chain : s.identity.chain_id ≡ expected.chain_id
  pub same_signer : same s.identity.signer expected.signer ≡ true
  pub readable_baseline : is_observation s.baseline ≡ true
  pub readable_last : is_observation s.last_observation ≡ true
  pub next_in_range : is_uint s.next_nonce ≡ true
  pub durable_in_range : is_uint s.durable_next_nonce ≡ true
  pub baseline_first : s.baseline.nonce ≤ s.durable_next_nonce
  pub counted : s.next_nonce ≡ s.durable_next_nonce + length s.attempts
  pub few_repairs : length s.repairs ≤ max_retained_nonce_repairs
  pub readable_repairs : all_of is_repair s.repairs ≡ true
  pub ordered_repairs : repair_order s.repairs ≡ true
  pub repaired_below : last_repair_below s.repairs s.durable_next_nonce ≡ true
  pub readable_attempts : all_of is_attempt s.attempts ≡ true
  pub queue : IsQueue s.durable_next_nonce s.attempts

-- A well-formed journal stays one with another readable observation.
pub observed-IsJournal :
    (expected : JournalIdentity) (s : TransactionJournalSnapshot) (o : AnchoredNonceObservation)
    → is_observation o ≡ true
    → IsJournal expected s
    → IsJournal expected (record s { last_observation = o })
observed-IsJournal expected s o readable j = record {
  readable_last = readable;
  readable_expected = j.readable_expected;
  readable_identity = j.readable_identity;
  same_chain = j.same_chain;
  same_signer = j.same_signer;
  readable_baseline = j.readable_baseline;
  next_in_range = j.next_in_range;
  durable_in_range = j.durable_in_range;
  baseline_first = j.baseline_first;
  counted = j.counted;
  few_repairs = j.few_repairs;
  readable_repairs = j.readable_repairs;
  ordered_repairs = j.ordered_repairs;
  repaired_below = j.repaired_below;
  readable_attempts = j.readable_attempts;
  queue = j.queue;
}
