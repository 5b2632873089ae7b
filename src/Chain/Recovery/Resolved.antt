-- ===== src/Chain/Recovery/Resolved.antt =====
-- Journals without their oldest attempt, or with another search of it.
-- apps/relayer/src/state/signer-coordinator.ts, `recoverOwned`
use drand_quicknet_evm.Text.{Text}
use drand_quicknet_evm.Journal.{signed_transactions}
use drand_quicknet_evm.Journal.Queue.{Consecutive, Distinct, hashes, all_hashes}
use drand_quicknet_evm.Base.{
  and_split, ◌++◌, ℕ, ◌+◌, ◌≤◌, ◌≡◌, sym, ◌∙◌, ap, inl, inr, true, Option, List, [], ◌∷◌, arith,
  Option-cases, subst, length, last?,
}
use drand_quicknet_evm.Journal.{
  AnchoredNonceObservation, ReplacementSearch, JournalAttempt, JournalNonceRepair,
  TransactionJournalSnapshot,
}
use drand_quicknet_evm.Journal.Check.{
  is_uint, is_observation, search_ok, is_attempt, all_of, last_repair_below,
}
use drand_quicknet_evm.Journal.Snapshot.{IsJournal, IsQueue}

below :
    (repairs : List JournalNonceRepair) (n m : ℕ)
    → n ≤ m
    → last_repair_below repairs n ≡ true
    → last_repair_below repairs m ≡ true
below repairs n m k h = elim (Option-cases (last? repairs)) [
  | inl e ↦ ground (arith, e)
  | inr (r, e) ↦ ground (arith, e, k)
]

Distinct-drop : (xs ys : List Text) → Distinct (xs ++ ys) → Distinct ys
Distinct-drop [] ys d = d
Distinct-drop (x ∷ xs) ys d = Distinct-drop xs ys d.1

-- A resolution leaves a well-formed journal.
pub resolved-IsJournal :
    (s : TransactionJournalSnapshot) (last : AnchoredNonceObservation) (a : JournalAttempt)
    (rest : List JournalAttempt)
    → IsJournal s.identity s
    → s.attempts ≡ a ∷ rest
    → is_observation last ≡ true
    → is_uint (a.nonce + 1) ≡ true
    → IsJournal s.identity
        (record s { last_observation = last; durable_next_nonce = a.nonce + 1; attempts = rest })
resolved-IsJournal s last a rest j q readable small =
    let queue : IsQueue s.durable_next_nonce (a ∷ rest) =
      subst (IsQueue s.durable_next_nonce) q j.queue in
    let first = queue.consecutive.0 in
    let many : length s.attempts ≡ length rest + 1 = ground (arith, q) in
    let all = subst (λ xs. all_of is_attempt xs ≡ true) q j.readable_attempts in
    record {
      readable_expected = j.readable_expected;
      readable_identity = j.readable_identity;
      same_chain = j.same_chain;
      same_signer = j.same_signer;
      readable_baseline = j.readable_baseline;
      readable_last = readable;
      next_in_range = j.next_in_range;
      durable_in_range = small;
      baseline_first = omega (arith, j.baseline_first, first);
      counted = omega (arith, j.counted, many, first);
      few_repairs = j.few_repairs;
      readable_repairs = j.readable_repairs;
      ordered_repairs = j.ordered_repairs;
      repaired_below =
          below s.repairs s.durable_next_nonce (a.nonce + 1) (omega (arith, first))
            j.repaired_below;
      readable_attempts = (and_split (is_attempt a) (all_of is_attempt rest) all).1;
      queue = record {
        consecutive = subst (λ n. Consecutive (n + 1) rest) (sym first) queue.consecutive.1;
        distinct_ids = queue.distinct_ids.1;
        distinct_works = queue.distinct_works.1;
        distinct_hashes =
            Distinct-drop (hashes (signed_transactions a)) (all_hashes rest) queue.distinct_hashes;
      };
    }

-- So does another search of the oldest attempt.
pub searched-IsJournal :
    (s : TransactionJournalSnapshot) (last : AnchoredNonceObservation) (a : JournalAttempt)
    (rest : List JournalAttempt) (found : Option ReplacementSearch)
    → IsJournal s.identity s
    → s.attempts ≡ a ∷ rest
    → is_observation last ≡ true
    → search_ok a.nonce found ≡ true
    → IsJournal s.identity (record s {
      last_observation = last;
      attempts = record a { replacement_search = found } ∷ rest;
    })
searched-IsJournal s last a rest found j q readable valid =
    let queue : IsQueue s.durable_next_nonce (a ∷ rest) =
      subst (IsQueue s.durable_next_nonce) q j.queue in
    let all = subst (λ xs. all_of is_attempt xs ≡ true) q j.readable_attempts in
    record {
      readable_expected = j.readable_expected;
      readable_identity = j.readable_identity;
      same_chain = j.same_chain;
      same_signer = j.same_signer;
      readable_baseline = j.readable_baseline;
      readable_last = readable;
      next_in_range = j.next_in_range;
      durable_in_range = j.durable_in_range;
      baseline_first = j.baseline_first;
      counted = j.counted ∙ ap (λ xs. s.durable_next_nonce + length {A = JournalAttempt} xs) q;
      few_repairs = j.few_repairs;
      readable_repairs = j.readable_repairs;
      ordered_repairs = j.ordered_repairs;
      repaired_below = j.repaired_below;
      readable_attempts = ground (arith, all, valid);
      queue = record {
        consecutive = queue.consecutive;
        distinct_ids = queue.distinct_ids;
        distinct_works = queue.distinct_works;
        distinct_hashes = queue.distinct_hashes;
      };
    }
