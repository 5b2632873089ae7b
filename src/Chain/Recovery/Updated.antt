-- ===== src/Chain/Recovery/Updated.antt =====
-- The journal that a recovery makes of the one it inspected: `recoverOwned` of
-- apps/relayer/src/state/signer-coordinator.ts, after chain/inspect-signer-recovery.ts.
use drand_quicknet_evm.Base.{
  and_split, ◌+◌, ◌≡◌, ◌⊎◌, refl, sym, inl, inr, Bool, true, Option, none, some, List, [], ◌∷◌,
  ◌&&◌, arith, ok, Bool-cases, Result-cases, ltb, subst,
}
use drand_quicknet_evm.Journal.{
  AnchoredNonceObservation, ReplacementSearch, JournalAttempt, TransactionJournalSnapshot,
}
use drand_quicknet_evm.Journal.Check.{is_uint, is_observation, search_ok, is_attempt, all_of}
use drand_quicknet_evm.Journal.Snapshot.{IsJournal, observed-IsJournal}
use drand_quicknet_evm.Coordinator.{AttemptResolutionEvidence, PendingWrite}
use drand_quicknet_evm.Coordinator.Recover.{
  UnresolvedReceipt, UnresolvedSearch, SignerRecoveryInspection, resolution_available, unresolved,
  oldest_attempt, RecoveryUpdate, progress_of, lower_bound_for, advance, recovery_update,
  record_search, updated, observation_to_record,
}
use drand_quicknet_evm.Coordinator.Resolution.{recovery_update_lem}
use drand_quicknet_evm.Chain.Recovery.Found.{IsResolving, IsJustifiedFor}
use drand_quicknet_evm.Chain.Recovery.Resolved.{resolved-IsJournal, searched-IsJournal}
use drand_quicknet_evm.Chain.Recovery.Progress.{lower_ok, plain_search, moved_search}

-- The result of an inspection without an attempt.
abbrev pub IsPlain : SignerRecoveryInspection → Type 0
IsPlain (resolution_available _ _) = ⊥
IsPlain (unresolved _ _ _) = ⊥
IsPlain (SignerRecoveryInspection.no_attempt o) = is_observation o ≡ true
IsPlain _ = Unit

record_search_of :
    (s : TransactionJournalSnapshot) (last : AnchoredNonceObservation)
    (result : SignerRecoveryInspection) (u : RecoveryUpdate) (a : JournalAttempt)
    (rest : List JournalAttempt)
    → s.attempts ≡ a ∷ rest
    → record_search s last result ≡ ok u
    → (found : Option ReplacementSearch) × (pending : PendingWrite) × (advance
          (progress_of result)
          (lower_bound_for s last a)
        ≡ ok (found, pending))
      × (record s {
        last_observation = last;
        attempts = record a { replacement_search = found } ∷ rest;
      }
          ≡ updated s u)
unfolding record_search
record_search_of s last result u a rest q h =
    elim (Result-cases (advance (progress_of result) (lower_bound_for s last a))) [
      | inr (x, e) ↦ absurd (ground (arith, q, e))
      | inl ((found, pending), e) ↦ (found, pending, e, ground (arith, q, e))
    ]

record_search-none :
    (s : TransactionJournalSnapshot) (last : AnchoredNonceObservation)
    (result : SignerRecoveryInspection) (u : RecoveryUpdate)
    → oldest_attempt s ≡ none
    → record_search s last result ≡ ok u
    → record s { last_observation = last } ≡ updated s u
unfolding record_search
record_search-none s last result u q h = ground (arith, q)

resolution_last :
    (unattributed : Bool) (s : TransactionJournalSnapshot) (o last : AnchoredNonceObservation)
    (evidence : AttemptResolutionEvidence)
    → observation_to_record unattributed s (resolution_available o evidence) ≡ some last
    → (o ≡ last) ⊎ (s.last_observation ≡ last)
unfolding observation_to_record
resolution_last unattributed s o last evidence h =
    elim (Bool-cases (unattributed && ltb o.nonce s.last_observation.nonce)) [
      | inl e ↦ inr (ground (arith, e))
      | inr e ↦ inl (ground (arith, e))
    ]

unresolved_last :
    (unattributed : Bool) (s : TransactionJournalSnapshot) (o last : AnchoredNonceObservation)
    (r : UnresolvedReceipt) (found : Option UnresolvedSearch)
    → observation_to_record unattributed s (unresolved o r found) ≡ some last
    → o ≡ last
unfolding observation_to_record
unresolved_last unattributed s o last r found h =
    elim (Bool-cases (unattributed && ltb o.nonce s.last_observation.nonce)) [
      | inl e ↦ absurd (ground (arith, e))
      | inr e ↦ ground (arith, e)
    ]

no_attempt_last :
    (unattributed : Bool) (s : TransactionJournalSnapshot) (o last : AnchoredNonceObservation)
    → observation_to_record unattributed s (SignerRecoveryInspection.no_attempt o) ≡ some last
    → o ≡ last
unfolding observation_to_record
no_attempt_last unattributed s o last h =
    elim (Bool-cases (unattributed && ltb o.nonce s.last_observation.nonce)) [
      | inl e ↦ absurd (ground (arith, e))
      | inr e ↦ ground (arith, e)
    ]

module _ (s : TransactionJournalSnapshot) (unattributed : Bool) (last : AnchoredNonceObservation)
    (u : RecoveryUpdate) (j : IsJournal s.identity s) where
  empty-IsJournal :
      (result : SignerRecoveryInspection)
      → oldest_attempt s ≡ none
      → IsPlain result
      → observation_to_record unattributed s result ≡ some last
      → recovery_update s last result ≡ ok u
      → IsJournal s.identity (updated s u)
  unfolding recovery_update observation_to_record
  empty-IsJournal (SignerRecoveryInspection.no_attempt o) q plain k e =
      let readable : is_observation last ≡ true =
        subst (λ x. is_observation x ≡ true) (no_attempt_last unattributed s o last k) plain in
      subst (IsJournal s.identity) (record_search-none s last _ u q e)
        (observed-IsJournal s.identity s last readable j)
  empty-IsJournal (resolution_available _ _) q plain k e = absurd plain
  empty-IsJournal (unresolved _ _ _) q plain k e = absurd plain
  empty-IsJournal (SignerRecoveryInspection.anchor_changed _) q plain k e = absurd (ground arith)
  empty-IsJournal (SignerRecoveryInspection.nonce_behind_journal _) q plain k e =
      absurd (ground arith)
  empty-IsJournal (SignerRecoveryInspection.inconsistent_observations _) q plain k e =
      absurd (ground arith)

  module _ (a : JournalAttempt) (rest : List JournalAttempt) (q : s.attempts ≡ a ∷ rest) where
    attempt_valid : is_attempt a ≡ true
    attempt_valid =
        let all = subst (λ xs. all_of is_attempt xs ≡ true) q j.readable_attempts in
        (and_split (is_attempt a) (all_of is_attempt rest) all).0

    searched_with :
        (result : SignerRecoveryInspection)
        → is_observation last ≡ true
        → record_search s last result ≡ ok u
        → ((found : Option ReplacementSearch) (pending : PendingWrite)
            → advance (progress_of result) (lower_bound_for s last a) ≡ ok (found, pending)
            → search_ok a.nonce found ≡ true)
        → IsJournal s.identity (updated s u)
    searched_with result readable e valid =
        let (found, pending, h, same_end) = record_search_of s last result u a rest q e in
        subst (IsJournal s.identity) same_end
          (searched-IsJournal s last a rest found j q readable (valid found pending h))

    plain-IsJournal :
        (result : SignerRecoveryInspection)
        → progress_of result ≡ none
        → is_observation last ≡ true
        → record_search s last result ≡ ok u
        → IsJournal s.identity (updated s u)
    plain-IsJournal result p readable e = searched_with result readable e (λ found pending h.
        plain_search result a (lower_bound_for s last a) found pending p h
          (lower_ok s last a readable j.readable_last attempt_valid))

    resolved_with :
        (o : AnchoredNonceObservation) (evidence : AttemptResolutionEvidence)
        → IsResolving a o evidence
        → observation_to_record unattributed s (resolution_available o evidence) ≡ some last
        → recovery_update s last (resolution_available o evidence) ≡ ok u
        → IsJournal s.identity (updated s u)
    resolved_with o evidence r k e =
        let (same_last, (b, queue, _, _, durable)) =
          recovery_update_lem s last (resolution_available o evidence) u e in
        let readable : is_observation last ≡ true =
          elim (resolution_last unattributed s o last evidence k) [
            | inl x ↦ subst (λ x. is_observation x ≡ true) x r.is_read
            | inr x ↦ subst (λ x. is_observation x ≡ true) x j.readable_last
          ] in
        let heads : (a ≡ b) × (rest ≡ u.attempts) = ground (arith, q, queue) in
        let small : is_uint (a.nonce + 1) ≡ true = ground (arith, r.is_read, r.is_consumed) in
        let same_end : record s {
          last_observation = last;
          durable_next_nonce = a.nonce + 1;
          attempts = rest;
        }
            ≡ updated s u =
          ground (arith, heads, durable, same_last) in
        subst (IsJournal s.identity) same_end (resolved-IsJournal s last a rest j q readable small)

    unresolved_with :
        (o : AnchoredNonceObservation) (r : UnresolvedReceipt) (found : Option UnresolvedSearch)
        → progress_of (unresolved o r found) ≡ none
        → is_observation o ≡ true
        → observation_to_record unattributed s (unresolved o r found) ≡ some last
        → record_search s last (unresolved o r found) ≡ ok u
        → IsJournal s.identity (updated s u)
    unresolved_with o r found p seen k e =
        plain-IsJournal (unresolved o r found) p
          (subst (λ x. is_observation x ≡ true) (unresolved_last unattributed s o last r found k)
            seen)
          e

    justified-IsJournal :
        (result : SignerRecoveryInspection)
        → IsJustifiedFor s a result
        → observation_to_record unattributed s result ≡ some last
        → recovery_update s last result ≡ ok u
        → IsJournal s.identity (updated s u)
    unfolding recovery_update observation_to_record
    justified-IsJournal (resolution_available o evidence) r k e = resolved_with o evidence r k e
    justified-IsJournal (SignerRecoveryInspection.no_attempt o) r k e =
        plain-IsJournal _ refl
          (subst (λ x. is_observation x ≡ true) (no_attempt_last unattributed s o last k) r) e
    justified-IsJournal (unresolved o r (some (UnresolvedSearch.not_found through scanned left))) st
          k e =
        let same_last =
          unresolved_last unattributed s o last r
            (some (UnresolvedSearch.not_found through scanned left)) k in
        searched_with _ (subst (λ x. is_observation x ≡ true) same_last st.is_read) e
          (λ found pending h.
            moved_search s a o r through scanned left found pending j.readable_last attempt_valid st
              (subst
                (λ x.
                  advance
                    (progress_of
                      (unresolved o r (some (UnresolvedSearch.not_found through scanned left))))
                    (lower_bound_for s x a)
                  ≡ ok (found, pending))
                (sym same_last) h))
    justified-IsJournal (unresolved o r none) seen k e = unresolved_with o r none refl seen k e
    justified-IsJournal (unresolved o r (some UnresolvedSearch.missing_lower_bound)) seen k e =
        unresolved_with o r (some UnresolvedSearch.missing_lower_bound) refl seen k e
    justified-IsJournal (unresolved o r (some UnresolvedSearch.recorded_transaction_found)) seen k
          e =
        unresolved_with o r (some UnresolvedSearch.recorded_transaction_found) refl seen k e
    justified-IsJournal (unresolved o r (some UnresolvedSearch.anchor_behind_search)) seen k e =
        absurd (ground arith)
    justified-IsJournal (unresolved o r (some UnresolvedSearch.boundary_changed)) seen k e =
        absurd (ground arith)
    justified-IsJournal (SignerRecoveryInspection.anchor_changed _) r k e = absurd (ground arith)
    justified-IsJournal (SignerRecoveryInspection.nonce_behind_journal _) r k e =
        absurd (ground arith)
    justified-IsJournal (SignerRecoveryInspection.inconsistent_observations _) r k e =
        absurd (ground arith)

queue_of_oldest :
    (queue : List JournalAttempt) (a : JournalAttempt) (s : TransactionJournalSnapshot)
    → s.attempts ≡ queue
    → oldest_attempt s ≡ some a
    → (rest : List JournalAttempt) × (s.attempts ≡ a ∷ rest)
queue_of_oldest [] a s q h = absurd (ground (arith, q))
queue_of_oldest (b ∷ rest) a s q h = (rest, ground (arith, q))

-- The journal that is updated for a result is well formed, given what the inspection had of the result.
pub updated-IsJournal :
    (s : TransactionJournalSnapshot) (unattributed : Bool) (result : SignerRecoveryInspection)
    (last : AnchoredNonceObservation) (u : RecoveryUpdate)
    → IsJournal s.identity s
    → ((oldest_attempt s ≡ none) × IsPlain result)
      ⊎ ((a : JournalAttempt) × (oldest_attempt s ≡ some a) × IsJustifiedFor s a result)
    → observation_to_record unattributed s result ≡ some last
    → recovery_update s last result ≡ ok u
    → IsJournal s.identity (updated s u)
updated-IsJournal s unattributed result last u j (inl (q, plain)) k e =
    empty-IsJournal s unattributed last u j result q plain k e
updated-IsJournal s unattributed result last u j (inr (a, q, justified)) k e =
    let (rest, whole) = queue_of_oldest s.attempts a s refl q in
    justified-IsJournal s unattributed last u j a rest whole result justified k e
