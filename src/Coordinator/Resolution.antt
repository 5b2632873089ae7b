-- ===== src/Coordinator/Resolution.antt =====
-- The resolution of an attempt, and what else a recovery may change of the queue: `recoverOwned` of
-- apps/relayer/src/state/signer-coordinator.ts.
use drand_quicknet_evm.Base.{
  Option, sym, Result-cases, ℕ, ◌+◌, ◌≤◌, ◌≡◌, refl, subst, ◌⊎◌, inl, inr, Bool, true, false, none,
  some, List, [], ◌∷◌, arith, ltb, ok, Bool-cases,
}
use drand_quicknet_evm.Journal.{
  AnchoredNonceObservation, ReplacementSearch, JournalAttempt, TransactionJournalSnapshot, present,
}
use drand_quicknet_evm.Journal.Queue.{Consecutive}
use drand_quicknet_evm.Journal.Verification.{Viem}
use drand_quicknet_evm.Journal.Verification.Laws.{Accepted, Accepted-IsJournal}
use drand_quicknet_evm.Persistence.Laws.{AcceptedRead}
use drand_quicknet_evm.Coordinator.{Coordinator, InspectionOwner, AttemptResolutionEvidence}
use drand_quicknet_evm.Coordinator.Evidence.{is_resolution_evidence, matches_attempt}
use drand_quicknet_evm.Coordinator.Recover.{
  SignerRecoveryInspection, anchor_changed, nonce_behind_journal, inconsistent_observations,
  no_attempt, unresolved, resolution_available, inspected, RecoveryEnvironment, RecoveryUpdate,
  observation_to_record, recovery_update, advance, progress_of, lower_bound_for, resolve_oldest,
  record_search, updated,
}
use drand_quicknet_evm.Coordinator.Recovery.{recover_owned}
use drand_quicknet_evm.Coordinator.Recorded.{
  IsRecorded, passed_on, recorded, recover_owned-Recorded,
}
use drand_quicknet_evm.Coordinator.Invariant.{IsSteady}

-- The second queue is the first, except for the replacement search of its oldest attempt.
pub data IsSearchedAgain : List JournalAttempt → List JournalAttempt → Type 0 where
  no_attempt_left : IsSearchedAgain [] []
  oldest_searched :
      (a : JournalAttempt) (rest : List JournalAttempt) (search : Option ReplacementSearch)
      → IsSearchedAgain (a ∷ rest) (record a { replacement_search = search } ∷ rest)

-- What each result of an inspection makes of the durable nonce and the queue.
abbrev pub IsUpdateOf :
    TransactionJournalSnapshot → SignerRecoveryInspection → RecoveryUpdate → Type 0
IsUpdateOf s (resolution_available o evidence) u =
    (a : JournalAttempt) × (s.attempts ≡ a ∷ u.attempts)
    × (is_resolution_evidence evidence ≡ true)
    × (matches_attempt a evidence.outcome ≡ true)
    × (u.durable_next_nonce ≡ a.nonce + 1)
IsUpdateOf s _ u =
    (u.durable_next_nonce ≡ s.durable_next_nonce) × IsSearchedAgain s.attempts u.attempts

queue_cases :
    (queue : List JournalAttempt)
    → (queue ≡ []) ⊎ ((a : JournalAttempt) × (rest : List JournalAttempt) × (queue ≡ a ∷ rest))
queue_cases [] = inl refl
queue_cases (a ∷ rest) = inr (a, rest, refl)

record_search_lem :
    (s : TransactionJournalSnapshot) (last : AnchoredNonceObservation)
    (result : SignerRecoveryInspection) (u : RecoveryUpdate)
    → record_search s last result ≡ ok u
    → (u.last_observation ≡ last)
      × ((u.durable_next_nonce ≡ s.durable_next_nonce) × IsSearchedAgain s.attempts u.attempts)
unfolding record_search
record_search_lem s last result u h = elim (queue_cases s.attempts) [
  | inl q ↦
      let empty : [] ≡ u.attempts = ground (arith, q) in
      (
        ground (arith, q),
        (
          ground (arith, q),
          subst (λ xs. IsSearchedAgain xs u.attempts) (sym q)
              (subst (IsSearchedAgain []) empty no_attempt_left),
        ),
      )
  | inr (a, rest, q) ↦
      elim (Result-cases (advance (progress_of result) (lower_bound_for s last a))) [
        | inr (x, e) ↦ absurd (ground (arith, q, e))
        | inl ((found, pending), e) ↦
            let queue : (record a { replacement_search = found } ∷ rest) ≡ u.attempts =
              ground (arith, q, e) in
            (
              ground (arith, q, e),
              (
                ground (arith, q, e),
                subst (λ xs. IsSearchedAgain xs u.attempts) (sym q)
                    (subst (IsSearchedAgain (a ∷ rest)) queue (oldest_searched a rest found)),
              ),
            )
      ]
]

resolve_oldest_lem :
    (s : TransactionJournalSnapshot) (last : AnchoredNonceObservation)
    (evidence : AttemptResolutionEvidence) (u : RecoveryUpdate)
    → resolve_oldest s last evidence ≡ ok u
    → (a : JournalAttempt) × (s.attempts ≡ a ∷ u.attempts)
      × (is_resolution_evidence evidence ≡ true)
      × (matches_attempt a evidence.outcome ≡ true)
      × (u.last_observation ≡ last)
      × (u.durable_next_nonce ≡ a.nonce + 1)
unfolding resolve_oldest
resolve_oldest_lem s last evidence u h = elim (queue_cases s.attempts) [
  | inl q ↦ absurd (ground (arith, q))
  | inr (a, rest, q) ↦ (
    a,
    ground (arith, q),
    ground (arith, q),
    ground (arith, q),
    ground (arith, q),
    ground (arith, q),
  )
]

-- An update that a recovery records for a resolution removes the oldest attempt alone, on evidence that
-- is consistent and fits it, and makes the nonce behind it the durable one. For any other result it
-- leaves the durable nonce and every attempt as they are, but for the replacement search of the oldest.
pub recovery_update_lem :
    (s : TransactionJournalSnapshot) (last : AnchoredNonceObservation)
    (result : SignerRecoveryInspection) (u : RecoveryUpdate)
    → recovery_update s last result ≡ ok u
    → (u.last_observation ≡ last) × IsUpdateOf s result u
unfolding recovery_update
recovery_update_lem s last (resolution_available o evidence) u h =
    let (a, q, e, m, l, d) = resolve_oldest_lem s last evidence u h in (l, (a, q, e, m, d))
recovery_update_lem s last (anchor_changed b) u h = record_search_lem s last _ u h
recovery_update_lem s last (nonce_behind_journal o) u h = record_search_lem s last _ u h
recovery_update_lem s last (inconsistent_observations o) u h = record_search_lem s last _ u h
recovery_update_lem s last (no_attempt o) u h = record_search_lem s last _ u h
recovery_update_lem s last (unresolved o r found) u h = record_search_lem s last _ u h

observation_to_record_lem :
    (unattributed : Bool) (s : TransactionJournalSnapshot) (o last : AnchoredNonceObservation)
    (evidence : AttemptResolutionEvidence)
    → observation_to_record unattributed s (resolution_available o evidence) ≡ some last
    → (o.nonce ≤ last.nonce) × ((unattributed ≡ false) ⊎ (s.last_observation.nonce ≤ last.nonce))
unfolding observation_to_record
observation_to_record_lem false s o last evidence h = ground arith
observation_to_record_lem true s o last evidence h =
    elim (Bool-cases (ltb o.nonce s.last_observation.nonce)) [
      | inl e ↦ ground (arith, e)
      | inr e ↦ ground (arith, e)
    ]

observation_to_record_some :
    (unattributed : Bool) (s : TransactionJournalSnapshot) (o : AnchoredNonceObservation)
    (evidence : AttemptResolutionEvidence)
    → observation_to_record unattributed s (resolution_available o evidence) ≡ none
    → ⊥
unfolding observation_to_record
observation_to_record_some unattributed s o evidence h = ground arith

module _ (viem : Viem) where
  oldest_nonce :
      (s : TransactionJournalSnapshot) (a : JournalAttempt) (rest : List JournalAttempt)
      (c : Coordinator)
      → IsSteady viem c
      → c.persistence.current ≡ present s
      → s.attempts ≡ a ∷ rest
      → a.nonce ≡ s.durable_next_nonce
  unfolding IsSteady
  oldest_nonce s a rest c steady j q =
      let accepted : Accepted viem c.persistence.identity s =
        subst (AcceptedRead viem c.persistence.identity) j steady.0.accepted in
      let journal = Accepted-IsJournal viem c.persistence.identity s accepted in
      (subst (Consecutive s.durable_next_nonce) q journal.queue.consecutive).0

  -- A recovery that resolves: the evidence is consistent and fits the oldest attempt, which alone
  -- leaves the queue; the durable nonce goes up by exactly one, the next nonce stays, and so does an
  -- observation of unattributed activity. The file has this too, and recovery is complete.
  pub resolution_lem :
      (range : ℕ) (env : RecoveryEnvironment) (owner : InspectionOwner)
      (s : TransactionJournalSnapshot) (c : Coordinator) (o : AnchoredNonceObservation)
      (evidence : AttemptResolutionEvidence)
      → IsSteady viem c
      → c.persistence.current ≡ present s
      → (recover_owned viem range env owner c).0 ≡ ok (inspected (resolution_available o evidence))
      → (a : JournalAttempt) × (rest : List JournalAttempt) × (last : AnchoredNonceObservation)
        × (s.attempts ≡ a ∷ rest)
        × (is_resolution_evidence evidence ≡ true)
        × (matches_attempt a evidence.outcome ≡ true)
        × (o.nonce ≤ last.nonce)
        × ((c.blockers.unattributed ≡ false) ⊎ (s.last_observation.nonce ≤ last.nonce))
        × IsRecorded viem
            (record s {
              last_observation = last;
              durable_next_nonce = s.durable_next_nonce + 1;
              attempts = rest;
            })
            (recover_owned viem range env owner c).1
  unfolding IsSteady recovery_update
  resolution_lem range env owner s c o evidence steady j h =
      let (result, _, r, done) = recover_owned-Recorded viem range env owner s c _ steady.3 j h in
      let same : result ≡ resolution_available o evidence = cc in
      elim done [
        | passed_on none_at _ _ ↦ absurd (
            observation_to_record_some c.blockers.unattributed s o evidence
              (subst (λ x. observation_to_record c.blockers.unattributed s x ≡ none) same none_at))
        | recorded last u at eu d ↦
            let (higher, kept) =
              observation_to_record_lem c.blockers.unattributed s o last evidence (
                subst (λ x. observation_to_record c.blockers.unattributed s x ≡ some last) same
                  at) in
            let (a, q, readable, fits, l, n) =
              resolve_oldest_lem s last evidence u
                (subst (λ x. recovery_update s last x ≡ ok u) same eu) in
            let after : updated s u ≡ record s {
              last_observation = last;
              durable_next_nonce = s.durable_next_nonce + 1;
              attempts = u.attempts;
            } =
              simp (l, n, oldest_nonce s a u.attempts c steady j q) in
            let d' = (recover_owned viem range env owner c).1 in
            (
              a,
              u.attempts,
              last,
              q,
              readable,
              fits,
              higher,
              kept,
              subst (λ next. IsRecorded viem next d') after d,
            )
      ]
