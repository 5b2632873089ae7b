-- ===== src/Gate/Laws.antt =====
-- When the gate is open, and what it names first when it is not.
use drand_quicknet_evm.Base.{
  ℕ, ◌<◌, ◌≡◌, refl, ◌⊎◌, ◌↔◌, true, false, some, List, [], ◌∷◌, arith, length, any, All, inl, inr,
}
use drand_quicknet_evm.Journal.{
  JournalAttempt, is_unresolved, Phase, included, JournalInclusionObservation,
  TransactionJournalSnapshot, TransactionJournalRead, present, missing,
}
use drand_quicknet_evm.Persistence.{idle}
use drand_quicknet_evm.Gate.{
  EvaluateSignerGateOptions, SignerBlocker, recovery_incomplete, unresolved_attempt,
  unattributed_signer_activity, persistence_failure, conflict_search_exhausted,
  retention_capacity_reached, blocks, decide_gate,
}

-- The attempt was included, and its inclusion is on record.
abbrev pub IsIncluded : JournalAttempt → Type 0
IsIncluded a = (i : JournalInclusionObservation) × (a.phase ≡ included i)

included_phase :
    (p : Phase)
    → elim p [ included _ ↦ false | _ ↦ true ] ≡ false
    → (i : JournalInclusionObservation) × (p ≡ included i)
included_phase (included i) h = (i, refl)
included_phase p h = cc

IsIncluded-of : (a : JournalAttempt) → is_unresolved a ≡ false → IsIncluded a
IsIncluded-of a h = included_phase a.phase h

not_unresolved : (a : JournalAttempt) → IsIncluded a → is_unresolved a ≡ false
not_unresolved a (i, e) = rw e

pub All-IsIncluded :
    (queue : List JournalAttempt) → any is_unresolved queue ≡ false → All IsIncluded queue
All-IsIncluded [] h = tt
All-IsIncluded (a ∷ rest) h = (IsIncluded-of a (ground arith), All-IsIncluded rest (ground arith))

pub none_unresolved :
    (queue : List JournalAttempt) → All IsIncluded queue → any is_unresolved queue ≡ false
none_unresolved [] h = refl
none_unresolved (a ∷ rest) h = rw (not_unresolved a h.0) (none_unresolved rest h.1)

pub read_cases :
    (r : TransactionJournalRead)
    → (r ≡ missing) ⊎ ((s : TransactionJournalSnapshot) × (r ≡ present s))
read_cases missing = inl refl
read_cases (present s) = inr (s, refl)

-- What an open gate stands for.
pub record IsReady (o : EvaluateSignerGateOptions) (s : TransactionJournalSnapshot) : Type 0 where
  pub idle_state : o.state ≡ idle
  pub recovered : o.recovery_complete ≡ true
  pub inclusions_checked : o.inclusion_checks_complete ≡ true
  pub attributed : o.blockers.unattributed ≡ false
  pub searchable : o.blockers.exhausted ≡ false
  pub resolved_attempts : All IsIncluded s.attempts
  pub has_capacity : length s.attempts < o.max_retained_attempts

-- The gate is open exactly when there is a journal, no write is outstanding or failed, recovery and
-- the inclusion checks are complete, neither coordinator blocker is set, every retained attempt is
-- included, and fewer attempts are retained than the capacity allows.
pub decide_gate-open :
    (o : EvaluateSignerGateOptions)
    → ((decide_gate o).is_open ≡ true)
      ↔ ((s : TransactionJournalSnapshot) × (o.current ≡ present s) × IsReady o s)
unfolding decide_gate blocks
decide_gate-open o = (
  λ h. elim (read_cases o.current) [
    | inl e ↦ absurd (ground arith)
    | inr (s, e) ↦ (
      s,
      e,
      record {
        idle_state = ground arith;
        recovered = ground arith;
        inclusions_checked = ground arith;
        attributed = ground arith;
        searchable = ground arith;
        resolved_attempts = All-IsIncluded s.attempts (ground arith);
        has_capacity = ground arith;
      },
    )
  ],
  λ (s, e, r). ground (arith, e, none_unresolved s.attempts r.resolved_attempts),
)

-- A blocker's place in the order of precedence.
abbrev pub rank : SignerBlocker → ℕ
rank persistence_failure = 0
rank unattributed_signer_activity = 1
rank conflict_search_exhausted = 2
rank unresolved_attempt = 3
rank retention_capacity_reached = 4
rank recovery_incomplete = 5

primary_blocks :
    (o : EvaluateSignerGateOptions) (b : SignerBlocker)
    → (decide_gate o).primary_reason ≡ some b
    → blocks o b ≡ true
unfolding decide_gate
primary_blocks o b h = ground arith

primary_first :
    (o : EvaluateSignerGateOptions) (b c : SignerBlocker)
    → (decide_gate o).primary_reason ≡ some b
    → rank c < rank b
    → blocks o c ≡ false
unfolding decide_gate
primary_first o b c h lt = ground arith

first_primary :
    (o : EvaluateSignerGateOptions) (b : SignerBlocker)
    → blocks o b ≡ true
    → ((c : SignerBlocker) → rank c < rank b → blocks o c ≡ false)
    → (decide_gate o).primary_reason ≡ some b
unfolding decide_gate
first_primary o b h none_before = ground (
  arith,
  none_before persistence_failure,
  none_before unattributed_signer_activity,
  none_before conflict_search_exhausted,
  none_before unresolved_attempt,
  none_before retention_capacity_reached,
)

-- The primary reason is the one that blocks the gate with nothing of higher precedence blocking it:
-- a failed write, then unattributed activity, an exhausted search, an unresolved attempt, a full
-- journal, and incomplete recovery.
pub decide_gate-primary_reason :
    (o : EvaluateSignerGateOptions) (b : SignerBlocker)
    → ((decide_gate o).primary_reason ≡ some b)
      ↔ ((blocks o b ≡ true) × ((c : SignerBlocker) → rank c < rank b → blocks o c ≡ false))
decide_gate-primary_reason o b = (
  λ h. (primary_blocks o b h, λ c. primary_first o b c h),
  λ (h, before). first_primary o b h before,
)
