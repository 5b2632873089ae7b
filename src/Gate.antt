-- ===== src/Gate.antt =====
-- apps/relayer/src/state/signer-gate.ts: whether the signer may prepare a new transaction, and
-- what keeps it from that.
pub mod Laws
use drand_quicknet_evm.Base.{
  ℕ, ◌≤◌, Bool, true, false, not, ◌&&◌, ◌||◌, Option, none, some, List, [], ◌∷◌, ltb, leb,
  if◌then◌else◌, Result, ok, err, length, any, keep,
}
use drand_quicknet_evm.Journal.{
  JournalAttempt, is_unresolved, TransactionJournalSnapshot, TransactionJournalRead, missing,
  present,
}
use drand_quicknet_evm.Journal.Value.{max_safe_integer}
use drand_quicknet_evm.Persistence.{PersistenceState, is_idle, is_failed}

pub data SignerBlocker : Type 0 where
  recovery_incomplete unresolved_attempt unattributed_signer_activity : SignerBlocker
  persistence_failure conflict_search_exhausted retention_capacity_reached : SignerBlocker

abbrev pub blocker_precedence : List SignerBlocker
blocker_precedence =
    persistence_failure ∷ unattributed_signer_activity ∷ conflict_search_exhausted
    ∷ unresolved_attempt ∷ retention_capacity_reached ∷ recovery_incomplete ∷ []

-- The coordinator's set of blockers, by the two members that it can have.
pub record CoordinatorBlockers : Type 0 where
  pub unattributed : Bool
  pub exhausted : Bool

pub record SignerGateDecision : Type 0 where
  pub is_open : Bool
  pub blockers : List SignerBlocker
  pub primary_reason : Option SignerBlocker

pub record EvaluateSignerGateOptions : Type 0 where
  pub state : PersistenceState
  pub current : TransactionJournalRead
  pub recovery_complete : Bool
  pub inclusion_checks_complete : Bool
  pub max_retained_attempts : ℕ
  pub blockers : CoordinatorBlockers

abbrev pub is_missing : TransactionJournalRead → Bool
is_missing missing = true
is_missing (present _) = false

abbrev pub attempts_of : TransactionJournalRead → List JournalAttempt
attempts_of missing = []
attempts_of (present s) = s.attempts

abbrev pub reaches_capacity : TransactionJournalRead → ℕ → Bool
reaches_capacity missing capacity = false
reaches_capacity (present s) capacity = leb capacity (length s.attempts)

-- `blockers.has(reason)`, once every reason has been added.
unfoldable pub blocks : EvaluateSignerGateOptions → SignerBlocker → Bool
blocks o persistence_failure = is_failed o.state
blocks o unattributed_signer_activity = o.blockers.unattributed
blocks o conflict_search_exhausted = o.blockers.exhausted
blocks o unresolved_attempt = any is_unresolved (attempts_of o.current)
blocks o retention_capacity_reached = reaches_capacity o.current o.max_retained_attempts
blocks o recovery_incomplete =
    not o.recovery_complete || not o.inclusion_checks_complete || is_missing o.current

abbrev pub first? : List SignerBlocker → Option SignerBlocker
first? [] = none
first? (b ∷ _) = some b

abbrev pub is_empty : List SignerBlocker → Bool
is_empty [] = true
is_empty (_ ∷ _) = false

pub data GateError : Type 0 where
  invalid_capacity : GateError

-- The decision at a capacity that is a positive safe integer.
unfoldable pub decide_gate : EvaluateSignerGateOptions → SignerGateDecision
decide_gate o =
    let ordered = keep (blocks o) blocker_precedence in
    record {
      is_open = is_idle o.state && is_empty ordered;
      blockers = ordered;
      primary_reason = first? ordered;
    }

unfoldable pub evaluate_signer_gate :
    EvaluateSignerGateOptions → Result GateError SignerGateDecision
unfolding decide_gate
evaluate_signer_gate o =
    if ltb 0 o.max_retained_attempts && leb o.max_retained_attempts max_safe_integer
    then ok (decide_gate o)
    else err invalid_capacity
