-- ===== src/Coordinator/Creation.antt =====
-- `create` of apps/relayer/src/state/signer-coordinator.ts: the journal is loaded and verified, and
-- every signed transaction in it is kept out of the log.
use drand_quicknet_evm.Base.{
  ℕ, Bool, false, none, some, List, [], ◌∷◌, ◌&&◌, ltb, leb, Result, ok, err, ◌>>=◌, ◌>>◌, require,
  if◌then◌else◌,
}
use drand_quicknet_evm.Text.{Text}
use drand_quicknet_evm.Journal.{JournalIdentity, JournalAttempt, TransactionJournalRead, all_signed}
use drand_quicknet_evm.Journal.Value.{max_safe_integer}
use drand_quicknet_evm.Journal.Verification.{Viem}
use drand_quicknet_evm.Persistence.{JournalPersistence, PersistenceError, create}
use drand_quicknet_evm.Gate.{attempts_of}
use drand_quicknet_evm.Coordinator.{
  Coordinator, CoordinatorError, invalid_capacity, diagnostics_failed, persistence_error, unset,
  reconcile_attempt,
}
use drand_quicknet_evm.Coordinator.Refresh.{
  latch_unattributed_activity, latch_exhausted_search, refresh, update_durable_recovery_revision,
}

-- What `create` is given and reads: the configuration, the journal that the store loads, whether the
-- log accepts an error summary, and the time.
pub record SignerCoordinatorOptions : Type 0 where
  pub identity : JournalIdentity
  pub initial : TransactionJournalRead
  pub max_retained_attempts : ℕ
  pub has_summary : Bool
  pub now : Text

-- The fields of a new coordinator, over its persistence.
abbrev pub initialized : SignerCoordinatorOptions → JournalPersistence → Coordinator
initialized o p = record {
  persistence = p;
  identity = o.identity;
  max_retained_attempts = o.max_retained_attempts;
  recovery_complete = false;
  inclusion_checks_complete = false;
  reconciliation_observation_active = false;
  busy = false;
  emitting = false;
  broadcast_permit = none;
  inspection_generation = 0;
  inspection_owner = none;
  blocked_since = none;
  previous_blockers = [];
  pending_write = none;
  attempt_log = none;
  last_bootstrap_deferral = none;
  committed_durable_recovery_revision = unset;
  blockers = record { unattributed = false; exhausted = false };
  episode_reasons = [];
  emissions = [];
}

abbrev pub protect : Bool → List JournalAttempt → Coordinator → Result CoordinatorError Coordinator
protect has_summary [] c = ok c
protect has_summary (first ∷ rest) c =
    if has_summary
    then ok (record c {
      attempt_log = some (all_signed (first ∷ rest));
      blocked_since = some first.created_at;
    })
    else err diagnostics_failed

abbrev pub persistence_call {ℓ} :
    {A : Type ℓ} → Result PersistenceError A → Result CoordinatorError A
persistence_call (ok a) = ok a
persistence_call (err e) = err (persistence_error e)

module _ (viem : Viem) where
  unfoldable pub create_coordinator : SignerCoordinatorOptions → Result CoordinatorError Coordinator
  create_coordinator o = do
    require (ltb 0 o.max_retained_attempts && leb o.max_retained_attempts max_safe_integer)
        invalid_capacity
    p ← persistence_call (create viem o.identity o.initial)
    c ← protect o.has_summary (attempts_of p.current) (initialized o p)
    ok (
        update_durable_recovery_revision (
          refresh o.now reconcile_attempt (latch_exhausted_search (latch_unattributed_activity c))))
