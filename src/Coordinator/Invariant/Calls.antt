-- ===== src/Coordinator/Invariant/Calls.antt =====
-- Every sequence of calls of the coordinator, apps/relayer/src/state/signer-coordinator.ts, with
-- whatever the store, the node, the clock and the log answer to each of them.
use drand_quicknet_evm.Base.{
  ℕ, ◌≡◌, refl, Bool, none, List, [], ◌∷◌, arith, Result, ok, err, subst, sym, >>=-eq-ok,
  require-eq-ok, ok_injective,
}
use drand_quicknet_evm.Text.{Text}
use drand_quicknet_evm.Journal.{
  BlockAnchor, JournalIdentity, JournalAttempt, TransactionJournalRead, missing, present,
}
use drand_quicknet_evm.Journal.Verification.{Viem}
use drand_quicknet_evm.Persistence.{JournalPersistence, SaveOutcome, PersistenceError, idle, create}
use drand_quicknet_evm.Gate.{attempts_of}
use drand_quicknet_evm.Persistence.Laws.{create-IsSettled}
use drand_quicknet_evm.Coordinator.{Coordinator, PublicClient, reconcile_attempt}
use drand_quicknet_evm.Coordinator.Refresh.{
  latch_unattributed_activity, latch_exhausted_search, update_durable_recovery_revision,
}
use drand_quicknet_evm.Coordinator.Creation.{
  SignerCoordinatorOptions, create_coordinator, initialized, protect, persistence_call,
}
use drand_quicknet_evm.Coordinator.Inspection.{
  AnchorCheck, begin_inspection, run_inspection_operation, open_inspection_head, finish_inspection,
  abandon_inspection,
}
use drand_quicknet_evm.Coordinator.Prepare.{PrepareEnvironment, prepare}
use drand_quicknet_evm.Coordinator.Broadcast.{BroadcastEnvironment, broadcast_oldest}
use drand_quicknet_evm.Coordinator.Recover.{RecoveryEnvironment}
use drand_quicknet_evm.Coordinator.Recovery.{recover_owned, recover}
use drand_quicknet_evm.Coordinator.Inclusions.{
  InclusionsEnvironment, check_inclusions_owned, check_inclusions,
}
use drand_quicknet_evm.Coordinator.Retry.{retry_persistence, observe_reconciliation}
use drand_quicknet_evm.Coordinator.Steady.{Outstanding}
use drand_quicknet_evm.Coordinator.Invariant.{IsSteady, refresh-IsSteady}
use drand_quicknet_evm.Coordinator.Invariant.Prepare.{prepare-IsSteady}
use drand_quicknet_evm.Coordinator.Invariant.Broadcast.{broadcast_oldest-IsSteady}
use drand_quicknet_evm.Coordinator.Invariant.Recovery.{recover_owned-IsSteady}
use drand_quicknet_evm.Coordinator.Invariant.Inclusions.{check_inclusions_owned-IsSteady}
use drand_quicknet_evm.Coordinator.Invariant.Inspection.{
  begin_inspection-IsSteady, open_inspection_head-IsSteady, run_inspection_operation-IsSteady,
  finish_inspection-IsSteady, abandon_inspection-IsSteady, within_inspection-IsSteady,
  retry_persistence-IsSteady, observe_reconciliation-IsSteady,
}

-- A call with its arguments and its environment's answers; an inspection is named by its handle.
pub data Call : Type 0 where
  prepare_call : Text → PrepareEnvironment → Call
  broadcast_call : Text → BroadcastEnvironment → Call
  recover_call : ℕ → RecoveryEnvironment → Call
  inclusions_call : InclusionsEnvironment → Call
  retry_call : SaveOutcome → Text → Call
  begin_call : Call
  open_head_call : ℕ → PublicClient → BlockAnchor → AnchorCheck → Call
  recover_within : ℕ → ℕ → RecoveryEnvironment → Call
  inclusions_within : ℕ → InclusionsEnvironment → Call
  finish_call abandon_call : ℕ → Text → Call

-- Calls by themselves, or within one observed reconciliation.
pub data Segment : Type 0 where
  alone : List Call → Segment
  observed : Text → List Call → Segment

module _ (viem : Viem) where
  abbrev pub after_call : Call → Coordinator → Coordinator
  after_call (prepare_call work_id env) c = (prepare viem work_id env c).1
  after_call (broadcast_call id env) c = (broadcast_oldest viem id env c).1
  after_call (recover_call range env) c = (recover viem range env c).1
  after_call (inclusions_call env) c = (check_inclusions viem env c).1
  after_call (retry_call outcome now) c = (retry_persistence outcome now c).1
  after_call begin_call c = (begin_inspection c).1
  after_call (open_head_call handle client head check) c =
      (run_inspection_operation handle (open_inspection_head client head check) c).1
  after_call (recover_within handle range env) c =
      (run_inspection_operation handle (recover_owned viem range env) c).1
  after_call (inclusions_within handle env) c =
      (run_inspection_operation handle (check_inclusions_owned viem env) c).1
  after_call (finish_call handle now) c = (finish_inspection handle now c).1
  after_call (abandon_call handle now) c = (abandon_inspection handle now c).1

  abbrev pub after_calls : List Call → Coordinator → Coordinator
  after_calls [] c = c
  after_calls (call ∷ calls) c = after_calls calls (after_call call c)

  abbrev pub after_segments : List Segment → Coordinator → Coordinator
  after_segments [] c = c
  after_segments (alone calls ∷ rest) c = after_segments rest (after_calls calls c)
  after_segments (observed now calls ∷ rest) c =
      after_segments rest
        (observe_reconciliation {A = Unit {0}} now (λ d. (ok tt, after_calls calls d)) c).1

  after_call-IsSteady :
      (call : Call) (c : Coordinator) → IsSteady viem c → IsSteady viem (after_call call c)
  unfolding recover check_inclusions
  after_call-IsSteady (prepare_call work_id env) c h = prepare-IsSteady viem work_id env c h
  after_call-IsSteady (broadcast_call id env) c h = broadcast_oldest-IsSteady viem id env c h
  after_call-IsSteady (recover_call range env) c h =
      within_inspection-IsSteady viem env.now _ c (recover_owned-IsSteady viem range env) h
  after_call-IsSteady (inclusions_call env) c h =
      within_inspection-IsSteady viem env.now _ c (check_inclusions_owned-IsSteady viem env) h
  after_call-IsSteady (retry_call outcome now) c h = retry_persistence-IsSteady viem outcome now c h
  after_call-IsSteady begin_call c h = begin_inspection-IsSteady viem c h
  after_call-IsSteady (open_head_call handle client head check) c h =
      run_inspection_operation-IsSteady viem handle _ c
        (open_inspection_head-IsSteady viem client head check) h
  after_call-IsSteady (recover_within handle range env) c h =
      run_inspection_operation-IsSteady viem handle _ c (recover_owned-IsSteady viem range env) h
  after_call-IsSteady (inclusions_within handle env) c h =
      run_inspection_operation-IsSteady viem handle _ c (check_inclusions_owned-IsSteady viem env) h
  after_call-IsSteady (finish_call handle now) c h = finish_inspection-IsSteady viem handle now c h
  after_call-IsSteady (abandon_call handle now) c h =
      abandon_inspection-IsSteady viem handle now c h

  after_calls-IsSteady :
      (calls : List Call) (c : Coordinator) → IsSteady viem c → IsSteady viem (after_calls calls c)
  after_calls-IsSteady [] c h = h
  after_calls-IsSteady (call ∷ calls) c h =
      after_calls-IsSteady calls _ (after_call-IsSteady call c h)

  after_segments-IsSteady :
      (segments : List Segment) (c : Coordinator)
      → IsSteady viem c
      → IsSteady viem (after_segments segments c)
  after_segments-IsSteady [] c h = h
  after_segments-IsSteady (alone calls ∷ rest) c h =
      after_segments-IsSteady rest _ (after_calls-IsSteady calls c h)
  after_segments-IsSteady (observed now calls ∷ rest) c h =
      after_segments-IsSteady rest _
        (observe_reconciliation-IsSteady viem now _ c (after_calls-IsSteady calls) h)

  create-opened :
      (identity : JournalIdentity) (initial : TransactionJournalRead) (p : JournalPersistence)
      → create viem identity initial ≡ ok p
      → (p.identity ≡ identity) × (p.state ≡ idle)
  unfolding create
  create-opened identity missing p h = ground arith
  create-opened identity (present s) p h = ground arith

  protect-IsSteady :
      (has_summary : Bool) (queue : List JournalAttempt) (c d : Coordinator)
      → protect has_summary queue c ≡ ok d
      → IsSteady viem c
      → IsSteady viem d
  unfolding IsSteady
  protect-IsSteady has_summary [] c d h k = ground (arith, k)
  protect-IsSteady has_summary (a ∷ rest) c d h k = ground (arith, k)

  latched-IsSteady :
      (c : Coordinator)
      → IsSteady viem c
      → IsSteady viem (latch_exhausted_search (latch_unattributed_activity c))
  unfolding latch_exhausted_search latch_unattributed_activity IsSteady
  latched-IsSteady c h = ground (arith, h)

  initialized-IsSteady :
      (o : SignerCoordinatorOptions) (p : JournalPersistence)
      → create viem o.identity o.initial ≡ ok p
      → IsSteady viem (initialized o p)
  unfolding IsSteady
  initialized-IsSteady o p h =
      let (same, i) = create-opened o.identity o.initial p h in
      (
        (create-IsSettled viem o.identity o.initial p h).0,
        same,
        refl,
        refl,
        subst (λ state. Outstanding state none) (sym i) tt,
      )

  persistence_call-eq-ok :
      (m : Result PersistenceError JournalPersistence) (p : JournalPersistence)
      → persistence_call m ≡ ok p
      → m ≡ ok p
  persistence_call-eq-ok (ok q) p h = ground arith
  persistence_call-eq-ok (err e) p h = absurd (ground arith)

  created-IsSteady :
      (o : SignerCoordinatorOptions) (c : Coordinator)
      → create_coordinator viem o ≡ ok c
      → IsSteady viem c
  unfolding create_coordinator update_durable_recovery_revision IsSteady
  created-IsSteady o c h =
      let (_, h1) = require-eq-ok _ _ _ h in
      let (p, at, h2) = >>=-eq-ok (persistence_call (create viem o.identity o.initial)) _ h1 in
      let (d, protects, h3) =
        >>=-eq-ok (protect o.has_summary (attempts_of p.current) (initialized o p)) _ h2 in
      let before =
        protect-IsSteady o.has_summary (attempts_of p.current) (initialized o p) d protects
          (initialized-IsSteady o p (persistence_call-eq-ok _ p at)) in
      subst (IsSteady viem) (ok_injective _ _ h3)
        (refresh-IsSteady viem o.now reconcile_attempt _ (latched-IsSteady d before))

  -- From its creation on, through any sequence of calls and whatever the store, the node, the clock
  -- and the log answer, the coordinator is free between two calls, a write is recorded as
  -- outstanding exactly when the persistence holds a failed one, and the journal file holds the
  -- committed journal, or after a failed write possibly the accepted snapshot kept for the retry.
  pub create-after_segments :
      (o : SignerCoordinatorOptions) (segments : List Segment) (c : Coordinator)
      → create_coordinator viem o ≡ ok c
      → IsSteady viem (after_segments segments c)
  create-after_segments o segments c h = after_segments-IsSteady segments c (created-IsSteady o c h)
