-- ===== src/Coordinator/Invariant.antt =====
-- The invariant of the coordinator of apps/relayer/src/state/signer-coordinator.ts, and that every
-- call keeps it.
pub mod Prepare
pub mod Broadcast
pub mod Recovery
pub mod Inclusions
pub mod Inspection
pub mod Calls
use drand_quicknet_evm.Base.{
  ℕ, ◌≡◌, refl, sym, subst, ◌⊎◌, inl, inr, ◌&&◌, Bool, true, false, Option, none, some, List, [],
  ◌∷◌, arith, Result, ok, err, Result-cases, Option-cases, Bool-cases,
}
use drand_quicknet_evm.Text.{Text}
use drand_quicknet_evm.Journal.{
  JournalIdentity, JournalSignedTransaction, TransactionJournalSnapshot,
}
use drand_quicknet_evm.Journal.Value.{snapshot_value, identity_value}
use drand_quicknet_evm.Journal.Validation.Structure.{validate_journal_snapshot_structure}
use drand_quicknet_evm.Journal.Verification.{Viem}
use drand_quicknet_evm.Persistence.{
  JournalPersistence, SaveOutcome, PersistenceState, idle, writing, failed, save, retry, is_failed,
  PersistenceError,
}
use drand_quicknet_evm.Persistence.Laws.{IsSettled, save-IsSettled, retry-IsSettled}
use drand_quicknet_evm.Coordinator.{
  Coordinator, CoordinatorError, PendingWrite, prepared, SignerEventOperation, prepare_attempt,
  Method,
}
use drand_quicknet_evm.Coordinator.Gates.{status}
use drand_quicknet_evm.Coordinator.Refresh.{refresh, finish_write}
use drand_quicknet_evm.Coordinator.Prepare.{
  PrepareEnvironment, prepare, prepare_guard, new_attempt, with_attempt, prepare_failed,
  save_prepared, allocate,
}
use drand_quicknet_evm.Coordinator.Steady.{
  Outstanding, IsSame, IsFinished, refresh-IsSame, finish_write-IsFinished,
}

module _ (viem : Viem) where
  -- The invariant, by the fields that it is about.
  abbrev pub Steady :
      JournalPersistence → JournalIdentity → Bool → Bool → Option PendingWrite → Type 0
  Steady p identity busy emitting pending =
      IsSettled viem p
      × (p.identity ≡ identity)
      × (busy ≡ false)
      × (emitting ≡ false)
      × Outstanding p.state pending

  unfoldable pub IsSteady : Coordinator → Type 0
  IsSteady c = Steady c.persistence c.identity c.busy c.emitting c.pending_write

  pub refresh-IsSteady :
      (now : Text) (o : SignerEventOperation) (c : Coordinator)
      → IsSteady c
      → IsSteady (refresh now o c)
  unfolding IsSteady
  refresh-IsSteady now o c h =
      let k = refresh-IsSame now o c h.3 in
      rw (k.persistence_same, k.identity_same, k.busy_same, k.emitting_same, k.pending_same) h

  pub finish_write-IsSteady :
      (now : Text) (p : PendingWrite) (c : Coordinator)
      → IsSettled viem c.persistence
      → c.persistence.state ≡ idle
      → c.persistence.identity ≡ c.identity
      → c.emitting ≡ false
      → IsSteady (finish_write now p c)
  unfolding IsSteady
  finish_write-IsSteady now p c settled i same e =
      let k = finish_write-IsFinished now p c e in
      rw (k.persistence_kept, k.identity_kept, k.not_busy, k.not_emitting, k.nothing_pending)
        (settled, same, refl, refl, subst (λ state. Outstanding state none) (sym i) tt)

  -- How a save may leave the persistence.
  pub record IsSaved (result : Result PersistenceError (Unit {0})) (q p : JournalPersistence)
      : Type 0 where
    pub settled : IsSettled viem q
    pub same : q.identity ≡ p.identity
    pub ends :
        ((result ≡ ok tt) × (q.state ≡ idle))
        ⊎ ((e : PersistenceError) × (result ≡ err e) × ((q.state ≡ idle) ⊎ (q.state ≡ failed)))

  pub save-IsSaved :
      (outcome : SaveOutcome) (next : TransactionJournalSnapshot) (p : JournalPersistence)
      → p.state ≡ idle
      → IsSettled viem p
      → IsSaved (save viem outcome next p).0 (save viem outcome next p).1 p
  unfolding save
  save-IsSaved outcome next p i h = record {
    settled = save-IsSettled viem outcome next p h;
    same = ground arith;
    ends = ground arith;
  }

  -- An operation under way, before its write.
  pub record IsRunning (c : Coordinator) : Type 0 where
    pub settled : IsSettled viem c.persistence
    pub same : c.persistence.identity ≡ c.identity
    pub quiet : c.emitting ≡ false
    pub idle_state : c.persistence.state ≡ idle
    pub none_pending : c.pending_write ≡ none
