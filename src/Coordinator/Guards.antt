-- ===== src/Coordinator/Guards.antt =====
-- What the guards of the coordinator's calls establish when they let a call pass,
-- apps/relayer/src/state/signer-coordinator.ts.
use drand_quicknet_evm.Base.{ℕ, ◌≡◌, ap, ==_iff, true, false, Option, none, some, arith, ok, find}
use drand_quicknet_evm.Text.{Text, text_eq, is_work_id}
use drand_quicknet_evm.Text.Equality.{text_eq→eq}
use drand_quicknet_evm.Journal.{JournalAttempt, is_unresolved, TransactionJournalSnapshot, present}
use drand_quicknet_evm.Persistence.{idle, failed}
use drand_quicknet_evm.Coordinator.{Coordinator, InspectionOwner, PendingWrite}
use drand_quicknet_evm.Coordinator.Gates.{
  status, assert_available, assert_no_pending_write, assert_inspection_work_allowed,
  inspection_owner_of, can_broadcast, permits,
}
use drand_quicknet_evm.Coordinator.Prepare.{prepare_guard}
use drand_quicknet_evm.Coordinator.Broadcast.{broadcast_guard}
use drand_quicknet_evm.Coordinator.Recovery.{recover_guard}
use drand_quicknet_evm.Coordinator.Retry.{retry_guard}

pub assert_available_lem :
    (c : Coordinator)
    → assert_available c ≡ ok tt
    → (c.inspection_owner ≡ none) × (c.busy ≡ false) × (c.emitting ≡ false)
unfolding assert_available
assert_available_lem c h = ground arith

pub assert_no_pending_write_lem :
    (c : Coordinator)
    → assert_no_pending_write c ≡ ok tt
    → (c.pending_write ≡ none) × (c.persistence.state ≡ idle)
unfolding assert_no_pending_write
assert_no_pending_write_lem c h = ground arith

-- The call finds the coordinator free and without an outstanding write.
pub record IsFree (c : Coordinator) : Type 0 where
  pub no_owner : c.inspection_owner ≡ none
  pub not_busy : c.busy ≡ false
  pub not_emitting : c.emitting ≡ false
  pub none_pending : c.pending_write ≡ none
  pub idle_state : c.persistence.state ≡ idle

pub record MayPrepare (work_id : Text) (s : TransactionJournalSnapshot) (c : Coordinator)
    : Type 0 where
  pub free : IsFree c
  pub open_gate : (status c).is_open ≡ true
  pub journal : c.persistence.current ≡ present s
  pub readable_work : is_work_id work_id ≡ true

pub prepare_guard_lem :
    (work_id : Text) (s : TransactionJournalSnapshot) (c : Coordinator)
    → prepare_guard work_id c ≡ ok s
    → MayPrepare work_id s c
unfolding prepare_guard assert_available assert_no_pending_write
prepare_guard_lem work_id s c h = ground arith

pub record MayBroadcast (id : Text) (s : TransactionJournalSnapshot) (a : JournalAttempt)
    (c : Coordinator) : Type 0 where
  pub free : IsFree c
  pub journal : c.persistence.current ≡ present s
  pub oldest : find is_unresolved s.attempts ≡ some a
  pub named : text_eq id a.attempt_id ≡ true
  pub permitted : can_broadcast c ≡ true

pub broadcast_guard_lem :
    (id : Text) (s : TransactionJournalSnapshot) (a : JournalAttempt) (c : Coordinator)
    → broadcast_guard id c ≡ ok (s, a)
    → MayBroadcast id s a c
unfolding broadcast_guard assert_available assert_no_pending_write
broadcast_guard_lem id s a c h = ground arith

pub record IsPermitted (s : TransactionJournalSnapshot) (a : JournalAttempt) (c : Coordinator)
    : Type 0 where
  pub recovered : c.recovery_complete ≡ true
  pub permit : c.broadcast_permit ≡ some a.attempt_id
  pub attributed : c.blockers.unattributed ≡ false
  pub searchable : c.blockers.exhausted ≡ false
  pub current_nonce : s.last_observation.nonce ≡ a.nonce

pub permits_lem : (permit : Option Text) (id : Text) → permits permit id ≡ true → permit ≡ some id
permits_lem none id h = absurd (ground arith)
permits_lem (some permit) id h = ap some (text_eq→eq permit id h)

pub can_broadcast_lem :
    (s : TransactionJournalSnapshot) (a : JournalAttempt) (c : Coordinator)
    → c.persistence.current ≡ present s
    → find is_unresolved s.attempts ≡ some a
    → can_broadcast c ≡ true
    → IsPermitted s a c
unfolding can_broadcast
can_broadcast_lem s a c j f h = ground (arith, permits_lem c.broadcast_permit a.attempt_id)

pub retry_guard_lem :
    (p : PendingWrite) (c : Coordinator)
    → retry_guard c ≡ ok p
    → (c.inspection_owner ≡ none)
      × (c.busy ≡ false)
      × (c.emitting ≡ false)
      × (c.pending_write ≡ some p)
      × (c.persistence.state ≡ failed)
unfolding retry_guard assert_available
retry_guard_lem p c h = ground arith

pub record MayInspect (handle : ℕ) (owner : InspectionOwner) (c : Coordinator) : Type 0 where
  pub owned : c.inspection_owner ≡ some owner
  pub live : owner.generation ≡ handle
  pub staying : owner.abandoning ≡ false
  pub not_busy : c.busy ≡ false
  pub not_emitting : c.emitting ≡ false

pub assert_inspection_work_allowed_lem :
    (handle : ℕ) (owner : InspectionOwner) (c : Coordinator)
    → assert_inspection_work_allowed c handle ≡ ok owner
    → MayInspect handle owner c
unfolding assert_inspection_work_allowed inspection_owner_of
assert_inspection_work_allowed_lem handle owner c h =
    ground (arith, (==_iff owner.generation handle).0)

pub recover_guard_lem :
    (range : ℕ) (c : Coordinator)
    → recover_guard range c ≡ ok tt
    → (c.pending_write ≡ none) × (c.persistence.state ≡ idle)
unfolding recover_guard assert_no_pending_write
recover_guard_lem range c h = ground arith
