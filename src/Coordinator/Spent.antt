-- ===== src/Coordinator/Spent.antt =====
-- What the end of a broadcast leaves of the authorizations, and what closes the gate:
-- apps/relayer/src/state/signer-coordinator.ts.
use drand_quicknet_evm.Base.{◌≡◌, refl, ◌∙◌, inl, inr, false, none, arith, err, Bool-cases}
use drand_quicknet_evm.Text.{Text}
use drand_quicknet_evm.Journal.{JournalAttempt}
use drand_quicknet_evm.Persistence.{is_idle}
use drand_quicknet_evm.Gate.{decide_gate}
use drand_quicknet_evm.Gate.Laws.{decide_gate-open}
use drand_quicknet_evm.Coordinator.{Coordinator, CoordinatorError, broadcast_attempt}
use drand_quicknet_evm.Coordinator.Gates.{status, gate_options, can_broadcast}
use drand_quicknet_evm.Coordinator.Broadcast.{
  BroadcastEnvironment, receive_reply, send, broadcast_failed,
}
use drand_quicknet_evm.Coordinator.Steady.{refresh-IsSame}
use drand_quicknet_evm.Coordinator.Invariant.Broadcast.{receive_reply-IsSame}

-- What the sending of a transaction leaves: the persistence, and no authorization.
pub record IsSpent (d c : Coordinator) : Type 0 where
  pub same_persistence : d.persistence ≡ c.persistence
  pub no_permit : d.broadcast_permit ≡ c.broadcast_permit
  pub unrecovered : d.recovery_complete ≡ c.recovery_complete
  pub unchecked : d.inclusion_checks_complete ≡ c.inclusion_checks_complete

pub cannot_broadcast : (c : Coordinator) → c.broadcast_permit ≡ none → can_broadcast c ≡ false
unfolding can_broadcast
cannot_broadcast c h = ground arith

pub closed_gate : (c : Coordinator) → c.recovery_complete ≡ false → (status c).is_open ≡ false
unfolding status
closed_gate c h = elim (Bool-cases (decide_gate (gate_options c)).is_open) [
  | inr shut ↦ ground (arith, shut)
  | inl is_open ↦
      let (s, _, ready) = (decide_gate-open (gate_options c)).0 is_open in
      absurd (ground (arith, ready.recovered, h))
]

pub broadcast_failed_lem :
    (now : Text) (e : CoordinatorError) (c : Coordinator) → (broadcast_failed now e c).0 ≡ err e
unfolding broadcast_failed
broadcast_failed_lem now e c = refl

pub send-IsSpent :
    (env : BroadcastEnvironment) (a : JournalAttempt) (c : Coordinator)
    → c.emitting ≡ false
    → IsSpent (send env a c).1 c
unfolding send
send-IsSpent env a c h =
    let k = receive_reply-IsSame env.reply a c h in
    let replied : Coordinator = record ((receive_reply env.reply a c).1) { busy = false } in
    let r = refresh-IsSame env.now broadcast_attempt replied (k.emitting_same ∙ h) in
    record {
      same_persistence = r.persistence_same ∙ k.persistence_same;
      no_permit = r.permit_same ∙ k.permit_same;
      unrecovered = r.recovery_same ∙ k.recovery_same;
      unchecked = r.inclusion_same ∙ k.inclusion_same;
    }

pub broadcast_failed-IsSpent :
    (now : Text) (e : CoordinatorError) (c : Coordinator)
    → c.emitting ≡ false
    → IsSpent (broadcast_failed now e c).1 c
unfolding broadcast_failed
broadcast_failed-IsSpent now e c h = elim (Bool-cases (is_idle c.persistence.state)) [
  | inl i ↦
      let dropped : Coordinator = record c { pending_write = none; busy = false } in
      let r = refresh-IsSame now broadcast_attempt dropped h in
      rw i (record {
        same_persistence = r.persistence_same;
        no_permit = r.permit_same;
        unrecovered = r.recovery_same;
        unchecked = r.inclusion_same;
      })
  | inr i ↦
      let kept : Coordinator = record c { busy = false } in
      let r = refresh-IsSame now broadcast_attempt kept h in
      rw i (record {
        same_persistence = r.persistence_same;
        no_permit = r.permit_same;
        unrecovered = r.recovery_same;
        unchecked = r.inclusion_same;
      })
]
