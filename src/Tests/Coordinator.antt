-- ===== src/Tests/Coordinator.antt =====
-- The theorems on the coordinator, at one signer with one attempt.
use drand_quicknet_evm.Base.{none, ◌≡◌, refl, ok, err, true, false, some}
use drand_quicknet_evm.Text.{Text, codes, lower_unit, is_fixed_hex, is_hex_unit}
use drand_quicknet_evm.Journal.{JournalAttempt, TransactionJournalSnapshot, present}
use drand_quicknet_evm.Persistence.{
  JournalPersistence, opened, save, persist_pending, resolved, rejected_unwritten, rejected_written,
  SaveOutcome,
}
use drand_quicknet_evm.Coordinator.{Coordinator, CoordinatorError}
use drand_quicknet_evm.Coordinator.Gates.{
  status, can_broadcast, assert_available, assert_no_pending_write,
}
use drand_quicknet_evm.Coordinator.Creation.{SignerCoordinatorOptions, initialized}
use drand_quicknet_evm.Coordinator.Broadcast.{
  BroadcastEnvironment, returned, threw, acknowledged, broadcast_guard, broadcast_oldest,
  mark_and_send, send, receive_reply,
}
use drand_quicknet_evm.Coordinator.Guards.{MayBroadcast, IsPermitted}
use drand_quicknet_evm.Coordinator.Invariant.{IsSteady}
use drand_quicknet_evm.Coordinator.Permit.{IsMarked, broadcast_oldest_lem, broadcast_oldest-once}
use drand_quicknet_evm.Coordinator.Unsent.{broadcast_oldest-unsent}
use drand_quicknet_evm.Tests.Data.{identity, hash, attempt, journal, sent_journal, viem}
use drand_quicknet_evm.Tests.Accepted.{journal-Accepted, sent-Accepted}

abbrev pub now : Text
now = codes "2025-11-26T10:30:00.000Z"

abbrev pub options : TransactionJournalSnapshot → SignerCoordinatorOptions
options s = record {
  identity = identity;
  initial = present s;
  max_retained_attempts = 8;
  has_summary = true;
  now = now;
}

abbrev pub loaded : TransactionJournalSnapshot → JournalPersistence
loaded s = opened identity (present s) (present s)

-- After a recovery that left the oldest attempt the permit.
abbrev pub permitted : Coordinator
permitted = record (initialized (options journal) (loaded journal)) {
  recovery_complete = true;
  broadcast_permit = some attempt.attempt_id;
}

pub permitted-IsSteady : IsSteady viem permitted
unfolding IsSteady
permitted-IsSteady = (record { settled = refl; accepted = journal-Accepted }, refl, refl, refl, tt)

permitted_guard : broadcast_guard attempt.attempt_id permitted ≡ ok (journal, attempt)
unfolding broadcast_guard assert_available assert_no_pending_write can_broadcast
permitted_guard = refl

abbrev broadcast_env : SaveOutcome → BroadcastEnvironment
broadcast_env outcome = record { outcome = outcome; reply = returned hash; now = now }

sent_saved : (save viem resolved sent_journal (loaded journal)).0 ≡ ok tt
unfolding save persist_pending
sent_saved = simp (save, persist_pending, sent-Accepted)

marks_and_sends :
    (c : Coordinator)
    → c.persistence ≡ loaded journal
    → (mark_and_send viem (broadcast_env resolved) journal attempt c).0
      ≡ ok (acknowledged attempt.attempt_id hash 5)
unfolding mark_and_send send receive_reply lower_unit is_fixed_hex is_hex_unit
marks_and_sends c h = simp (mark_and_send, h, sent_saved, send, receive_reply)

broadcasts :
    (broadcast_oldest viem attempt.attempt_id (broadcast_env resolved) permitted).0
    ≡ ok (acknowledged attempt.attempt_id hash 5)
unfolding broadcast_oldest
broadcasts = simp (broadcast_oldest, permitted_guard, marks_and_sends)

broadcast_oldest_example :
    (s : TransactionJournalSnapshot) × (a : JournalAttempt) × MayBroadcast attempt.attempt_id s a
      permitted
    × IsPermitted s a permitted
    × IsMarked s a (broadcast_oldest viem attempt.attempt_id (broadcast_env resolved) permitted).1
broadcast_oldest_example =
    broadcast_oldest_lem viem attempt.attempt_id (broadcast_env resolved) permitted
      (acknowledged attempt.attempt_id hash 5) permitted-IsSteady broadcasts

broadcast_oldest-once_example :
    let d =
      (broadcast_oldest viem attempt.attempt_id (broadcast_env rejected_written) permitted).1 in
    (d.broadcast_permit ≡ none) × (can_broadcast d ≡ false) × ((status d).is_open ≡ false)
broadcast_oldest-once_example =
    broadcast_oldest-once viem attempt.attempt_id (broadcast_env rejected_written) permitted journal
      attempt permitted_guard

broadcast_oldest-unsent_example :
    let env = broadcast_env rejected_unwritten in
    ((e : CoordinatorError) × ((broadcast_oldest viem attempt.attempt_id env permitted).0 ≡ err e))
    × (broadcast_oldest viem attempt.attempt_id (record env { reply = threw }) permitted
        ≡ broadcast_oldest viem attempt.attempt_id env permitted)
broadcast_oldest-unsent_example =
    broadcast_oldest-unsent viem attempt.attempt_id (broadcast_env rejected_unwritten) threw
      permitted journal attempt permitted_guard refl (cc)
