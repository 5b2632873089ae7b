-- ===== src/Tests/Accepted.antt =====
-- The journals of the examples are well-formed, and pass verification.
use drand_quicknet_evm.Base.{ℕ, ◌+◌, ◌≤◌, ◌≡◌, refl, ok, arith, length, true, List, [], ◌∷◌}
use drand_quicknet_evm.Journal.{
  AnchoredNonceObservation, JournalAttempt, signed_transactions, TransactionJournalSnapshot,
}
use drand_quicknet_evm.Journal.Check.{
  is_signed_bytes, is_within, is_uint, is_observation, is_attempt, all_of, attempts_in_order,
}
use drand_quicknet_evm.Journal.Validation.Laws.{validate-snapshot_value}
use drand_quicknet_evm.Journal.Snapshot.{IsJournal, attempts_in_order-IsQueue}
use drand_quicknet_evm.Journal.Verification.{
  verify_signed_transaction, verify_transactions, verify_journal_attempt, verify_attempts,
  verify_journal_snapshot,
}
use drand_quicknet_evm.Journal.Verification.Laws.{Accepted}
use drand_quicknet_evm.Text.{
  is_fixed_hex, is_hex_unit, lower_unit, is_digit, is_lower_hex, is_uuid_v4, uuid_from, uuid_unit,
  is_work_id, is_well_formed, is_printable, is_high, is_low,
}
use drand_quicknet_evm.Text.Iso.{
  is_leap, days_in_month, within, rest_of_date, after_plus, after_minus, is_iso_timestamp,
}
use drand_quicknet_evm.Tests.Data.{
  identity, observation, later, attempt, sent_attempt, journal_at, journal, sent_journal,
  empty_journal, resolved_journal, viem,
}

pub journal_at-IsJournal :
    (last : AnchoredNonceObservation) (durable : ℕ) (queue : List JournalAttempt)
    → is_observation last ≡ true
    → is_uint durable ≡ true
    → 5 ≤ durable
    → is_uint (durable + length queue) ≡ true
    → all_of is_attempt queue ≡ true
    → attempts_in_order durable [] [] [] queue ≡ true
    → IsJournal identity (journal_at last durable queue)
unfolding is_fixed_hex is_hex_unit lower_unit
journal_at-IsJournal last durable queue l d five n a o = record {
  readable_expected = refl;
  readable_identity = refl;
  same_chain = refl;
  same_signer = refl;
  readable_baseline = refl;
  readable_last = l;
  next_in_range = n;
  durable_in_range = d;
  baseline_first = five;
  counted = refl;
  few_repairs = omega arith;
  readable_repairs = refl;
  ordered_repairs = refl;
  repaired_below = refl;
  readable_attempts = a;
  queue = (attempts_in_order-IsQueue durable queue).0 o;
}

pub journal-IsJournal : IsJournal identity journal
unfolding is_fixed_hex is_hex_unit lower_unit is_digit is_lower_hex is_uuid_v4 uuid_from uuid_unit
    is_work_id is_well_formed is_printable is_high is_low is_signed_bytes is_within is_leap
    days_in_month within rest_of_date after_plus after_minus is_iso_timestamp
journal-IsJournal =
    journal_at-IsJournal observation 5 (attempt ∷ []) refl refl (omega arith) refl refl refl

sent_journal-IsJournal : IsJournal identity sent_journal
unfolding is_fixed_hex is_hex_unit lower_unit is_digit is_lower_hex is_uuid_v4 uuid_from uuid_unit
    is_work_id is_well_formed is_printable is_high is_low is_signed_bytes is_within is_leap
    days_in_month within rest_of_date after_plus after_minus is_iso_timestamp
sent_journal-IsJournal =
    journal_at-IsJournal observation 5 (sent_attempt ∷ []) refl refl (omega arith) refl refl refl

pub empty_journal-IsJournal : IsJournal identity empty_journal
unfolding is_fixed_hex is_hex_unit
empty_journal-IsJournal =
    journal_at-IsJournal observation 5 [] refl refl (omega arith) refl refl refl

pub resolved_journal-IsJournal : IsJournal identity resolved_journal
unfolding is_fixed_hex is_hex_unit
resolved_journal-IsJournal = journal_at-IsJournal later 6 [] refl refl (omega arith) refl refl refl

accepted :
    (s : TransactionJournalSnapshot)
    → IsJournal identity s
    → verify_attempts viem s.identity s.attempts ≡ ok tt
    → Accepted viem identity s
unfolding verify_journal_snapshot
accepted s journal h = simp (verify_journal_snapshot, validate-snapshot_value identity s journal, h)

pub transactions_verified :
    verify_journal_attempt viem identity 5 (signed_transactions attempt) ≡ ok tt
unfolding verify_journal_attempt verify_transactions verify_signed_transaction lower_unit
transactions_verified = refl

attempts_verified : verify_attempts viem identity journal.attempts ≡ ok tt
unfolding verify_attempts
attempts_verified = simp (verify_attempts, transactions_verified)

none_verified : verify_attempts viem identity [] ≡ ok tt
unfolding verify_attempts
none_verified = refl

pub journal-Accepted : Accepted viem identity journal
journal-Accepted = accepted journal journal-IsJournal attempts_verified

sent_verified : verify_attempts viem identity sent_journal.attempts ≡ ok tt
unfolding verify_attempts
sent_verified = simp (verify_attempts, transactions_verified)

pub sent-Accepted : Accepted viem identity sent_journal
sent-Accepted = accepted sent_journal sent_journal-IsJournal sent_verified

pub empty-Accepted : Accepted viem identity empty_journal
empty-Accepted = accepted empty_journal empty_journal-IsJournal none_verified

pub resolved-Accepted : Accepted viem identity resolved_journal
resolved-Accepted = accepted resolved_journal resolved_journal-IsJournal none_verified
