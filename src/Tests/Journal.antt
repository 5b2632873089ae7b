-- ===== src/Tests/Journal.antt =====
-- The theorems on the journal, its file and the gate, at one signer with one attempt.
use drand_quicknet_evm.Base.{
  ◌≡◌, refl, ok, inr, true, ◌↔◌, ◌<◌, [], ◌∷◌, All, some, Option, ◌⊎◌, err, false,
}
use drand_quicknet_evm.Text.{Text}
use drand_quicknet_evm.Journal.{TransactionJournalSnapshot, present}
use drand_quicknet_evm.Journal.Value.{snapshot_value, identity_value}
use drand_quicknet_evm.Journal.Validation.Structure.{validate_journal_snapshot_structure}
use drand_quicknet_evm.Journal.Validation.Laws.{
  validate-snapshot_value, validate_iff, validate_again,
}
use drand_quicknet_evm.Journal.Snapshot.{IsJournal}
use drand_quicknet_evm.Journal.Queue.{Distinct, hashes}
use drand_quicknet_evm.Journal.Verification.Laws.{Belongs, verify_journal_attempt-Belongs}
use drand_quicknet_evm.Persistence.{
  JournalPersistence, idle, failed, opened, create, retry, resolved, rejected_written,
  rejected_written, did_not_complete,
}
use drand_quicknet_evm.Persistence.Laws.{
  write, rewrite, IsSettled, perform_all, create-perform_all, reopen, retry_lem,
}
use drand_quicknet_evm.Gate.{
  EvaluateSignerGateOptions, SignerBlocker, unresolved_attempt, decide_gate, blocks,
}
use drand_quicknet_evm.Gate.Laws.{IsReady, rank, decide_gate-open, decide_gate-primary_reason}
use drand_quicknet_evm.Text.{is_fixed_hex, is_hex_unit}
use drand_quicknet_evm.Tests.Data.{
  identity, journal, sent_journal, empty_journal, transaction, viem,
}
use drand_quicknet_evm.Tests.Accepted.{
  journal-IsJournal, transactions_verified, journal-Accepted, sent-Accepted,
}

validate_iff_example :
    (validate_journal_snapshot_structure (snapshot_value journal) (identity_value identity)
      ≡ ok journal)
    ↔ IsJournal identity journal
validate_iff_example = validate_iff identity journal

validate_again_example :
    validate_journal_snapshot_structure (snapshot_value journal) (identity_value identity)
    ≡ ok journal
validate_again_example =
    validate_again identity (snapshot_value journal) journal
      (validate-snapshot_value identity journal journal-IsJournal)

verify_journal_attempt_example :
    (intent : Text) × All (Belongs viem identity 5 intent) (transaction ∷ [])
    × Distinct (hashes (transaction ∷ []))
    × (0 < 1)
verify_journal_attempt_example =
    verify_journal_attempt-Belongs viem identity 5 (transaction ∷ []) transactions_verified

abbrev loaded : JournalPersistence
loaded = opened identity (present journal) (present journal)

loads : create viem identity (present journal) ≡ ok loaded
unfolding create is_fixed_hex is_hex_unit
loads = simp (create, journal-Accepted)

create-perform_all_example :
    IsSettled viem
      (perform_all viem (write sent_journal rejected_written ∷ rewrite resolved ∷ []) loaded)
create-perform_all_example =
    create-perform_all viem identity (present journal)
      (write sent_journal rejected_written ∷ rewrite resolved ∷ []) loaded loads

-- The persistence after a write that failed with the file replaced.
abbrev interrupted : JournalPersistence
interrupted = record loaded {
  state = failed;
  pending = some sent_journal;
  disk = present sent_journal;
}

interrupted-IsSettled : IsSettled viem interrupted
interrupted-IsSettled = record { settled = (sent-Accepted, inr refl); accepted = journal-Accepted }

reopen_example :
    (q : JournalPersistence) × (create viem identity (present sent_journal) ≡ ok q)
    × ((q.current ≡ present journal)
        ⊎ ((s : TransactionJournalSnapshot) × (◌≡◌ {A = Option TransactionJournalSnapshot}
              (some sent_journal)
              (some s))
            × (q.current ≡ present s)))
unfolding is_fixed_hex is_hex_unit
reopen_example = reopen viem interrupted interrupted-IsSettled refl

retry_example :
    let (result, q) = retry rejected_written interrupted in
    (result ≡ err did_not_complete)
    × (q.state ≡ failed)
    × (q.current ≡ present journal)
    × (q.disk ≡ present sent_journal)
    × (q.pending ≡ some sent_journal)
retry_example = retry_lem rejected_written sent_journal interrupted refl refl

abbrev gate_at : TransactionJournalSnapshot → EvaluateSignerGateOptions
gate_at s = record {
  state = idle;
  current = present s;
  recovery_complete = true;
  inclusion_checks_complete = true;
  max_retained_attempts = 8;
  blockers = record { unattributed = false; exhausted = false };
}

decide_gate-open_example : ((decide_gate (gate_at empty_journal)).is_open ≡ true) ↔ (
    (s : TransactionJournalSnapshot) × (present empty_journal ≡ present s)
    × IsReady (gate_at empty_journal) s)
decide_gate-open_example = decide_gate-open (gate_at empty_journal)

decide_gate-primary_reason_example :
    ((decide_gate (gate_at journal)).primary_reason ≡ some unresolved_attempt) ↔ (
      (blocks (gate_at journal) unresolved_attempt ≡ true)
      × ((c : SignerBlocker)
          → rank c < rank unresolved_attempt
          → blocks (gate_at journal) c ≡ false))
decide_gate-primary_reason_example = decide_gate-primary_reason (gate_at journal) unresolved_attempt
