-- ===== src/Coordinator/Saved.antt =====
-- A write of the coordinator that succeeded, apps/relayer/src/state/journal-persistence.ts as
-- signer-coordinator.ts uses it.
use drand_quicknet_evm.Base.{◌≡◌, inl, inr, some, arith, ok}
use drand_quicknet_evm.Journal.{TransactionJournalSnapshot, present}
use drand_quicknet_evm.Journal.Verification.{Viem}
use drand_quicknet_evm.Journal.Verification.Laws.{Accepted, verify_cases}
use drand_quicknet_evm.Persistence.{
  JournalPersistence, SaveOutcome, resolved, rejected_unwritten, rejected_written, idle, failed,
  save,
}

module _ (viem : Viem) where
  -- The snapshot has been verified, and is committed and in the file.
  pub record IsCommitted (next : TransactionJournalSnapshot) (q p : JournalPersistence)
      : Type 0 where
    pub verified : Accepted viem p.identity next
    pub committed : q.current ≡ present next
    pub on_disk : q.disk ≡ present next

  pub save-IsCommitted :
      (outcome : SaveOutcome) (next : TransactionJournalSnapshot) (p : JournalPersistence)
      → (save viem outcome next p).0 ≡ ok tt
      → IsCommitted next (save viem outcome next p).1 p
  unfolding save
  save-IsCommitted resolved next p h = elim (verify_cases viem p.identity next) [
    | inl (accepted, _) ↦ ground (arith, accepted)
    | inr (e, refused) ↦ absurd (ground (arith, refused))
  ]
  save-IsCommitted rejected_unwritten next p h = elim (verify_cases viem p.identity next) [
    | inl (accepted, _) ↦ absurd (ground (arith, accepted))
    | inr (e, refused) ↦ absurd (ground (arith, refused))
  ]
  save-IsCommitted rejected_written next p h = elim (verify_cases viem p.identity next) [
    | inl (accepted, _) ↦ absurd (ground (arith, accepted))
    | inr (e, refused) ↦ absurd (ground (arith, refused))
  ]

  -- A write that was left to a retry keeps its verified snapshot, and the committed journal stays.
  pub record IsKept (next : TransactionJournalSnapshot) (q p : JournalPersistence) : Type 0 where
    pub acceptable : Accepted viem p.identity next
    pub retained : q.pending ≡ some next
    pub unchanged : q.current ≡ p.current

  pub save-IsKept :
      (outcome : SaveOutcome) (next : TransactionJournalSnapshot) (p : JournalPersistence)
      → p.state ≡ idle
      → (save viem outcome next p).1.state ≡ failed
      → IsKept next (save viem outcome next p).1 p
  unfolding save
  save-IsKept outcome next p i h = elim (verify_cases viem p.identity next) [
    | inl (accepted, _) ↦ ground (arith, accepted)
    | inr (e, refused) ↦ absurd (ground (arith, refused))
  ]
