-- ===== src/Persistence/Laws.antt =====
-- What holds of the persistence state between two calls, through any saves, failures and retries.
use drand_quicknet_evm.Base.{
  ◌≡◌, refl, sym, subst, ◌⊎◌, inl, inr, true, Option, none, some, List, [], ◌∷◌, arith, Result, ok,
  err,
}
use drand_quicknet_evm.Journal.{
  JournalIdentity, TransactionJournalSnapshot, TransactionJournalRead, missing, present,
}
use drand_quicknet_evm.Journal.Check.{is_identity}
use drand_quicknet_evm.Journal.Verification.{Viem}
use drand_quicknet_evm.Journal.Verification.Laws.{Accepted, verify_cases}
use drand_quicknet_evm.Persistence.{
  JournalPersistence, PersistenceState, PersistenceError, stored, idle, failed, SaveOutcome,
  resolved, rejected_unwritten, rejected_written, did_not_complete, opened, create, save, retry,
}

-- A call that the coordinator makes of the persistence, with the store's answer.
pub data Write : Type 0 where
  write : TransactionJournalSnapshot → SaveOutcome → Write
  rewrite : SaveOutcome → Write

module _ (viem : Viem) where
  -- The file against the committed journal: they agree when no write is outstanding, and after a
  -- failed one the file holds the committed journal or the snapshot that is kept for the retry.
  abbrev pub Settled :
      JournalIdentity
      → PersistenceState
      → Option TransactionJournalSnapshot
      → TransactionJournalRead
      → TransactionJournalRead
      → Type 0
  Settled identity idle none current disk = disk ≡ current
  Settled identity failed (some s) current disk =
      Accepted viem identity s × ((disk ≡ current) ⊎ (disk ≡ present s))
  Settled _ _ _ _ _ = ⊥

  abbrev pub AcceptedRead : JournalIdentity → TransactionJournalRead → Type 0
  AcceptedRead identity missing = Unit
  AcceptedRead identity (present s) = Accepted viem identity s

  pub record IsSettled (p : JournalPersistence) : Type 0 where
    pub settled : Settled p.identity p.state p.pending p.current p.disk
    pub accepted : AcceptedRead p.identity p.current

  disk_accepted :
      (identity : JournalIdentity) (state : PersistenceState)
      (pending : Option TransactionJournalSnapshot) (current disk : TransactionJournalRead)
      → Settled identity state pending current disk
      → AcceptedRead identity current
      → AcceptedRead identity disk
  disk_accepted identity idle none current disk e a = subst (AcceptedRead identity) (sym e) a
  disk_accepted identity failed (some s) current disk (accepted, inl e) a =
      subst (AcceptedRead identity) (sym e) a
  disk_accepted identity failed (some s) current disk (accepted, inr e) a =
      subst (AcceptedRead identity) (sym e) accepted
  disk_accepted _ _ _ _ _ e a = elim e [ ]

  disk_origin :
      (identity : JournalIdentity) (state : PersistenceState)
      (pending : Option TransactionJournalSnapshot) (current disk : TransactionJournalRead)
      → Settled identity state pending current disk
      → (disk ≡ current)
        ⊎ ((s : TransactionJournalSnapshot) × (pending ≡ some s) × (disk ≡ present s))
  disk_origin identity idle none current disk e = inl e
  disk_origin identity failed (some s) current disk (accepted, inl e) = inl e
  disk_origin identity failed (some s) current disk (accepted, inr e) = inr (s, refl, e)
  disk_origin _ _ _ _ _ e = elim e [ ]

  -- The journal that is opened is the one in the file, verified.
  pub create-IsSettled :
      (identity : JournalIdentity) (initial : TransactionJournalRead) (p : JournalPersistence)
      → create viem identity initial ≡ ok p
      → IsSettled p × (p.current ≡ initial)
  unfolding create
  create-IsSettled identity missing p h = ground arith
  create-IsSettled identity (present s) p h = elim (verify_cases viem identity s) [
    | inl (accepted, _) ↦ ground (arith, accepted)
    | inr (e, refused) ↦ absurd (ground (arith, refused))
  ]

  pub save-IsSettled :
      (outcome : SaveOutcome) (next : TransactionJournalSnapshot) (p : JournalPersistence)
      → IsSettled p
      → IsSettled (save viem outcome next p).1
  unfolding save
  save-IsSettled outcome next p h = elim (verify_cases viem p.identity next) [
    | inl (accepted, _) ↦ ground (arith, accepted)
    | inr (e, refused) ↦ ground (arith, refused)
  ]

  pub retry-IsSettled :
      (outcome : SaveOutcome) (p : JournalPersistence) → IsSettled p → IsSettled (retry outcome p).1
  unfolding retry
  retry-IsSettled outcome p h = ground arith

  pub perform : Write → JournalPersistence → JournalPersistence
  perform (write next outcome) p = (save viem outcome next p).1
  perform (rewrite outcome) p = (retry outcome p).1

  pub perform_all : List Write → JournalPersistence → JournalPersistence
  perform_all [] p = p
  perform_all (w ∷ ws) p = perform_all ws (perform w p)

  perform_all-IsSettled :
      (ws : List Write) (p : JournalPersistence) → IsSettled p → IsSettled (perform_all ws p)
  unfolding perform_all perform
  perform_all-IsSettled [] p h = h
  perform_all-IsSettled (write next outcome ∷ ws) p h =
      perform_all-IsSettled ws (save viem outcome next p).1 (save-IsSettled outcome next p h)
  perform_all-IsSettled (rewrite outcome ∷ ws) p h =
      perform_all-IsSettled ws (retry outcome p).1 (retry-IsSettled outcome p h)

  -- From opening on, through any saves and retries that the store answers in any way, the file holds
  -- the committed journal when no write is outstanding; after a failed write it holds that journal
  -- or the accepted snapshot kept for the retry.
  pub create-perform_all :
      (identity : JournalIdentity) (initial : TransactionJournalRead) (ws : List Write)
      (p : JournalPersistence)
      → create viem identity initial ≡ ok p
      → IsSettled (perform_all ws p)
  create-perform_all identity initial ws p h =
      perform_all-IsSettled ws p (create-IsSettled identity initial p h).0

  create_accepted :
      (identity : JournalIdentity) (r : TransactionJournalRead)
      → is_identity identity ≡ true
      → AcceptedRead identity r
      → create viem identity r ≡ ok (opened identity r r)
  unfolding create
  create_accepted identity missing i a = ground arith
  create_accepted identity (present s) i a = ground (arith, a)

  -- Reopening the file after a stop at any such moment succeeds, with the committed journal or with
  -- the snapshot of the failed write.
  pub reopen :
      (p : JournalPersistence)
      → IsSettled p
      → is_identity p.identity ≡ true
      → (q : JournalPersistence) × (create viem p.identity p.disk ≡ ok q)
        × ((q.current ≡ p.current)
            ⊎ ((s : TransactionJournalSnapshot) × (p.pending ≡ some s) × (q.current ≡ present s)))
  reopen p h i = (
    opened p.identity p.disk p.disk,
    create_accepted p.identity p.disk i
        (disk_accepted p.identity p.state p.pending p.current p.disk h.settled h.accepted),
    disk_origin p.identity p.state p.pending p.current p.disk h.settled,
  )

-- How a retry of a failed write of this snapshot ends, by what the store does: it commits the snapshot
-- exactly when the store resolves, and reports that. Otherwise it throws, the same snapshot is kept, and
-- the file has changed only if the store replaced it before it rejected.
abbrev pub IsRetried :
    SaveOutcome
    → TransactionJournalSnapshot
    → JournalPersistence
    → Result PersistenceError (Unit {0})
    → JournalPersistence
    → Type 0
IsRetried resolved s p result q =
    (result ≡ ok tt)
    × (q.state ≡ idle)
    × (q.current ≡ present s)
    × (q.disk ≡ present s)
    × (q.pending ≡ none)
IsRetried outcome s p result q =
    (result ≡ err did_not_complete)
    × (q.state ≡ failed)
    × (q.current ≡ p.current)
    × (q.disk ≡ stored outcome s p.disk)
    × (q.pending ≡ some s)

-- A retry of a failed write commits exactly the snapshot kept for it when the store resolves, and says
-- so. When the store rejects, the retry throws, and neither the committed journal nor that snapshot
-- changes; the file then holds the snapshot if the store had replaced it, and else what it held.
pub retry_lem :
    (outcome : SaveOutcome) (s : TransactionJournalSnapshot) (p : JournalPersistence)
    → p.state ≡ failed
    → p.pending ≡ some s
    → IsRetried outcome s p (retry outcome p).0 (retry outcome p).1
unfolding retry
retry_lem resolved s p f k = ground arith
retry_lem rejected_unwritten s p f k = ground arith
retry_lem rejected_written s p f k = ground arith
