-- ===== src/NonceSync/Laws.antt =====
-- Planning a nonce repair on every branch, apps/relayer/src/state/plan-nonce-sync.ts.
use drand_quicknet_evm.Base.{
  ◌≤◌, ◌<◌, ◌≡◌, refl, sym, subst, ◌⊎◌, inl, inr, ◌==◌, ◌||◌, not, true, false, none, some, List,
  [], ◌∷◌, arith, length, ok, Bool-cases, Option-cases, ==_iff, ◌≢◌,
}
use drand_quicknet_evm.Text.{same}
use drand_quicknet_evm.Text.Iso.{is_iso_timestamp}
use drand_quicknet_evm.Journal.{
  JournalIdentity, AnchoredNonceObservation, JournalAttempt, TransactionJournalSnapshot,
}
use drand_quicknet_evm.Journal.Check.{is_uint, is_observation, last_repair_below}
use drand_quicknet_evm.Journal.Snapshot.{IsJournal, IsQueue, attempts_in_order-IsQueue}
use drand_quicknet_evm.Journal.Validation.Readers.{read_observation-observation_value}
use drand_quicknet_evm.Journal.Validation.Laws.{validate-snapshot_value}
use drand_quicknet_evm.NonceSync.{
  PlanNonceSyncOptions, NonceSyncRefusal, retained_attempts, nonce_regression, anchor_regression,
  anchor_conflict, NonceSyncPlan, already_synchronized, deferred, refused, repair_available,
  refusal, repair_of, repaired, repair, decide, plan_nonce_sync,
}
use drand_quicknet_evm.NonceSync.Repairs.{
  length-extended, last?-extended, all_of-extended, repair_order-extended,
}

-- What a refusal stands for.
abbrev pub IsRefused :
    TransactionJournalSnapshot → AnchoredNonceObservation → NonceSyncRefusal → Type 0
IsRefused s o retained_attempts = 0 < length s.attempts
IsRefused s o anchor_regression = o.anchor.block_number < s.last_observation.anchor.block_number
IsRefused s o anchor_conflict =
    (o.anchor.block_number ≡ s.last_observation.anchor.block_number)
    × (same o.anchor.block_hash s.last_observation.anchor.block_hash ≡ false)
IsRefused s o nonce_regression = (o.nonce < s.next_nonce) ⊎ (o.nonce < s.last_observation.nonce)

-- Nothing refuses the observation.
pub record IsForward (s : TransactionJournalSnapshot) (o : AnchoredNonceObservation) : Type 0 where
  pub empty : length s.attempts ≡ 0
  pub later_block : s.last_observation.anchor.block_number ≤ o.anchor.block_number
  pub same_block :
      o.anchor.block_number ≡ s.last_observation.anchor.block_number
      → same o.anchor.block_hash s.last_observation.anchor.block_hash ≡ true
  pub above_next : s.next_nonce ≤ o.nonce
  pub above_last : s.last_observation.nonce ≤ o.nonce

refusal-IsRefused :
    (s : TransactionJournalSnapshot) (o : AnchoredNonceObservation) (r : NonceSyncRefusal)
    → refusal s o ≡ some r
    → IsRefused s o r
unfolding refusal
refusal-IsRefused s o retained_attempts h = ground arith
refusal-IsRefused s o anchor_regression h = ground arith
refusal-IsRefused s o anchor_conflict h = ground arith
refusal-IsRefused s o nonce_regression h = ground arith

refusal-IsForward :
    (s : TransactionJournalSnapshot) (o : AnchoredNonceObservation)
    → refusal s o ≡ none
    → IsForward s o
unfolding refusal
refusal-IsForward s o h = record {
  empty = ground arith;
  later_block = ground arith;
  same_block = λ e. ground arith;
  above_next = ground arith;
  above_last = ground arith;
}

empty_queue : (queue : List JournalAttempt) → length queue ≡ 0 → queue ≡ []
empty_queue [] h = refl
empty_queue (a ∷ rest) h = absurd (omega (arith, h))

-- The repaired journal is well-formed.
repaired-IsJournal :
    (identity : JournalIdentity) (options : PlanNonceSyncOptions) (s : TransactionJournalSnapshot)
    (o : AnchoredNonceObservation)
    → IsJournal identity s
    → is_observation o ≡ true
    → is_iso_timestamp options.time ≡ true
    → IsForward s o
    → s.next_nonce < o.nonce
    → IsJournal identity (repaired options.time s o)
repaired-IsJournal identity options s o journal readable printed forward higher =
    let r = repair_of options.time s o in
    let count : s.next_nonce ≡ s.durable_next_nonce =
      omega (arith, journal.counted, forward.empty) in
    let nil : s.attempts ≡ [] = empty_queue s.attempts forward.empty in
    let below =
      subst (λ n. last_repair_below s.repairs n ≡ true) (sym count) journal.repaired_below in
    record {
      readable_expected = journal.readable_expected;
      readable_identity = journal.readable_identity;
      same_chain = journal.same_chain;
      same_signer = journal.same_signer;
      readable_baseline = journal.readable_baseline;
      readable_last = readable;
      next_in_range = ground (arith, readable);
      durable_in_range = ground (arith, readable);
      baseline_first = omega (arith, journal.baseline_first, higher, count);
      counted = omega (arith, forward.empty);
      few_repairs = length-extended s.repairs r;
      readable_repairs = all_of-extended s.repairs r journal.readable_repairs (
          ground (
            arith,
            printed,
            readable,
            journal.next_in_range,
            (==_iff o.nonce o.nonce).1 refl,
            higher,
          ));
      ordered_repairs = repair_order-extended s.repairs r journal.ordered_repairs below;
      repaired_below = rw (last_repair_below, last?-extended s.repairs r) (ground arith);
      readable_attempts = journal.readable_attempts;
      queue =
          subst (λ queue. IsQueue o.nonce queue) (sym nil)
            ((attempts_in_order-IsQueue o.nonce []).0 refl);
    }

-- What a plan promises.
pub data Planned (options : PlanNonceSyncOptions) (s : TransactionJournalSnapshot)
    (o : AnchoredNonceObservation) : NonceSyncPlan → Type 0 where
  is_refused : (r : NonceSyncRefusal) → IsRefused s o r → Planned options s o (refused r)
  is_deferred :
      IsForward s o
      → (o.nonce ≢ options.latest_nonce) ⊎ (o.nonce ≢ options.pending_nonce)
      → Planned options s o deferred
  is_synchronized :
      IsForward s o
      → o.nonce ≡ options.latest_nonce
      → o.nonce ≡ options.pending_nonce
      → o.nonce ≡ s.next_nonce
      → Planned options s o already_synchronized
  is_repaired :
      IsForward s o
      → o.nonce ≡ options.latest_nonce
      → o.nonce ≡ options.pending_nonce
      → s.next_nonce < o.nonce
      → IsJournal options.identity (repaired options.time s o)
      → Planned options s o
          (repair_available (some (repair_of options.time s o)) (repaired options.time s o))

repair-Planned :
    (options : PlanNonceSyncOptions) (s : TransactionJournalSnapshot) (o : AnchoredNonceObservation)
    → IsJournal options.identity (repaired options.time s o)
    → repair options s o
      ≡ ok (repair_available (some (repair_of options.time s o)) (repaired options.time s o))
unfolding repair
repair-Planned options s o journal = simp (
  repair,
  validate-snapshot_value options.identity (repaired options.time s o) journal,
  last?-extended s.repairs (repair_of options.time s o),
)

decide-Planned :
    (options : PlanNonceSyncOptions) (s : TransactionJournalSnapshot) (o : AnchoredNonceObservation)
    → IsJournal options.identity s
    → is_observation o ≡ true
    → is_iso_timestamp options.time ≡ true
    → (plan : NonceSyncPlan) × (decide options s o ≡ ok plan) × Planned options s o plan
unfolding decide
decide-Planned options s o journal readable printed = elim (Option-cases (refusal s o)) [
  | inr (r, e) ↦ (refused r, simp (decide, e), is_refused r (refusal-IsRefused s o r e))
  | inl e ↦
      let forward = refusal-IsForward s o e in
      elim (Bool-cases
        (not (o.nonce == options.latest_nonce) || not (o.nonce == options.pending_nonce))) [
          | inl d ↦ (
            deferred,
            simp (decide, e, d),
            is_deferred forward (
                ground (
                  arith,
                  d,
                  (==_iff o.nonce options.latest_nonce).1,
                  (==_iff o.nonce options.pending_nonce).1,
                )),
          )
          | inr d ↦
              let latest : o.nonce ≡ options.latest_nonce =
                (==_iff o.nonce options.latest_nonce).0 (ground (arith, d)) in
              let pending : o.nonce ≡ options.pending_nonce =
                (==_iff o.nonce options.pending_nonce).0 (ground (arith, d)) in
              elim (Bool-cases (o.nonce == s.next_nonce)) [
                | inl n ↦ (
                  already_synchronized,
                  simp (decide, e, d, n),
                  is_synchronized forward latest pending ((==_iff o.nonce s.next_nonce).0 n),
                )
                | inr n ↦
                    let higher : s.next_nonce < o.nonce =
                      ground (arith, n, (==_iff o.nonce s.next_nonce).1, forward.above_next) in
                    let repaired_journal =
                      repaired-IsJournal options.identity options s o journal readable printed
                        forward higher in
                    (
                      repair_available (some (repair_of options.time s o))
                          (repaired options.time s o),
                      simp (decide, e, d, n, repair-Planned options s o repaired_journal),
                      is_repaired forward latest pending higher repaired_journal,
                    )
              ]
        ]
]

-- For a well-formed journal and readable inputs planning returns a plan: a refusal for the reason
-- that it names; a deferral where the chain's counts differ from the observed nonce; nothing to do
-- where the nonce is the journal's; and otherwise a repair of an empty queue, whose journal is
-- well-formed and raises the next nonce to the observed one, from a block and a nonce not below the
-- last observation's.
pub plan_nonce_sync_lem :
    (options : PlanNonceSyncOptions)
    → IsJournal options.identity options.snapshot
    → is_observation options.observation ≡ true
    → is_uint options.latest_nonce ≡ true
    → is_uint options.pending_nonce ≡ true
    → is_iso_timestamp options.time ≡ true
    → (plan : NonceSyncPlan) × (plan_nonce_sync options ≡ ok plan)
      × Planned options options.snapshot options.observation plan
unfolding plan_nonce_sync
plan_nonce_sync_lem options journal readable l p printed =
    let (plan, decided, planned) =
      decide-Planned options options.snapshot options.observation journal readable printed in
    (
      plan,
      simp
          (
            plan_nonce_sync,
            validate-snapshot_value options.identity options.snapshot journal,
            read_observation-observation_value options.observation readable,
            l,
            p,
            printed,
          )
          decided,
      planned,
    )
