-- ===== src/Coordinator/Invariant/Prepare.antt =====
-- The invariant through `prepareAttempt` of apps/relayer/src/state/signer-coordinator.ts.
use drand_quicknet_evm.Base.{
  ℕ, ◌≡◌, refl, ◌⊎◌, inl, inr, false, none, some, arith, find, Result-cases, Option-cases,
  Bool-cases,
}
use drand_quicknet_evm.Text.{Text, text_eq}
use drand_quicknet_evm.Journal.{JournalSignedTransaction, TransactionJournalSnapshot}
use drand_quicknet_evm.Journal.Value.{snapshot_value, identity_value}
use drand_quicknet_evm.Journal.Validation.Structure.{validate_journal_snapshot_structure}
use drand_quicknet_evm.Journal.Verification.{Viem}
use drand_quicknet_evm.Persistence.{idle, failed}
use drand_quicknet_evm.Persistence.Laws.{IsSettled}
use drand_quicknet_evm.Coordinator.{Coordinator, CoordinatorError, prepared, prepare_attempt}
use drand_quicknet_evm.Coordinator.Guards.{prepare_guard_lem}
use drand_quicknet_evm.Coordinator.Prepare.{
  PrepareEnvironment, prepare, prepare_guard, new_attempt, with_attempt, prepare_failed,
  save_prepared, allocate,
}
use drand_quicknet_evm.Coordinator.Invariant.{
  IsSteady, IsRunning, save-IsSaved, refresh-IsSteady, finish_write-IsSteady,
}

module _ (viem : Viem) where
  prepare_failed-IsSteady :
      (now : Text) (previous : Coordinator) (e : CoordinatorError) (c : Coordinator)
      → IsSettled viem c.persistence
      → c.persistence.identity ≡ c.identity
      → c.emitting ≡ false
      → (c.persistence.state ≡ idle)
        ⊎ ((c.persistence.state ≡ failed) × (c.pending_write ≡ some prepared))
      → IsSteady viem (prepare_failed now previous e c).1
  unfolding prepare_failed IsSteady
  prepare_failed-IsSteady now previous e c settled same quiet ends =
      refresh-IsSteady viem now _ _ (ground arith)

  save_prepared-IsSteady :
      (env : PrepareEnvironment) (tx : JournalSignedTransaction) (nonce : ℕ)
      (previous : Coordinator) (next : TransactionJournalSnapshot) (c : Coordinator)
      → IsRunning viem c
      → IsSteady viem (save_prepared viem env tx nonce previous next c).1
  unfolding save_prepared IsSteady
  save_prepared-IsSteady env tx nonce previous next c h =
      let saved = save-IsSaved viem env.outcome next c.persistence h.idle_state h.settled in
      elim saved.ends [
        | inl (e, i) ↦
            rw (save_prepared, e)
              (refresh-IsSteady viem env.now prepare_attempt _ (
                let f =
                  finish_write-IsSteady viem env.now prepared _ saved.settled i
                    (ground (arith, h, saved)) h.quiet in
                (f.0, f.1, refl, f.3, f.4)))
        | inr (e, r, ends) ↦
            rw (save_prepared, r)
              (prepare_failed-IsSteady env.now previous _ _ saved.settled (ground (arith, h, saved))
                h.quiet (ground (arith, ends)))
      ]

  allocate-IsSteady :
      (work_id : Text) (env : PrepareEnvironment) (s : TransactionJournalSnapshot)
      (previous : Coordinator)
      → IsSteady viem previous
      → previous.persistence.state ≡ idle
      → previous.pending_write ≡ none
      → IsSteady viem (allocate viem work_id env s previous).1
  unfolding allocate IsSteady
  allocate-IsSteady work_id env s previous h i n = elim (Option-cases (env.sign s.next_nonce)) [
    | inl e ↦ rw (allocate, e) (prepare_failed-IsSteady env.now previous _ _ h.0 h.1 h.3 (inl i))
    | inr (tx, e) ↦ elim (Bool-cases env.has_summary) [
      | inl on ↦
          elim (Result-cases (
            validate_journal_snapshot_structure
              (snapshot_value (with_attempt (new_attempt work_id env tx s) s))
              (identity_value previous.identity))) [
                | inl (next, v) ↦
                    rw (allocate, e, on, v)
                      (save_prepared-IsSteady env tx s.next_nonce previous next _ (record {
                        settled = h.0;
                        same = h.1;
                        quiet = h.3;
                        idle_state = i;
                        none_pending = n;
                      }))
                | inr (x, v) ↦
                    rw (allocate, e, on, v)
                      (prepare_failed-IsSteady env.now previous _ _ h.0 h.1 h.3 (inl i))
              ]
      | inr off ↦
          rw (allocate, e, off) (prepare_failed-IsSteady env.now previous _ _ h.0 h.1 h.3 (inl i))
    ]
  ]

  -- Whatever a preparation meets, the coordinator is left as it is between calls.
  pub prepare-IsSteady :
      (work_id : Text) (env : PrepareEnvironment) (c : Coordinator)
      → IsSteady viem c
      → IsSteady viem (prepare viem work_id env c).1
  unfolding prepare
  prepare-IsSteady work_id env c h = elim (Result-cases (prepare_guard work_id c)) [
    | inr (e, g) ↦ rw (prepare, g) h
    | inl (s, g) ↦ elim (Option-cases (find (λ a. text_eq a.work_id work_id) s.attempts)) [
      | inr (a, f) ↦ rw (prepare, g, f) h
      | inl f ↦
          let may = prepare_guard_lem work_id s c g in
          rw (prepare, g, f)
            (allocate-IsSteady work_id env s c h may.free.idle_state may.free.none_pending)
    ]
  ]
