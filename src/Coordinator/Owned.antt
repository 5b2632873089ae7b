-- ===== src/Coordinator/Owned.antt =====
-- A recovery leaves its inspection to the owner: `recoverOwned` of
-- apps/relayer/src/state/signer-coordinator.ts.
use drand_quicknet_evm.Base.{
  ℕ, ◌≡◌, refl, ◌∙◌, inl, inr, true, false, none, some, arith, Result-cases, Option-cases,
  Bool-cases,
}
use drand_quicknet_evm.Text.{Text}
use drand_quicknet_evm.Journal.{AnchoredNonceObservation, TransactionJournalSnapshot}
use drand_quicknet_evm.Journal.Value.{snapshot_value, identity_value}
use drand_quicknet_evm.Journal.Validation.Structure.{validate_journal_snapshot_structure}
use drand_quicknet_evm.Journal.Verification.{Viem}
use drand_quicknet_evm.Persistence.{is_idle, save}
use drand_quicknet_evm.Gate.Laws.{read_cases}
use drand_quicknet_evm.Coordinator.{
  Coordinator, CoordinatorError, PendingWrite, reconcile_attempt, bootstrap, blockers_remain,
  inspection_failed, validation, persistence_error,
}
use drand_quicknet_evm.Coordinator.Refresh.{emit, finish_write}
use drand_quicknet_evm.Coordinator.Gates.{no_blockers}
use drand_quicknet_evm.Coordinator.Recover.{
  bootstrap_anchor_changed, bootstrap_deferred, ready, inspected, SignerRecoveryInspection,
  SignerRecoveryResult, RecoveryEnvironment, grant_after_recovery, observation_to_record,
  recovery_update, updated,
}
use drand_quicknet_evm.Coordinator.Recovery.{
  settled, recovery_failed, report_deferral, save_recovery, recover_missing, recover_present,
  recover_guard, recover_owned, recover,
}
use drand_quicknet_evm.Coordinator.Recorded.{begun}
use drand_quicknet_evm.Coordinator.Steady.{refresh-IsSame, finish_write-IsFinished}
use drand_quicknet_evm.Coordinator.Invariant.{IsSteady}
use drand_quicknet_evm.Coordinator.Invariant.Recovery.{recover_owned-IsSteady}
use drand_quicknet_evm.Coordinator.Released.{IsOwned, KeepsOwned, within_inspection-releases}

-- A state of the inspection in which nothing is being reported.
pub record IsHeld (handle : ℕ) (c : Coordinator) : Type 0 where
  pub quiet : c.emitting ≡ false
  pub held : IsOwned handle c

pub settled-IsOwned :
    (handle : ℕ) (now : Text) (c : Coordinator) → IsHeld handle c → IsOwned handle (settled now c)
settled-IsOwned handle now c h =
    let ended : Coordinator = record c { busy = false } in
    let k = refresh-IsSame now reconcile_attempt ended h.quiet in
    record {
      owner = h.held.owner;
      owned = k.owner_same ∙ h.held.owned;
      generation = h.held.generation;
      latest = k.generation_same ∙ h.held.latest;
    }

recovery_failed-IsOwned :
    (handle : ℕ) (now : Text) (e : CoordinatorError) (c : Coordinator)
    → IsHeld handle c
    → IsOwned handle (recovery_failed now e c).1
unfolding recovery_failed
recovery_failed-IsOwned handle now e c h = elim (Bool-cases (is_idle c.persistence.state)) [
  | inl i ↦
      let dropped : Coordinator = record c { pending_write = none; recovery_complete = false } in
      let at : IsHeld handle dropped = ground (arith, h) in
      rw i (settled-IsOwned handle now dropped at)
  | inr i ↦
      let kept : Coordinator = record c { recovery_complete = false } in
      let at : IsHeld handle kept = ground (arith, h) in rw i (settled-IsOwned handle now kept at)
]

pub finish_write-IsHeld :
    (handle : ℕ) (now : Text) (p : PendingWrite) (c : Coordinator)
    → IsHeld handle c
    → IsHeld handle (finish_write now p c)
finish_write-IsHeld handle now p c h =
    let f = finish_write-IsFinished now p c h.quiet in
    record {
      quiet = f.not_emitting;
      held = record {
        owner = h.held.owner;
        owned = f.owner_kept ∙ h.held.owned;
        generation = h.held.generation;
        latest = f.generation_kept ∙ h.held.latest;
      };
    }

abbrev pub KeepsHeld : (Coordinator → Coordinator) → Type 0
KeepsHeld grant = (handle : ℕ) (c : Coordinator) → IsHeld handle c → IsHeld handle (grant c)

grant_after_recovery-KeepsHeld :
    (s : TransactionJournalSnapshot) (result : SignerRecoveryInspection)
    → KeepsHeld (grant_after_recovery s result)
unfolding grant_after_recovery
grant_after_recovery-KeepsHeld s result handle c h = ground (arith, h)

report_deferral-IsHeld :
    (o : AnchoredNonceObservation) (latest pending : ℕ)
    → KeepsHeld (report_deferral o latest pending)
unfolding report_deferral emit
report_deferral-IsHeld o latest pending handle c h = ground (arith, h)

module _ (viem : Viem) where
  save_recovery-IsOwned :
      (handle : ℕ) (env : RecoveryEnvironment) (p : PendingWrite)
      (next : TransactionJournalSnapshot) (result : SignerRecoveryResult)
      (grant : Coordinator → Coordinator) (c : Coordinator)
      → KeepsHeld grant
      → IsHeld handle c
      → IsOwned handle (save_recovery viem env p next result grant c).1
  unfolding save_recovery
  save_recovery-IsOwned handle env p next result grant c keeps h =
      let q = (save viem env.outcome next c.persistence).1 in
      let writing : Coordinator = record c { pending_write = some p; persistence = q } in
      let recovered : Coordinator = record writing { recovery_complete = true } in
      let at : IsHeld handle writing = ground (arith, h) in
      let then : IsHeld handle recovered = ground (arith, h) in
      elim (Result-cases (save viem env.outcome next c.persistence).0) [
        | inr (e, r) ↦
            rw (save_recovery, r)
              (recovery_failed-IsOwned handle env.now (persistence_error e) writing at)
        | inl (_, r) ↦
            rw (save_recovery, r)
              (settled-IsOwned handle env.now _
                (keeps handle _ (finish_write-IsHeld handle env.now p recovered then)))
      ]

  recover_missing-IsOwned :
      (handle : ℕ) (env : RecoveryEnvironment) (c : Coordinator)
      → IsHeld handle c
      → IsOwned handle (recover_missing viem env c).1
  unfolding recover_missing
  recover_missing-IsOwned handle env c h =
      let cleared : Coordinator = record c { last_bootstrap_deferral = none } in
      let at : IsHeld handle cleared = ground (arith, h) in
      elim (Bool-cases (no_blockers c.blockers)) [
        | inr b ↦
            rw (recover_missing, b) (recovery_failed-IsOwned handle env.now blockers_remain c h)
        | inl b ↦
            elim env.bootstrap_decision
                as (λ d.
                  env.bootstrap_decision ≡ d → IsOwned handle (recover_missing viem env c).1) [
                    | none ↦ λ e.
                        rw (recover_missing, b, e)
                          (recovery_failed-IsOwned handle env.now inspection_failed c h)
                    | some (bootstrap_anchor_changed observed) ↦
                        λ e. rw (recover_missing, b, e) (settled-IsOwned handle env.now c h)
                    | some (bootstrap_deferred o latest pending) ↦ λ e.
                        rw (recover_missing, b, e)
                          (settled-IsOwned handle env.now _
                            (report_deferral-IsHeld o latest pending handle c h))
                    | some (ready o) ↦ λ e.
                        rw (recover_missing, b, e)
                          (save_recovery-IsOwned handle env bootstrap _ _ (λ d. d) cleared
                            (λ n d k. k) at)
                  ]
              refl
      ]

  recover_present-IsOwned :
      (handle : ℕ) (env : RecoveryEnvironment) (s : TransactionJournalSnapshot) (c : Coordinator)
      → IsHeld handle c
      → IsOwned handle (recover_present viem env s c).1
  unfolding recover_present
  recover_present-IsOwned handle env s c h = elim (Option-cases env.inspection) [
    | inl e ↦ rw (recover_present, e) (recovery_failed-IsOwned handle env.now inspection_failed c h)
    | inr (result, e) ↦
        elim (Option-cases (observation_to_record c.blockers.unattributed s result)) [
          | inl o ↦ rw (recover_present, e, o) (settled-IsOwned handle env.now c h)
          | inr (last, o) ↦ elim (Result-cases (recovery_update s last result)) [
            | inr (x, u) ↦
                rw (recover_present, e, o, u) (recovery_failed-IsOwned handle env.now x c h)
            | inl (u, eu) ↦
                elim (Result-cases (
                  validate_journal_snapshot_structure (snapshot_value (updated s u))
                    (identity_value c.identity))) [
                      | inr (x, v) ↦
                          rw (recover_present, e, o, eu, v)
                            (recovery_failed-IsOwned handle env.now (validation x) c h)
                      | inl (next, v) ↦
                          rw (recover_present, e, o, eu, v)
                            (save_recovery-IsOwned handle env u.pending next (inspected result)
                              (grant_after_recovery s result) c
                              (grant_after_recovery-KeepsHeld s result) h)
                    ]
          ]
        ]
  ]

  recover_owned-KeepsOwned :
      (range : ℕ) (env : RecoveryEnvironment) → KeepsOwned viem (recover_owned viem range env)
  unfolding recover_owned IsSteady
  recover_owned-KeepsOwned range env handle owner c steady g l =
      let used = record owner { has_run_operation = true } in
      let running : Coordinator = record c { inspection_owner = some used } in
      let at : IsOwned handle (begun owner c) = record {
        owner = used;
        owned = refl;
        generation = g;
        latest = l;
      } in
      let h : IsHeld handle (begun owner c) = record { quiet = steady.3; held = at } in
      elim (Result-cases (recover_guard range running)) [
        | inr (e, r) ↦
            rw (recover_owned, r)
              (record { owner = used; owned = refl; generation = g; latest = l })
        | inl (_, r) ↦ elim (read_cases c.persistence.current) [
          | inl m ↦ rw (recover_owned, r, m) (recover_missing-IsOwned handle env (begun owner c) h)
          | inr (s, m) ↦
              rw (recover_owned, r, m) (recover_present-IsOwned handle env s (begun owner c) h)
        ]
      ]

  -- A recovery that starts with no inspection under way leaves none under way, whatever the node, the
  -- store and the journal make of it.
  pub recover-releases :
      (range : ℕ) (env : RecoveryEnvironment) (c : Coordinator)
      → IsSteady viem c
      → c.inspection_owner ≡ none
      → (recover viem range env c).1.inspection_owner ≡ none
  unfolding recover
  recover-releases range env c steady free =
      within_inspection-releases viem env.now (recover_owned viem range env) c
        (recover_owned-IsSteady viem range env) (recover_owned-KeepsOwned range env) steady free
