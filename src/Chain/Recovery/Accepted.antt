-- ===== src/Chain/Recovery/Accepted.antt =====
-- A recovery inspection and the coordinator that applies it, apps/relayer/src/chain/inspect-signer-recovery.ts
-- with `recoverOwned` of state/signer-coordinator.ts.
use drand_quicknet_evm.Base.{Bool, true, ◌⊎◌}
use drand_quicknet_evm.Journal.Check.{is_uint}
use drand_quicknet_evm.Journal.Value.{snapshot_value, identity_value}
use drand_quicknet_evm.Journal.Validation.Structure.{validate_journal_snapshot_structure}
use drand_quicknet_evm.Coordinator.Recover.{observation_to_record, updated}
use drand_quicknet_evm.Chain.Recovery.Found.{read_anchored_nonce-is_observation}
use drand_quicknet_evm.Chain.Recovery.Updated.{IsPlain, updated-IsJournal}
use drand_quicknet_evm.Base.{
  ℕ, ◌≡◌, refl, inl, inr, none, some, arith, ok, err, Bool-cases, Option-cases, Result-cases, ltb,
  subst,
}
use drand_quicknet_evm.Journal.{
  BlockAnchor, AnchoredNonceObservation, JournalAttempt, TransactionJournalSnapshot,
}
use drand_quicknet_evm.Journal.Snapshot.{IsJournal}
use drand_quicknet_evm.Journal.Validation.Laws.{validate-snapshot_value}
use drand_quicknet_evm.Coordinator.{AttemptResolutionEvidence, CoordinatorError}
use drand_quicknet_evm.Coordinator.Recover.{
  UnresolvedReceipt, UnresolvedSearch, SignerRecoveryInspection, resolution_available, unresolved,
  oldest_attempt, RecoveryUpdate, progress_of, recovery_update, resolve_oldest, record_search,
}
use drand_quicknet_evm.Chain.{Client}
use drand_quicknet_evm.Chain.Nonce.{AnchoredNonceResult, read_anchored_nonce}
use drand_quicknet_evm.Chain.Search.{resolve_replacement_search}
use drand_quicknet_evm.Chain.Recovery.{
  inspect_signer_recovery, inspect_oldest, inspect_nonce, inspect_observed,
}
use drand_quicknet_evm.Chain.Recovery.Justified.{inspect_oldest-IsJustifiedFor}
use drand_quicknet_evm.Chain.Recovery.Found.{IsResolving, HasStart, IsJustifiedFor}

resolve_accepts :
    (s : TransactionJournalSnapshot) (last o : AnchoredNonceObservation) (a : JournalAttempt)
    (evidence : AttemptResolutionEvidence) (e : CoordinatorError)
    → oldest_attempt s ≡ some a
    → IsResolving a o evidence
    → resolve_oldest s last evidence ≡ err e
    → ⊥
unfolding resolve_oldest
resolve_accepts s last o a evidence e is_oldest j h =
    ground (arith, is_oldest, j.is_valid, j.is_matching)

-- A result without blocks searched needs no lower bound.
plain_accepts :
    (s : TransactionJournalSnapshot) (last : AnchoredNonceObservation)
    (result : SignerRecoveryInspection) (e : CoordinatorError)
    → progress_of result ≡ none
    → record_search s last result ≡ err e
    → ⊥
unfolding record_search
plain_accepts s last result e plain h = elim (Option-cases (oldest_attempt s)) [
  | inl q ↦ ground (arith, q)
  | inr (a, q) ↦ ground (arith, q, plain)
]

search_accepts :
    (s : TransactionJournalSnapshot) (last o : AnchoredNonceObservation) (r : UnresolvedReceipt)
    (through : BlockAnchor) (scanned remaining : ℕ) (a : JournalAttempt) (e : CoordinatorError)
    → oldest_attempt s ≡ some a
    → HasStart s a o through scanned
    → record_search s last
        (unresolved o r (some (UnresolvedSearch.not_found through scanned remaining)))
      ≡ err e
    → ⊥
unfolding record_search resolve_replacement_search
search_accepts s last o r through scanned remaining a e is_oldest j h =
    elim (Option-cases a.replacement_search) [
      | inl q ↦ ground (arith, is_oldest, q, j.is_start)
      | inr (start, q) ↦ ground (arith, is_oldest, q)
    ]

accepts :
    (s : TransactionJournalSnapshot) (last : AnchoredNonceObservation) (a : JournalAttempt)
    (result : SignerRecoveryInspection) (e : CoordinatorError)
    → oldest_attempt s ≡ some a
    → IsJustifiedFor s a result
    → recovery_update s last result ≡ err e
    → ⊥
unfolding recovery_update
accepts s last a (resolution_available o evidence) e q j h =
    resolve_accepts s last o a evidence e q j h
accepts s last a (unresolved o r (some (UnresolvedSearch.not_found through scanned remaining))) e q
      j h =
    search_accepts s last o r through scanned remaining a e q j h
accepts s last a (unresolved o r none) e q j h = plain_accepts s last _ e refl h
accepts s last a (unresolved o r (some UnresolvedSearch.missing_lower_bound)) e q j h =
    plain_accepts s last _ e refl h
accepts s last a (unresolved o r (some UnresolvedSearch.anchor_behind_search)) e q j h =
    plain_accepts s last _ e refl h
accepts s last a (unresolved o r (some UnresolvedSearch.boundary_changed)) e q j h =
    plain_accepts s last _ e refl h
accepts s last a (unresolved o r (some UnresolvedSearch.recorded_transaction_found)) e q j h =
    plain_accepts s last _ e refl h
accepts s last a (SignerRecoveryInspection.anchor_changed _) e q j h =
    plain_accepts s last _ e refl h
accepts s last a (SignerRecoveryInspection.nonce_behind_journal _) e q j h =
    plain_accepts s last _ e refl h
accepts s last a (SignerRecoveryInspection.inconsistent_observations _) e q j h =
    plain_accepts s last _ e refl h
accepts s last a (SignerRecoveryInspection.no_attempt _) e q j h = plain_accepts s last _ e refl h

empty_lem :
    (client : Client) (moment : ℕ) (s : TransactionJournalSnapshot) (anchor : BlockAnchor)
    (range : ℕ) (result : SignerRecoveryInspection)
    → is_uint anchor.block_number ≡ true
    → inspect_nonce client moment s anchor range none ≡ ok result
    → IsPlain result
unfolding inspect_nonce inspect_observed
empty_lem client moment s anchor range result u h =
    elim (Result-cases (read_anchored_nonce client moment s.identity.signer anchor)) [
      | inr (x, e) ↦ absurd (ground (arith, e))
      | inl (AnchoredNonceResult.anchor_changed b, e) ↦
          let same_end : SignerRecoveryInspection.anchor_changed b ≡ result = ground (arith, e) in
          subst IsPlain same_end tt
      | inl (AnchoredNonceResult.verified o, e) ↦
          elim (Bool-cases (ltb o.nonce s.durable_next_nonce)) [
            | inl e' ↦
                let same_end : SignerRecoveryInspection.nonce_behind_journal o ≡ result =
                  ground (arith, e, e') in
                subst IsPlain same_end tt
            | inr e' ↦
                let same_end : SignerRecoveryInspection.no_attempt o ≡ result =
                  ground (arith, e, e') in
                subst IsPlain same_end
                  (read_anchored_nonce-is_observation client moment s.identity.signer anchor o u e)
          ]
    ]

plain_updates :
    (s : TransactionJournalSnapshot) (last : AnchoredNonceObservation)
    (result : SignerRecoveryInspection) (e : CoordinatorError)
    → oldest_attempt s ≡ none
    → IsPlain result
    → recovery_update s last result ≡ err e
    → ⊥
unfolding recovery_update record_search
plain_updates s last (resolution_available _ _) e q p h = p
plain_updates s last (unresolved _ _ _) e q p h = p
plain_updates s last (SignerRecoveryInspection.anchor_changed _) e q p h = ground (arith, q)
plain_updates s last (SignerRecoveryInspection.nonce_behind_journal _) e q p h = ground (arith, q)
plain_updates s last (SignerRecoveryInspection.inconsistent_observations _) e q p h =
    ground (arith, q)
plain_updates s last (SignerRecoveryInspection.no_attempt _) e q p h = ground (arith, q)

inspect_lem :
    (client : Client) (moment : ℕ) (s : TransactionJournalSnapshot) (anchor : BlockAnchor)
    (range : ℕ) (result : SignerRecoveryInspection)
    → IsJournal s.identity s
    → inspect_signer_recovery client moment s anchor range ≡ ok result
    → inspect_oldest client moment s anchor range ≡ ok result
unfolding inspect_signer_recovery
inspect_lem client moment s anchor range result j h =
    ground (arith, validate-snapshot_value s.identity s j)

-- An update for a well-formed journal, with the facts that the inspection has of its result.
updates_lem :
    (client : Client) (moment : ℕ) (s : TransactionJournalSnapshot) (anchor : BlockAnchor)
    (range : ℕ) (result : SignerRecoveryInspection) (last : AnchoredNonceObservation)
    → IsJournal s.identity s
    → is_uint anchor.block_number ≡ true
    → inspect_signer_recovery client moment s anchor range ≡ ok result
    → (u : RecoveryUpdate) × (recovery_update s last result ≡ ok u)
      × (((oldest_attempt s ≡ none) × IsPlain result)
          ⊎ ((a : JournalAttempt) × (oldest_attempt s ≡ some a) × IsJustifiedFor s a result))
unfolding inspect_oldest
updates_lem client moment s anchor range result last j v h =
    let oldest = inspect_lem client moment s anchor range result j h in
    elim (Option-cases (oldest_attempt s)) [
      | inl q ↦
          let plain = empty_lem client moment s anchor range result v (ground (arith, q, oldest)) in
          elim (Result-cases (recovery_update s last result)) [
            | inl (u, e) ↦ (u, e, inl (q, plain))
            | inr (x, e) ↦ absurd (plain_updates s last result x q plain e)
          ]
      | inr (a, q) ↦
          let justified =
            inspect_oldest-IsJustifiedFor client s a range moment anchor result v q oldest in
          elim (Result-cases (recovery_update s last result)) [
            | inl (u, e) ↦ (u, e, inr (a, q, justified))
            | inr (x, e) ↦ absurd (accepts s last a result x q justified e)
          ]
    ]

-- Whatever the node answers about an anchor whose number is within 256 bits, what a recovery inspection
-- of a well-formed journal returns is something that the coordinator can apply to that journal, once it
-- may be recorded: it leads to an update, and to no error for evidence that does not fit, for a missing
-- attempt or for a missing lower bound; and the updated journal passes validation unchanged.
pub recovery_update-inspect_signer_recovery :
    (client : Client) (moment : ℕ) (s : TransactionJournalSnapshot) (anchor : BlockAnchor)
    (range : ℕ) (unattributed : Bool) (result : SignerRecoveryInspection)
    (last : AnchoredNonceObservation)
    → IsJournal s.identity s
    → is_uint anchor.block_number ≡ true
    → inspect_signer_recovery client moment s anchor range ≡ ok result
    → observation_to_record unattributed s result ≡ some last
    → (u : RecoveryUpdate) × (recovery_update s last result ≡ ok u)
      × (validate_journal_snapshot_structure
            (snapshot_value (updated s u))
            (identity_value s.identity)
          ≡ ok (updated s u))
recovery_update-inspect_signer_recovery client moment s anchor range unattributed result last j v h
      k =
    let (u, e, facts) = updates_lem client moment s anchor range result last j v h in
    (
      u,
      e,
      validate-snapshot_value s.identity (updated s u)
          (updated-IsJournal s unattributed result last u j facts k e),
    )
