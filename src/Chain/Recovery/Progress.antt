-- ===== src/Chain/Recovery/Progress.antt =====
-- The search that a recovery records for the oldest attempt: `recoverOwned` of
-- apps/relayer/src/state/signer-coordinator.ts, after chain/inspect-signer-recovery.ts.
use drand_quicknet_evm.Base.{
  leb, ltb→lt, ℕ, ◌<◌, ◌≡◌, inl, inr, true, Option, none, some, arith, ok, Bool-cases, Option-cases,
  ltb, subst,
}
use drand_quicknet_evm.Journal.{
  BlockAnchor, AnchoredNonceObservation, ReplacementSearch, JournalAttempt,
  TransactionJournalSnapshot,
}
use drand_quicknet_evm.Journal.Check.{is_observation, search_ok, is_attempt}
use drand_quicknet_evm.Coordinator.{PendingWrite}
use drand_quicknet_evm.Coordinator.Recover.{
  UnresolvedReceipt, UnresolvedSearch, SignerRecoveryInspection, unresolved, progress_of,
  lower_bound_for, advance,
}
use drand_quicknet_evm.Chain.Search.{resolve_replacement_search}
use drand_quicknet_evm.Chain.Recovery.Found.{HasStart}

pub lower_ok :
    (s : TransactionJournalSnapshot) (last : AnchoredNonceObservation) (a : JournalAttempt)
    → is_observation last ≡ true
    → is_observation s.last_observation ≡ true
    → is_attempt a ≡ true
    → search_ok a.nonce (lower_bound_for s last a) ≡ true
lower_ok s last a readable was valid = elim (Option-cases a.replacement_search) [
  | inr (found, e) ↦ ground (arith, e, valid)
  | inl e ↦ elim (Bool-cases (leb last.nonce a.nonce)) [
    | inl first ↦ ground (arith, e, first, readable)
    | inr later ↦ elim (Bool-cases (leb s.last_observation.nonce a.nonce)) [
      | inl second ↦ ground (arith, e, later, second, was)
      | inr none_left ↦ ground (arith, e, later, none_left)
    ]
  ]
]

-- For a nonce that the last observation shows used, the coordinator has the lower bound of the search.
lower_same :
    (s : TransactionJournalSnapshot) (last : AnchoredNonceObservation) (a : JournalAttempt)
    (start : ReplacementSearch)
    → a.nonce < last.nonce
    → resolve_replacement_search a.nonce a.replacement_search s.last_observation ≡ some start
    → lower_bound_for s last a ≡ some start
unfolding resolve_replacement_search
lower_same s last a start used h = elim (Option-cases a.replacement_search) [
  | inr (found, e) ↦ ground (arith, e)
  | inl e ↦ ground (arith, e, used)
]

pub plain_search :
    (result : SignerRecoveryInspection) (a : JournalAttempt)
    (lower found : Option ReplacementSearch) (pending : PendingWrite)
    → progress_of result ≡ none
    → advance (progress_of result) lower ≡ ok (found, pending)
    → search_ok a.nonce lower ≡ true
    → search_ok a.nonce found ≡ true
plain_search result a lower found pending p h k =
    let same_end : lower ≡ found = ground (arith, p) in
    subst (λ x. search_ok a.nonce x ≡ true) same_end k

pub moved_search :
    (s : TransactionJournalSnapshot) (a : JournalAttempt) (o : AnchoredNonceObservation)
    (r : UnresolvedReceipt) (through : BlockAnchor) (scanned remaining : ℕ)
    (found : Option ReplacementSearch) (pending : PendingWrite)
    → is_observation s.last_observation ≡ true
    → is_attempt a ≡ true
    → HasStart s a o through scanned
    → advance
        (progress_of (unresolved o r (some (UnresolvedSearch.not_found through scanned remaining))))
        (lower_bound_for s o a)
      ≡ ok (found, pending)
    → search_ok a.nonce found ≡ true
moved_search s a o r through scanned remaining found pending was valid st h =
    let ok_lower = lower_ok s o a st.is_read was valid in
    let same_lower = lower_same s o a st.start st.is_consumed st.is_start in
    elim (Bool-cases (ltb 0 scanned)) [
      | inr e ↦
          let same_end : lower_bound_for s o a ≡ found = ground (arith, e) in
          subst (λ x. search_ok a.nonce x ≡ true) same_end ok_lower
      | inl e ↦
          let ok_start = subst (λ x. search_ok a.nonce x ≡ true) same_lower ok_lower in
          let ahead = st.is_ahead (ltb→lt 0 scanned e) in
          let moved : some (record (st.start) { searched_through = some through }) ≡ found =
            ground (arith, e, same_lower) in
          subst (λ x. search_ok a.nonce x ≡ true) moved (ground (arith, ok_start, ahead))
    ]
