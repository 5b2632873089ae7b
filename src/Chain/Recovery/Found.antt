-- ===== src/Chain/Recovery/Found.antt =====
-- What a receipt, a read nonce and a search establish for an attempt that is recovered:
-- apps/relayer/src/chain/inspect-signer-recovery.ts, for any answers of the node.
use drand_quicknet_evm.Base.{ap, ◌≤◌, Option-cases}
use drand_quicknet_evm.Text.{Text, is_fixed_hex}
use drand_quicknet_evm.Journal.Value.{Value, num, max_safe_integer}
use drand_quicknet_evm.Journal.Check.{is_uint, is_observation, searched_after}
use drand_quicknet_evm.Chain.{CountAt}
use drand_quicknet_evm.Chain.Nonce.{count_transactions, parse_nonce_response}
use drand_quicknet_evm.Chain.Nonce.Ready.{read_anchored_nonce_iff}
use drand_quicknet_evm.Chain.Search.Checks.{boundary_of, saved_search_guard}
use drand_quicknet_evm.Chain.Search.Bounds.{boundary_le, not_found_lem}
use drand_quicknet_evm.Chain.Search.Evidence.{input_facts}
use drand_quicknet_evm.Base.{
  ℕ, ◌<◌, ◌≡◌, refl, inl, inr, true, false, none, some, List, [], ◌∷◌, map, arith, ok, find, subst,
  sym, ◌∙◌,
}
use drand_quicknet_evm.Text.{Text, same}
use drand_quicknet_evm.Journal.{
  BlockAnchor, AnchoredNonceObservation, ReplacementSearch, JournalSignedTransaction,
  JournalAttempt, signed_transactions, contains_hash, TransactionJournalSnapshot,
}
use drand_quicknet_evm.Coordinator.{AttemptResolutionEvidence}
use drand_quicknet_evm.Coordinator.Evidence.{is_resolution_evidence, matches_attempt}
use drand_quicknet_evm.Coordinator.Recover.{
  UnresolvedReceipt, UnresolvedSearch, SignerRecoveryInspection, resolution_available, unresolved,
}
use drand_quicknet_evm.Chain.{Client}
use drand_quicknet_evm.Chain.Nonce.{AnchoredNonceResult, read_anchored_nonce}
use drand_quicknet_evm.Chain.Receipt.Verified.{is_listed, IsReceipted}
use drand_quicknet_evm.Chain.Search.{ReplacementSearchResult, resolve_replacement_search}
use drand_quicknet_evm.Chain.Search.Checks.{search_attempt_replacement}
use drand_quicknet_evm.Chain.Search.Bounds.{search_attempt_replacement-IsSearched}
use drand_quicknet_evm.Chain.Search.Evidence.{
  IsReplacement, search_attempt_replacement-IsReplacement,
}
use drand_quicknet_evm.Chain.Recovery.{transaction_hashes, search_for, conclude_search}

-- Evidence that fits this attempt, whose nonce is used at the observation.
pub record IsResolving (a : JournalAttempt) (o : AnchoredNonceObservation)
    (evidence : AttemptResolutionEvidence) : Type 0 where
  pub is_valid : is_resolution_evidence evidence ≡ true
  pub is_matching : matches_attempt a evidence.outcome ≡ true
  pub is_consumed : a.nonce < o.nonce
  pub is_read : is_observation o ≡ true

-- The search for this attempt's nonce had a place to start, and what it searched lies behind it.
pub record HasStart (s : TransactionJournalSnapshot) (a : JournalAttempt)
    (o : AnchoredNonceObservation) (through : BlockAnchor) (scanned : ℕ) : Type 0 where
  pub start : ReplacementSearch
  pub is_start :
      resolve_replacement_search a.nonce a.replacement_search s.last_observation ≡ some start
  pub is_consumed : a.nonce < o.nonce
  pub is_read : is_observation o ≡ true
  pub is_ahead :
      0 < scanned → searched_after start.lower_bound.anchor.block_number (some through) ≡ true

abbrev pub IsJustifiedFor :
    TransactionJournalSnapshot → JournalAttempt → SignerRecoveryInspection → Type 0
IsJustifiedFor s a (resolution_available o evidence) = IsResolving a o evidence
IsJustifiedFor s a (unresolved o _ (some (UnresolvedSearch.not_found through scanned _))) =
    HasStart s a o through scanned
IsJustifiedFor s a (unresolved o _ _) = is_observation o ≡ true
IsJustifiedFor s a (SignerRecoveryInspection.no_attempt o) = is_observation o ≡ true
IsJustifiedFor s a _ = Unit

safe_uint : (n : ℕ) → n ≤ max_safe_integer → is_uint n ≡ true
safe_uint n h = ground arith

parsed_le : (v : Value) (n : ℕ) → parse_nonce_response v ≡ ok n → n ≤ max_safe_integer
parsed_le (num m) n h = ground arith
parsed_le _ n h = absurd (ground arith)

counted_le :
    (client : Client) (moment : ℕ) (signer : Text) (tag : CountAt) (n : ℕ)
    → count_transactions client moment signer tag ≡ ok n
    → n ≤ max_safe_integer
unfolding count_transactions
counted_le client moment signer tag n h =
    elim (Option-cases (client.get_transaction_count moment signer tag)) [
      | inl e ↦ absurd (ground (arith, e))
      | inr (response, e) ↦ parsed_le response n (ground (arith, e))
    ]

-- What is read at a block within 256 bits can be recorded.
pub read_anchored_nonce-is_observation :
    (client : Client) (moment : ℕ) (signer : Text) (anchor : BlockAnchor)
    (o : AnchoredNonceObservation)
    → is_uint anchor.block_number ≡ true
    → read_anchored_nonce client moment signer anchor ≡ ok (AnchoredNonceResult.verified o)
    → is_observation o ≡ true
read_anchored_nonce-is_observation client moment signer anchor o u h =
    let v = (read_anchored_nonce_iff client moment signer anchor o).0 h in
    let n = safe_uint o.nonce (counted_le client _ signer _ o.nonce v.is_count) in
    ground (arith, v.is_anchor_of, v.is_hash, u, n)

boundary_ge :
    (nonce : ℕ) (saved : ReplacementSearch)
    → saved_search_guard nonce saved ≡ ok tt
    → saved.lower_bound.anchor.block_number ≤ (boundary_of saved).block_number
unfolding saved_search_guard
boundary_ge nonce saved h = elim (Option-cases saved.searched_through) [
  | inl e ↦ ground (arith, e)
  | inr (through, e) ↦ ground (arith, e)
]

searched_lem :
    (client : Client) (moment : ℕ) (s : TransactionJournalSnapshot) (a : JournalAttempt)
    (o : AnchoredNonceObservation) (range : ℕ) (through : BlockAnchor) (scanned remaining : ℕ)
    → is_observation o ≡ true
    → search_attempt_replacement client moment (search_for s a o range)
      ≡ ok (ReplacementSearchResult.not_found through scanned remaining)
    → HasStart s a o through scanned
searched_lem client moment s a o range through scanned remaining seen h =
    let i = search_for s a o range in
    let k = search_attempt_replacement-IsSearched client moment i _ h refl in
    let (_, at_end, count, _) = not_found_lem i k.scan through scanned remaining k.is_result in
    let number = ap (λ (b : BlockAnchor). b.block_number) at_end in
    let behind = boundary_ge a.nonce k.saved k.saved_valid in
    let front = boundary_le o.anchor k.saved k.in_front in
    record {
      start = k.saved;
      is_start = k.is_saved;
      is_consumed = (input_facts i k.input_valid).2;
      is_read = seen;
      is_ahead = λ some_scanned.
          let place = k.is_scanned.counted in
          let bound = k.is_scanned.bounded in
          let within : through.block_number ≤ o.anchor.block_number =
            omega (arith, number, count, place, bound, front) in
          let beyond : k.saved.lower_bound.anchor.block_number < through.block_number =
            omega (arith, number, count, place, behind, some_scanned) in
          let has_hash : is_fixed_hex through.block_hash 32 ≡ true =
            subst (λ (b : BlockAnchor). is_fixed_hex b.block_hash 32 ≡ true) at_end
              k.is_scanned.has_hash in
          ground (arith, within, beyond, has_hash, seen);
    }

contains_hash-is_listed :
    (txs : List JournalSignedTransaction) (hash : Text)
    → is_listed (map (λ tx. tx.transaction_hash) txs) hash ≡ contains_hash txs hash
contains_hash-is_listed [] hash = refl
contains_hash-is_listed (tx ∷ rest) hash = ground (arith, contains_hash-is_listed rest hash)

unlisted :
    (hashes : List Text) (hash : Text)
    → find (λ h. same h hash) hashes ≡ none
    → is_listed hashes hash ≡ false
unlisted [] hash h = refl
unlisted (x ∷ rest) hash h = ground (arith, unlisted rest hash)

pub receipted_matches :
    (client : Client) (a : JournalAttempt) (anchor : BlockAnchor)
    (evidence : AttemptResolutionEvidence)
    → IsReceipted client (transaction_hashes a) anchor evidence
    → matches_attempt a evidence.outcome ≡ true
unfolding matches_attempt
receipted_matches client a anchor evidence r =
    let listed = contains_hash-is_listed (signed_transactions a) r.hash in
    elim r.is_outcome [
      | inl e ↦ rw (e, matches_attempt) (sym listed ∙ r.is_recorded)
      | inr e ↦ rw (e, matches_attempt) (sym listed ∙ r.is_recorded)
    ]

replacement_matches :
    (s : TransactionJournalSnapshot) (a : JournalAttempt) (o : AnchoredNonceObservation) (range : ℕ)
    (evidence : AttemptResolutionEvidence)
    → IsReplacement (search_for s a o range) evidence
    → matches_attempt a evidence.outcome ≡ true
unfolding matches_attempt
replacement_matches s a o range evidence r =
    let listed = contains_hash-is_listed (signed_transactions a) r.replacement in
    rw (r.is_outcome, matches_attempt)
      (ground (
        arith,
        listed,
        unlisted (transaction_hashes a) r.replacement r.is_unrecorded,
        r.is_consumed,
      ))

pub search_justified :
    (client : Client) (moment : ℕ) (s : TransactionJournalSnapshot) (a : JournalAttempt)
    (o : AnchoredNonceObservation) (range : ℕ) (r : UnresolvedReceipt)
    (found : ReplacementSearchResult)
    → is_observation o ≡ true
    → search_attempt_replacement client moment (search_for s a o range) ≡ ok found
    → IsJustifiedFor s a (conclude_search o r found)
unfolding conclude_search
search_justified client moment s a o range r (ReplacementSearchResult.replacement_found evidence)
      seen h =
    let found =
      search_attempt_replacement-IsReplacement client moment (search_for s a o range) evidence h in
    record {
      is_valid = found.is_valid;
      is_matching = replacement_matches s a o range evidence found;
      is_consumed = found.is_consumed;
      is_read = seen;
    }
search_justified client moment s a o range r
      (ReplacementSearchResult.not_found through scanned remaining) seen h =
    searched_lem client moment s a o range through scanned remaining seen h
search_justified client moment s a o range r (ReplacementSearchResult.anchor_changed _) seen h = tt
search_justified client moment s a o range r ReplacementSearchResult.missing_lower_bound seen h =
    seen
search_justified client moment s a o range r ReplacementSearchResult.anchor_behind_search seen h =
    seen
search_justified client moment s a o range r (ReplacementSearchResult.boundary_changed _ _) seen h =
    seen
search_justified client moment s a o range r
      (ReplacementSearchResult.recorded_transaction_found _ _ _) seen h =
    seen
