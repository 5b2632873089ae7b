-- ===== src/Chain/Search/Evidence.antt =====
-- The evidence of a replacement, apps/relayer/src/chain/search-attempt-replacement.ts, under the tests of
-- diagnostics/resolution-validation.ts.
use drand_quicknet_evm.Base.{
  ℕ, ◌<◌, ◌≤◌, ◌≡◌, refl, true, false, none, some, arith, ok, inl, inr, Option-cases, subst, ap,
  sym, ◌∙◌,
}
use drand_quicknet_evm.Text.{Text, is_fixed_hex}
use drand_quicknet_evm.Text.Equality.{same_sym}
use drand_quicknet_evm.Journal.{BlockAnchor, block_anchors_match, replaced}
use drand_quicknet_evm.Journal.Check.{is_uint, is_anchor, is_within}
use drand_quicknet_evm.Coordinator.{AttemptResolutionEvidence}
use drand_quicknet_evm.Coordinator.Evidence.{is_resolution_evidence}
use drand_quicknet_evm.Chain.{Client}
use drand_quicknet_evm.Chain.Search.{
  SearchInput, replacement_found, Scan, has_moved, recorded_hash, search_result,
}
use drand_quicknet_evm.Chain.Search.Checks.{search_input_guard, search_attempt_replacement}
use drand_quicknet_evm.Chain.Search.Scanned.{IsMatchAt}
use drand_quicknet_evm.Chain.Search.Bounds.{boundary_le, search_attempt_replacement-IsSearched}

-- Another transaction than the recorded ones took the nonce, in a block of the anchor's chain.
pub record IsReplacement (i : SearchInput) (evidence : AttemptResolutionEvidence) : Type 0 where
  pub replacement : Text
  pub is_outcome : evidence.outcome ≡ replaced replacement i.observation.nonce
  pub is_anchor_of : evidence.anchor ≡ i.observation.anchor
  pub is_unrecorded : recorded_hash i replacement ≡ none
  pub is_consumed : i.nonce < i.observation.nonce
  pub is_valid : is_resolution_evidence evidence ≡ true

abbrev evidence_at : SearchInput → Text → BlockAnchor → AttemptResolutionEvidence
evidence_at i hash b = record {
  anchor = i.observation.anchor;
  inclusion = b;
  outcome = replaced hash i.observation.nonce;
}

found_lem :
    (i : SearchInput) (scan : Scan) (evidence : AttemptResolutionEvidence)
    → search_result i scan ≡ replacement_found evidence
    → (hash : Text) × (b : BlockAnchor) × (scan.match ≡ some (hash, b))
      × (recorded_hash i hash ≡ none)
      × (evidence_at i hash b ≡ evidence)
unfolding search_result
found_lem i scan evidence h = elim (Option-cases scan.match) [
  | inl e ↦ absurd (ground (arith, e))
  | inr ((hash, b), e) ↦ elim (Option-cases (recorded_hash i hash)) [
    | inl e' ↦ (hash, b, e, e', ground (arith, e, e'))
    | inr (r, e') ↦ absurd (ground (arith, e, e'))
  ]
]

pub input_facts :
    (i : SearchInput)
    → search_input_guard i ≡ ok tt
    → (is_anchor i.observation.anchor ≡ true)
      × (is_uint i.observation.nonce ≡ true)
      × (i.nonce < i.observation.nonce)
unfolding search_input_guard
input_facts i h = (ground arith, ground arith, ground arith)

within :
    (anchor b : BlockAnchor)
    → has_moved anchor b ≡ false
    → b.block_number ≤ anchor.block_number
    → is_within b anchor ≡ true
unfolding is_within block_anchors_match
within anchor b h k = ground (arith, same_sym anchor.block_hash b.block_hash)

evidence_valid :
    (i : SearchInput) (hash : Text) (b : BlockAnchor)
    → search_input_guard i ≡ ok tt
    → has_moved i.observation.anchor b ≡ false
    → b.block_number ≤ i.observation.anchor.block_number
    → is_fixed_hex b.block_hash 32 ≡ true
    → is_fixed_hex hash 32 ≡ true
    → is_resolution_evidence (evidence_at i hash b) ≡ true
unfolding is_resolution_evidence
evidence_valid i hash b g m n hb hh =
    let (a, u, _) = input_facts i g in ground (arith, a, u, within i.observation.anchor b m n)

-- A search that answers with a replacement gives evidence that is well formed, under the anchor of
-- the observation, of a transaction that is not recorded, for a nonce that the observation shows used.
pub search_attempt_replacement-IsReplacement :
    (client : Client) (moment : ℕ) (i : SearchInput) (evidence : AttemptResolutionEvidence)
    → search_attempt_replacement client moment i ≡ ok (replacement_found evidence)
    → IsReplacement i evidence
search_attempt_replacement-IsReplacement client moment i evidence h =
    let s = search_attempt_replacement-IsSearched client moment i _ h refl in
    let (hash, b, found, unrecorded, made) = found_lem i s.scan evidence s.is_result in
    let at_end = subst (IsMatchAt s.scan.previous) found s.is_scanned.match_at_end in
    let stayed = s.is_scanned.has_stayed (ground (arith, found)) in
    let front = boundary_le i.observation.anchor s.saved s.in_front in
    let facts = input_facts i s.input_valid in
    let valid =
      evidence_valid i hash s.scan.previous s.input_valid stayed
        (omega (arith, s.is_scanned.counted, s.is_scanned.bounded, front)) s.is_scanned.has_hash
        at_end.1 in
    let here : evidence_at i hash s.scan.previous ≡ evidence =
      ap (evidence_at i hash) (sym at_end.0) ∙ made in
    record {
      replacement = hash;
      is_outcome = ground (arith, made);
      is_anchor_of = ground (arith, made);
      is_unrecorded = unrecorded;
      is_consumed = facts.2;
      is_valid = subst (λ v. is_resolution_evidence v ≡ true) here valid;
    }
