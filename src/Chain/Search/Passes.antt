-- ===== src/Chain/Search/Passes.antt =====
-- A search in passes, each from where the one before ended, as the coordinator saves its progress:
-- apps/relayer/src/chain/search-attempt-replacement.ts over a node that serves one chain.
use drand_quicknet_evm.Base.{
  ℕ, suc, ◌+◌, ◌-◌, ◌*◌, ◌<◌, ◌≤◌, ◌≡◌, refl, true, false, Option, none, some, arith, ok, min, inl,
  inr, Option-cases, sym, ap, ◌∙◌, ok_injective,
}
use drand_quicknet_evm.Journal.Check.{is_uint}
use drand_quicknet_evm.Journal.{BlockAnchor, AnchoredNonceObservation}
use drand_quicknet_evm.Chain.{Client, RpcBlock}
use drand_quicknet_evm.Chain.Search.{
  SearchInput, ReplacementSearchResult, not_found, recorded_hash, search_result,
}
use drand_quicknet_evm.Chain.Search.Checks.{
  search_from, boundary_of, check_boundary, search_checked, saved_search_guard, is_behind,
  search_saved, search_input_guard, search_attempt_replacement,
}
use drand_quicknet_evm.Chain.Search.Bounds.{has_range}
use drand_quicknet_evm.Chain.Search.Spec.{
  scan_end-resumed, IsChain, Serves, at, first_use, first_use-split, scan_end,
}
use drand_quicknet_evm.Chain.Search.Serving.{
  match_refl, get_block_anchor-on, check_block_anchor-on, search_from-at,
}
use drand_quicknet_evm.Chain.Search.Resume.{
  saved_at, resumed, Passes, started, passed, found, answer, IsFinal, search_result-resumed, IsPast,
  IsAt,
}

module _ (client : Client) (chain : ℕ → RpcBlock) (is_chain : IsChain chain)
    (serves : Serves client chain) (i : SearchInput) (lower : AnchoredNonceObservation) (l a : ℕ)
    (is_lower : lower.anchor ≡ at chain l) (is_head : i.observation.anchor ≡ at chain a)
    (is_ahead : l < a) (is_input : search_input_guard i ≡ ok tt)
    (is_start : saved_search_guard i.nonce (saved_at lower none) ≡ ok tt) where
  check_boundary-at :
      (moment p : ℕ) (through : Option BlockAnchor)
      → boundary_of (saved_at lower through) ≡ at chain p
      → check_boundary client moment (saved_at lower through) ≡ ok none
  unfolding check_boundary
  check_boundary-at moment p none h = ground (
    arith,
    get_block_anchor-on client chain is_chain serves moment l lower.anchor is_lower,
    match_refl lower.anchor,
  )
  check_boundary-at moment p (some through) h = ground (
    arith,
    get_block_anchor-on client chain is_chain serves moment l lower.anchor is_lower,
    match_refl lower.anchor,
    get_block_anchor-on client chain is_chain serves (moment + 1) p through h,
    match_refl through,
  )

  search_checked-at :
      (moment p : ℕ) (through : Option BlockAnchor)
      → boundary_of (saved_at lower through) ≡ at chain p
      → search_checked client moment (resumed i lower through) (saved_at lower through)
        ≡ ok (
            search_result i (
              scan_end chain i p (min i.max_block_range (i.observation.anchor.block_number - p)) 0))
  unfolding search_checked
  search_checked-at moment p through h =
      let from =
        search_from-at client chain is_chain serves (moment + 3) p a (resumed i lower through)
          is_head in
      let scans : search_from client (moment + 3) (resumed i lower through)
            (boundary_of (saved_at lower through))
          ≡ ok (
              search_result i (
                scan_end chain i p (min i.max_block_range (i.observation.anchor.block_number - p))
                  0)) =
        rw h (
          from
          ∙ ap (λ r. ok r)
              (search_result-resumed i (some (saved_at lower through)) _
                ∙ ap (search_result i) (scan_end-resumed chain i _ p _ 0))) in
      ground (
        arith,
        check_block_anchor-on client chain is_chain serves moment a i.observation.anchor is_head,
        check_boundary-at (moment + 1) p through h,
        scans,
      )

  scan_end-answer :
      (p left : ℕ)
      → l ≤ p
      → first_use chain i l (p - l) ≡ none
      → search_result i (scan_end chain i p left 0) ≡ answer chain i l p (p + left) a
  unfolding search_result scan_end answer
  scan_end-answer p left le unused =
      let whole : p - l + left ≡ p + left - l = omega arith in
      let place : l + (p - l) ≡ p = omega arith in
      let found : first_use chain i l (p + left - l) ≡ first_use chain i p left =
        ap (first_use chain i l) (sym whole)
        ∙ first_use-split chain i l (p - l) left unused
        ∙ ap (λ n. first_use chain i n left) place in
      elim (Option-cases (first_use chain i p left)) [
        | inl e ↦ ground (arith, found, e, is_head)
        | inr ((hash, m), e) ↦ ground (arith, found, e, is_head)
      ]

  guard_input :
      (through : Option BlockAnchor) → search_input_guard (resumed i lower through) ≡ ok tt
  unfolding search_input_guard
  guard_input through = ground (arith, is_input)

  head_uint : is_uint a ≡ true
  unfolding search_input_guard
  head_uint = ground (arith, is_input, is_head)

  guard_saved :
      (p : ℕ) (through : Option BlockAnchor)
      → boundary_of (saved_at lower through) ≡ at chain p
      → IsPast l p through
      → p ≤ a
      → saved_search_guard i.nonce (saved_at lower through) ≡ ok tt
  unfolding saved_search_guard
  guard_saved p none h past le = is_start
  guard_saved p (some through) h past le =
      ground (arith, is_start, is_lower, head_uint, is_chain.hashed p)

  guard_front :
      (p : ℕ) (through : Option BlockAnchor)
      → boundary_of (saved_at lower through) ≡ at chain p
      → p ≤ a
      → is_behind i.observation.anchor (saved_at lower through) ≡ false
  guard_front p none h le = ground (arith, is_lower, is_head, is_ahead)
  guard_front p (some through) h le = ground (arith, is_lower, is_head, is_ahead)

  -- One more pass, from where the passes before have come to.
  pass_lem :
      (k moment : ℕ) (through : Option BlockAnchor) (at_p : IsAt chain i lower l a k through)
      → search_attempt_replacement client moment (resumed i lower through)
        ≡ ok (answer chain i l at_p.p (min (l + suc k * i.max_block_range) a) a)
  unfolding search_attempt_replacement search_saved
  pass_lem k moment through at_p =
      let far = at_p.is_far in
      let le : at_p.p ≤ a = omega (arith, far) in
      let start : l ≤ at_p.p = omega (arith, far, is_ahead) in
      let number : i.observation.anchor.block_number ≡ a =
        ap (λ (b : BlockAnchor). b.block_number) is_head in
      let left = min i.max_block_range (i.observation.anchor.block_number - at_p.p) in
      let more : suc k * i.max_block_range ≡ k * i.max_block_range + i.max_block_range =
        grind arith in
      let end : at_p.p + left ≡ min (l + suc k * i.max_block_range) a =
        omega (arith, far, number, more) in
      let answers =
        scan_end-answer at_p.p left start at_p.is_unused
        ∙ ap (λ q. answer chain i l at_p.p q a) end in
      ground (
        arith,
        guard_input through,
        guard_saved at_p.p through at_p.is_place at_p.is_past le,
        guard_front at_p.p through at_p.is_place le,
        search_checked-at moment at_p.p through at_p.is_place,
        answers,
      )

  answer_not_found :
      (p q : ℕ) (last : BlockAnchor) (scanned remaining : ℕ)
      → answer chain i l p q a ≡ not_found last scanned remaining
      → (first_use chain i l (q - l) ≡ none) × (last ≡ at chain q)
  unfolding answer
  answer_not_found p q last scanned remaining h =
      elim (Option-cases (first_use chain i l (q - l))) [
        | inl e ↦ (e, ground (arith, e))
        | inr ((hash, m), e) ↦ elim (Option-cases (recorded_hash i hash)) [
          | inl e' ↦ absurd (ground (arith, e, e'))
          | inr (r, e') ↦ absurd (ground (arith, e, e'))
        ]
      ]

  Passes-IsAt :
      {k : ℕ} {through : Option BlockAnchor}
      → Passes client i lower k through
      → IsAt chain i lower l a k through
  unfolding first_use
  Passes-IsAt started = record {
    p = l;
    is_place = is_lower;
    is_far = omega (arith, is_ahead);
    is_past = tt;
    is_unused = nothing;
  }
    where
      nothing : first_use chain i l (l - l) ≡ none
      nothing = let z : l - l ≡ 0 = omega arith in rw (z, first_use) refl
  Passes-IsAt (passed {k = k} {through = through} before moment last scanned remaining h) =
      let earlier = Passes-IsAt before in
      let q = min (l + suc k * i.max_block_range) a in
      let ends =
        answer_not_found earlier.p q last scanned remaining
          (ok_injective _ _ (sym (pass_lem k moment through earlier) ∙ h)) in
      let range = has_range i is_input in
      let more : suc k * i.max_block_range ≡ k * i.max_block_range + i.max_block_range =
        grind arith in
      record {
        p = q;
        is_place = ends.1;
        is_far = refl;
        is_past = omega (arith, range, more, is_ahead);
        is_unused = ends.0;
      }

  -- Over a node that serves one chain of linked blocks, for valid input with its lower bound below the
  -- anchor on that chain, and however many passes have found nothing: they have come as many ranges behind
  -- the lower bound, or to the anchor, and the next pass returns, with the answer that one scan from the
  -- lower bound to where it ends would give: the first transaction there that uses the nonce, or none.
  pub search_in_passes :
      (k moment : ℕ) (through : Option BlockAnchor)
      → Passes client i lower k through
      → (p : ℕ) × (p ≡ min (l + k * i.max_block_range) a)
        × (boundary_of (saved_at lower through) ≡ at chain p)
        × (search_attempt_replacement client moment (resumed i lower through)
            ≡ ok (answer chain i l p (min (l + suc k * i.max_block_range) a) a))
  search_in_passes k moment through passes =
      let reached = Passes-IsAt passes in
      (reached.p, reached.is_far, reached.is_place, pass_lem k moment through reached)

  -- Over a node that serves one chain of linked blocks, for valid input with its lower bound below the
  -- anchor on that chain, a search whose passes have found nothing ends: the pass that brings the ranges
  -- up to the anchor names the first transaction behind the lower bound that uses the nonce, or reports
  -- that no block remains.
  pub search_ends :
      (k moment : ℕ) (through : Option BlockAnchor)
      → Passes client i lower k through
      → a ≤ l + suc k * i.max_block_range
      → (result : ReplacementSearchResult) × (search_attempt_replacement client moment
            (resumed i lower through)
          ≡ ok result)
        × IsFinal chain i l a result
  unfolding answer
  search_ends k moment through passes enough =
      let (p, far, place, runs) = search_in_passes k moment through passes in
      let whole : min (l + suc k * i.max_block_range) a ≡ a = omega (arith, enough) in
      let runs' = runs ∙ ap (λ q. ok (answer chain i l p q a)) whole in
      let nothing : a - a ≡ 0 = omega arith in
      (
        answer chain i l p a a,
        runs',
        elim (first_use chain i l (a - l))
            as (λ first. elim first as (λ _. Type 0) [
              | none ↦
                  (scanned : ℕ) × (elim first [
                    | none ↦ not_found (at chain a) (a - p) (a - a)
                    | some (hash, m) ↦ found i hash (at chain m)
                  ]
                    ≡ not_found (at chain a) scanned 0)
              | some (hash, m) ↦
                  elim first [
                    | none ↦ not_found (at chain a) (a - p) (a - a)
                    | some (hash, m) ↦ found i hash (at chain m)
                  ]
                  ≡ found i hash (at chain m)
            ]) [
              | none ↦ (a - p, ap (not_found (at chain a) (a - p)) nothing)
              | some (hash, m) ↦ refl
            ],
      )
