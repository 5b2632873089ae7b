-- ===== src/Chain/Search/Resume.antt =====
-- A search that is resumed: its passes, and what they are to answer.
-- apps/relayer/src/chain/search-attempt-replacement.ts, over a node that serves one chain.
use drand_quicknet_evm.Base.{ℕ, suc, ◌+◌, ◌-◌, ◌*◌, ◌<◌, ◌≡◌, refl, Option, none, some, ok, min}
use drand_quicknet_evm.Text.{Text}
use drand_quicknet_evm.Journal.{BlockAnchor, AnchoredNonceObservation, ReplacementSearch, replaced}
use drand_quicknet_evm.Chain.{Client, RpcBlock}
use drand_quicknet_evm.Chain.Search.{
  SearchInput, ReplacementSearchResult, recorded_transaction_found, replacement_found, not_found,
  recorded_hash, search_result, Scan,
}
use drand_quicknet_evm.Chain.Search.Checks.{boundary_of, search_attempt_replacement}
use drand_quicknet_evm.Chain.Search.Spec.{at, first_use}

abbrev pub saved_at : AnchoredNonceObservation → Option BlockAnchor → ReplacementSearch
saved_at lower through = record { lower_bound = lower; searched_through = through }

-- The same search with the progress that was saved.
abbrev pub resumed : SearchInput → AnchoredNonceObservation → Option BlockAnchor → SearchInput
resumed i lower through = record i { replacement_search = some (saved_at lower through) }

-- That many passes have found nothing, the first one from the lower bound.
pub data Passes (client : Client) (i : SearchInput) (lower : AnchoredNonceObservation)
    : ℕ → Option BlockAnchor → Type 0 where
  started : Passes client i lower 0 none
  passed :
      {k : ℕ} {through : Option BlockAnchor}
      → Passes client i lower k through
      → (moment : ℕ) (last : BlockAnchor) (scanned remaining : ℕ)
      → search_attempt_replacement client moment (resumed i lower through)
        ≡ ok (not_found last scanned remaining)
      → Passes client i lower (suc k) (some last)

-- The result of a search that found the nonce used by this transaction in this block.
abbrev pub found : SearchInput → Text → BlockAnchor → ReplacementSearchResult
found i hash b = elim (recorded_hash i hash) [
  | some recorded ↦ recorded_transaction_found recorded i.observation.anchor b
  | none ↦ replacement_found (record {
    anchor = i.observation.anchor;
    inclusion = b;
    outcome = replaced hash i.observation.nonce;
  })
]

-- What a search is to answer that has come from block `l` to block `q` of the chain, from block `p` on
-- in its last pass, with `a` the anchor's block.
unfoldable pub answer : (ℕ → RpcBlock) → SearchInput → ℕ → ℕ → ℕ → ℕ → ReplacementSearchResult
answer chain i l p q a = elim (first_use chain i l (q - l)) [
  | none ↦ not_found (at chain q) (q - p) (a - q)
  | some (hash, m) ↦ found i hash (at chain m)
]

-- The search over the whole stretch from block `l` to the anchor's block `a`: what it finds, or that
-- nothing remains.
abbrev pub IsFinal : (ℕ → RpcBlock) → SearchInput → ℕ → ℕ → ReplacementSearchResult → Type 0
IsFinal chain i l a result = elim (first_use chain i l (a - l)) [
  | none ↦ (scanned : ℕ) × (result ≡ not_found (at chain a) scanned 0)
  | some (hash, m) ↦ result ≡ found i hash (at chain m)
]

pub search_result-resumed :
    (i : SearchInput) (start : Option ReplacementSearch) (s : Scan)
    → search_result (record i { replacement_search = start }) s ≡ search_result i s
unfolding search_result
search_result-resumed i start s = refl

abbrev pub IsPast : ℕ → ℕ → Option BlockAnchor → Type 0
IsPast l p none = Unit
IsPast l p (some _) = l < p

pub record IsAt (chain : ℕ → RpcBlock) (i : SearchInput) (lower : AnchoredNonceObservation)
    (l a k : ℕ) (through : Option BlockAnchor) : Type 0 where
  pub p : ℕ
  pub is_place : boundary_of (saved_at lower through) ≡ at chain p
  pub is_far : p ≡ min (l + k * i.max_block_range) a
  pub is_past : IsPast l p through
  pub is_unused : first_use chain i l (p - l) ≡ none
