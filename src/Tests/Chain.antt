-- ===== src/Tests/Chain.antt =====
-- The theorems on the chain inspections, at a node that serves one chain.
use native.Mathlib.Omega.{arith}
use drand_quicknet_evm.Base.{
  ℕ, ◌+◌, ◌*◌, ◌<◌, ◌≤◌, ◌≡◌, refl, none, some, [], ◌∷◌, ok, min, ◌==◌, if◌then◌else◌, Bool-cases,
  inl, inr,
}
use drand_quicknet_evm.Text.{is_fixed_hex, is_hex_unit, lower_unit}
use drand_quicknet_evm.Journal.{BlockAnchor, block_anchors_match, ReplacementSearch}
use drand_quicknet_evm.Journal.Value.{num}
use drand_quicknet_evm.Chain.{Client, RpcTransaction, RpcBlock, receipt_missing}
use drand_quicknet_evm.Chain.Anchor.{get_block_anchor, check_block_anchor}
use drand_quicknet_evm.Chain.Search.{
  SearchInput, ReplacementSearchResult, not_found, scan_blocks, scan_block, read_search_block,
  find_match, search_result,
}
use drand_quicknet_evm.Chain.Search.Checks.{
  boundary_of, search_attempt_replacement, search_input_guard, saved_search_guard, search_saved,
  search_checked, check_boundary, search_from,
}
use drand_quicknet_evm.Chain.Receipt.{are_hashes}
use drand_quicknet_evm.Chain.Search.Bounds.{reach, search_attempt_replacement_bounds}
use drand_quicknet_evm.Chain.Search.Spec.{IsChain, at}
use drand_quicknet_evm.Chain.Search.Resume.{saved_at, resumed, started, passed, answer, IsFinal}
use drand_quicknet_evm.Chain.Search.Passes.{search_in_passes, search_ends}
use drand_quicknet_evm.Tests.Data.{hash, block_hash, identity, observation}

abbrev pub sender_uses_5 : RpcTransaction
sender_uses_5 = record { hash = hash; sender = identity.signer; nonce = 5 }

-- A chain in which the signer uses nonce 5 in block 103.
abbrev pub chain : ℕ → RpcBlock
chain n = record {
  number = some n;
  hash = block_hash;
  parent_hash = block_hash;
  transactions = if n == 103 then sender_uses_5 ∷ [] else [];
}

abbrev pub node : Client
node = record {
  get_block = λ _ n. some (chain n);
  get_transaction_count = λ _ _ _. some (num 6);
  get_transaction_receipt = λ _ _. receipt_missing;
  get_block_number = λ _. some 130;
  get_tagged_block = λ _ _. some 120;
  get_chain_id = λ _. some 84532;
}

chain-IsChain : IsChain chain
unfolding is_fixed_hex is_hex_unit lower_unit
chain-IsChain = record {
  numbered = λ n. ground arith;
  hashed = λ n. refl;
  parent_hashed = λ n. refl;
  linked = λ n. refl;
  readable = λ n. elim (Bool-cases (n == 103)) [ inl e ↦ rw e (refl, tt) | inr e ↦ rw e tt ];
  once =
      λ i n. elim (Bool-cases (n == 103)) [ inl e ↦ ground (arith, e) | inr e ↦ ground (arith, e) ];
}

-- The head at which nonce 5 is used.
abbrev pub head : BlockAnchor
head = record { block_number = 120; block_hash = block_hash }

abbrev searching : SearchInput
searching = record {
  signer = identity.signer;
  nonce = 5;
  hashes = hash ∷ [];
  replacement_search = some (record { lower_bound = observation; searched_through = none });
  observation = record { anchor = head; nonce = 6 };
  max_block_range = 2;
}

searching_input : search_input_guard searching ≡ ok tt
unfolding search_input_guard are_hashes is_fixed_hex is_hex_unit lower_unit
searching_input = refl

searching_start : saved_search_guard 5 (saved_at observation none) ≡ ok tt
unfolding saved_search_guard is_fixed_hex is_hex_unit
searching_start = refl

-- The first pass reads blocks 101 and 102, and 18 blocks remain.
first_pass :
    search_attempt_replacement node 0 (resumed searching observation none)
    ≡ ok (not_found (at chain 102) 2 18)
unfolding search_attempt_replacement search_input_guard are_hashes search_saved saved_search_guard
    search_checked check_boundary search_from scan_blocks scan_block read_search_block find_match
    search_result get_block_anchor check_block_anchor block_anchors_match is_fixed_hex is_hex_unit
    lower_unit
first_pass = refl

search_in_passes_example :
    (p : ℕ) × (p ≡ min (100 + 1 * 2) 120)
    × (boundary_of (saved_at observation (some (at chain 102))) ≡ at chain p)
    × (search_attempt_replacement node 9 (resumed searching observation (some (at chain 102)))
        ≡ ok (answer chain searching 100 p (min (100 + 2 * 2) 120) 120))
search_in_passes_example =
    search_in_passes node chain chain-IsChain (λ _ _. refl) searching observation 100 120 refl refl
      (omega arith) searching_input searching_start 1 9 (some (at chain 102))
      (passed started 0 (at chain 102) 2 18 first_pass)

search_attempt_replacement_bounds_example :
    (saved : ReplacementSearch) × (searching.replacement_search ≡ some saved)
    × (2 ≡ reach searching saved)
    × (2 ≤ searching.max_block_range)
    × (102 ≡ (boundary_of saved).block_number + 2)
    × (102 + 18 ≡ searching.observation.anchor.block_number)
    × ((boundary_of saved).block_number < searching.observation.anchor.block_number → 0 < 2)
search_attempt_replacement_bounds_example =
    search_attempt_replacement_bounds node 0 searching (at chain 102) 2 18 first_pass

-- One pass over the whole stretch.
abbrev wide : SearchInput
wide = record searching { max_block_range = 1000 }

wide_input : search_input_guard wide ≡ ok tt
unfolding search_input_guard are_hashes is_fixed_hex is_hex_unit lower_unit
wide_input = refl

search_ends_example :
    (result : ReplacementSearchResult) × (search_attempt_replacement node 0
        (resumed wide observation none)
      ≡ ok result)
    × IsFinal chain wide 100 120 result
search_ends_example =
    search_ends node chain chain-IsChain (λ _ _. refl) wide observation 100 120 refl refl
      (omega arith) wide_input searching_start 0 0 none started (omega arith)
