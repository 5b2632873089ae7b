-- ===== src/Chain/Heads/Laws.antt =====
-- The order of the two heads, and the age of a cached one: apps/relayer/src/chain/chain-heads.ts and
-- chain/chain-heads-reader.ts.
use drand_quicknet_evm.Base.{
  ℕ, ◌+◌, ◌<◌, ◌≤◌, ◌≡◌, refl, inl, inr, Bool, true, false, Option, none, some, arith, ok, err,
  Bool-cases, Result-cases, Option-cases,
}
use drand_quicknet_evm.Chain.{Client}
use drand_quicknet_evm.Chain.Policy.{FinalityPolicy, safe, finalized, confirmations}
use drand_quicknet_evm.Chain.Heads.{
  get_durable_block_number, ChainHeads, read_latest, get_chain_heads, CachedDurableHead, HeadsRead,
  read_afresh, read_cached, is_stale, read_chain_heads,
}

read_latest_lem :
    (client : Client) (moment durable : ℕ) (heads : ChainHeads)
    → read_latest client moment durable ≡ ok heads
    → (heads.durable_block ≡ durable) × (durable ≤ heads.latest_block)
unfolding read_latest
read_latest_lem client moment durable heads h =
    elim (Option-cases (client.get_block_number moment)) [
      | inl e ↦ absurd (ground (arith, e))
      | inr (latest, e) ↦ (ground (arith, e), ground (arith, e))
    ]

pub get_chain_heads_lem :
    (client : Client) (moment : ℕ) (policy : FinalityPolicy) (heads : ChainHeads)
    → get_chain_heads client moment policy ≡ ok heads
    → heads.durable_block ≤ heads.latest_block
unfolding get_chain_heads
get_chain_heads_lem client moment policy heads h =
    elim (Result-cases (get_durable_block_number client moment policy)) [
      | inr (x, e) ↦ absurd (ground (arith, e))
      | inl (durable, e) ↦
          ground (arith, read_latest_lem client (moment + 1) durable heads (ground (arith, e)))
    ]

-- The cache after a read holds the durable head that was returned, read less than an interval ago.
abbrev pub IsFresh : ℕ → ℕ → ChainHeads → Option CachedDurableHead → Type 0
IsFresh interval now heads none = ⊥
IsFresh interval now heads (some c) =
    (c.block_number ≡ heads.durable_block) × (now < c.read_started_at + interval)

abbrev pub keeps_cache : FinalityPolicy → Bool
keeps_cache (confirmations _) = false
keeps_cache _ = true

-- What a read returns, with the cache that it leaves: none after an error.
abbrev pub IsRead : ℕ → ℕ → HeadsRead → Type 0
IsRead interval now (err _, after) = after ≡ none
IsRead interval now (ok heads, after) =
    (heads.durable_block ≤ heads.latest_block) × IsFresh interval now heads after

module _ (interval now moment : ℕ) (client : Client) (pos : 0 < interval) where
  afresh_lem :
      (policy : FinalityPolicy) → IsRead interval now (read_afresh client moment policy now)
  unfolding read_afresh
  afresh_lem policy = elim (Result-cases (get_chain_heads client moment policy)) [
    | inr (x, e) ↦ rw (e, read_afresh) refl
    | inl (heads, e) ↦
        rw (e, read_afresh)
          (get_chain_heads_lem client moment policy heads e, (refl, omega (arith, pos)))
  ]

  cached_lem :
      (previous : CachedDurableHead)
      → is_stale interval now previous ≡ false
      → IsRead interval now (read_cached client moment previous)
  unfolding read_cached
  cached_lem previous young =
      elim (Result-cases (read_latest client moment previous.block_number)) [
        | inr (x, e) ↦ rw (e, read_cached) refl
        | inl (heads, e) ↦
            let k = read_latest_lem client moment previous.block_number heads e in
            rw (e, read_cached) (omega (arith, k), (ground (arith, k), ground (arith, young)))
      ]

  -- A reader that caches the durable head returns a durable block that is not past the latest one, read
  -- less than an interval ago and kept in the cache; after an error nothing is cached.
  pub read_chain_heads_lem :
      (policy : FinalityPolicy) (cached : Option CachedDurableHead)
      → keeps_cache policy ≡ true
      → IsRead interval now (read_chain_heads interval policy client moment now cached)
  unfolding read_chain_heads
  read_chain_heads_lem (confirmations n) cached keeps = cc
  read_chain_heads_lem safe none keeps = afresh_lem safe
  read_chain_heads_lem finalized none keeps = afresh_lem finalized
  read_chain_heads_lem safe (some previous) keeps =
      elim (Bool-cases (is_stale interval now previous)) [
        | inl e ↦ rw (e, read_chain_heads) (afresh_lem safe)
        | inr e ↦ rw (e, read_chain_heads) (cached_lem previous e)
      ]
  read_chain_heads_lem finalized (some previous) keeps =
      elim (Bool-cases (is_stale interval now previous)) [
        | inl e ↦ rw (e, read_chain_heads) (afresh_lem finalized)
        | inr e ↦ rw (e, read_chain_heads) (cached_lem previous e)
      ]
