-- ===== src/Chain/Heads.antt =====
-- apps/relayer/src/chain/finality-policy.ts (`getDurableBlockNumber`), chain/chain-heads.ts,
-- chain/chain-heads-reader.ts and chain/inspect-nonce-sync.ts: the durable and the latest block.
-- Times are whole milliseconds of one monotonic clock.
pub mod Laws
use drand_quicknet_evm.Base.{
  ℕ, ◌+◌, ◌-◌, ◌==◌, ◌&&◌, Bool, true, false, Option, none, some, Result, ok, err, ◌>>=◌, ◌>>◌,
  require, ltb, leb, if◌then◌else◌,
}
use drand_quicknet_evm.Journal.{BlockAnchor, AnchoredNonceObservation, JournalIdentity}
use drand_quicknet_evm.Coordinator.Recover.{
  SignerBootstrapDecision, bootstrap_anchor_changed, bootstrap_deferred, ready,
}
use drand_quicknet_evm.Chain.{
  Client, at_safe, at_finalized, ChainError, Checked, rpc_failed, durable_ahead, chain_mismatch,
}
use drand_quicknet_evm.Chain.Anchor.{get_block_anchor}
use drand_quicknet_evm.Chain.Nonce.{inspect_signer_bootstrap}
use drand_quicknet_evm.Chain.Policy.{FinalityPolicy, safe, finalized, confirmations}

abbrev answered : {A : Type 0} → Option A → Checked A
answered none = err rpc_failed
answered (some a) = ok a

-- `getDurableBlockNumber`
unfoldable pub get_durable_block_number : Client → ℕ → FinalityPolicy → Checked ℕ
get_durable_block_number client moment safe = answered (client.get_tagged_block moment at_safe)
get_durable_block_number client moment finalized =
    answered (client.get_tagged_block moment at_finalized)
get_durable_block_number client moment (confirmations n) = do
  latest ← answered (client.get_block_number moment)
  ok (if leb latest n then 0 else latest - n)

pub record ChainHeads : Type 0 where
  pub latest_block : ℕ
  pub durable_block : ℕ

-- The latest block, which the durable one may not pass.
unfoldable pub read_latest : Client → ℕ → ℕ → Checked ChainHeads
read_latest client moment durable = do
  latest ← answered (client.get_block_number moment)
  require (leb durable latest) durable_ahead
  ok (record { latest_block = latest; durable_block = durable })

-- `getChainHeads`
unfoldable pub get_chain_heads : Client → ℕ → FinalityPolicy → Checked ChainHeads
get_chain_heads client moment policy = do
  durable ← get_durable_block_number client moment policy
  read_latest client (moment + 1) durable

pub record CachedDurableHead : Type 0 where
  pub block_number : ℕ
  pub read_started_at : ℕ

-- A read with the cache that it leaves.
abbrev pub HeadsRead : Type 0
HeadsRead = Checked ChainHeads × Option CachedDurableHead

unfoldable pub read_afresh : Client → ℕ → FinalityPolicy → ℕ → HeadsRead
read_afresh client moment policy now = elim (get_chain_heads client moment policy) [
  | err e ↦ (err e, none)
  | ok heads ↦
      (ok heads, some (record { block_number = heads.durable_block; read_started_at = now }))
]

unfoldable pub read_cached : Client → ℕ → CachedDurableHead → HeadsRead
read_cached client moment previous = elim (read_latest client moment previous.block_number) [
  | err e ↦ (err e, none)
  | ok heads ↦ (ok heads, some previous)
]

-- The cached head is as old as the interval, or older.
abbrev pub is_stale : ℕ → ℕ → CachedDurableHead → Bool
is_stale interval now previous = leb interval (now - previous.read_started_at)

-- `readChainHeads` of a reader, with what it has cached.
unfoldable pub read_chain_heads :
    ℕ → FinalityPolicy → Client → ℕ → ℕ → Option CachedDurableHead → HeadsRead
read_chain_heads interval (confirmations n) client moment now cached =
    (get_chain_heads client moment (confirmations n), cached)
read_chain_heads interval policy client moment now none = read_afresh client moment policy now
read_chain_heads interval policy client moment now (some previous) =
    if is_stale interval now previous
    then read_afresh client moment policy now
    else read_cached client moment previous

-- `NonceSyncInspection`: the observation with the latest and the pending count.
pub data NonceSyncInspection : Type 0 where
  observed : AnchoredNonceObservation → ℕ → ℕ → NonceSyncInspection
  anchor_changed : BlockAnchor → NonceSyncInspection

unfoldable pub sync_result : SignerBootstrapDecision → NonceSyncInspection
sync_result (bootstrap_anchor_changed b) = anchor_changed b
sync_result (bootstrap_deferred o latest pending) = observed o latest pending
sync_result (ready o) = observed o o.nonce o.nonce

unfoldable pub inspect_at_durable :
    Client → ℕ → JournalIdentity → FinalityPolicy → Checked NonceSyncInspection
inspect_at_durable client moment identity policy = do
  heads ← get_chain_heads client moment policy
  anchor ← get_block_anchor client (moment + 2) heads.durable_block
  decision ← inspect_signer_bootstrap client (moment + 3) identity.signer anchor
  ok (sync_result decision)

-- `inspectNonceSync`, when it is not aborted.
unfoldable pub inspect_nonce_sync :
    Client → ℕ → JournalIdentity → FinalityPolicy → Checked NonceSyncInspection
inspect_nonce_sync client moment identity policy = do
  chain ← answered (client.get_chain_id moment)
  require (chain == identity.chain_id) chain_mismatch
  inspect_at_durable client (moment + 1) identity policy
