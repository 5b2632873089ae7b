-- ===== src/Chain/Nonce.antt =====
-- apps/relayer/src/chain/nonce-response.ts, chain/read-anchored-nonce.ts and
-- chain/inspect-signer-bootstrap.ts: the number of transactions that a signer has sent.
pub mod Ready
use drand_quicknet_evm.Base.{
  ℕ, ◌+◌, ◌==◌, ◌&&◌, Bool, Option, none, some, Result, ok, err, ◌>>=◌, ◌>>◌, require, leb,
  if◌then◌else◌,
}
use drand_quicknet_evm.Text.{Text, is_fixed_hex}
use drand_quicknet_evm.Journal.{BlockAnchor, AnchoredNonceObservation}
use drand_quicknet_evm.Journal.Value.{Value, num, max_safe_integer}
use drand_quicknet_evm.Chain.{
  Client, CountAt, at_block, at_latest, at_pending, Checked, rpc_failed, invalid_nonce_input,
  invalid_nonce_response,
}
use drand_quicknet_evm.Chain.Anchor.{check_block_anchor}
use drand_quicknet_evm.Coordinator.Recover.{
  SignerBootstrapDecision, bootstrap_anchor_changed, bootstrap_deferred, ready,
}

-- `parseNonceResponse`
abbrev pub parse_nonce_response : Value → Checked ℕ
parse_nonce_response (num n) = if leb n max_safe_integer then ok n else err invalid_nonce_response
parse_nonce_response _ = err invalid_nonce_response

-- `parseNonceResponse(await publicClient.getTransactionCount(...))`
unfoldable pub count_transactions : Client → ℕ → Text → CountAt → Checked ℕ
count_transactions client moment signer tag =
    elim (client.get_transaction_count moment signer tag) [
      | none ↦ err rpc_failed
      | some response ↦ parse_nonce_response response
    ]

pub data AnchoredNonceResult : Type 0 where
  verified : AnchoredNonceObservation → AnchoredNonceResult
  anchor_changed : BlockAnchor → AnchoredNonceResult

-- The read, once the anchor has been checked.
unfoldable pub read_between : Client → ℕ → Text → BlockAnchor → Checked AnchoredNonceResult
read_between client moment signer anchor = do
  nonce ← count_transactions client moment signer (at_block anchor.block_number)
  after ← check_block_anchor client (moment + 1) anchor
  ok (elim after [
    | some observed ↦ anchor_changed observed
    | none ↦ verified (record { anchor = anchor; nonce = nonce })
  ])

-- `readAnchoredNonce`, from this moment on: three calls.
unfoldable pub read_anchored_nonce : Client → ℕ → Text → BlockAnchor → Checked AnchoredNonceResult
read_anchored_nonce client moment signer anchor = do
  require (is_fixed_hex signer 20 && is_fixed_hex anchor.block_hash 32) invalid_nonce_input
  before ← check_block_anchor client moment anchor
  elim before [
    | some observed ↦ ok (anchor_changed observed)
    | none ↦ read_between client (moment + 1) signer anchor
  ]

-- The two counts without an anchor, and the closing check.
unfoldable pub compare_counts :
    Client → ℕ → Text → AnchoredNonceObservation → Checked SignerBootstrapDecision
compare_counts client moment signer o = do
  latest ← count_transactions client moment signer at_latest
  pending ← count_transactions client (moment + 1) signer at_pending
  closing ← check_block_anchor client (moment + 2) o.anchor
  ok (elim closing [
    | some observed ↦ bootstrap_anchor_changed observed
    | none ↦
        if latest == o.nonce && pending == o.nonce
        then ready o
        else bootstrap_deferred o latest pending
  ])

-- `inspectSignerBootstrap`
unfoldable pub inspect_signer_bootstrap :
    Client → ℕ → Text → BlockAnchor → Checked SignerBootstrapDecision
inspect_signer_bootstrap client moment signer anchor = do
  result ← read_anchored_nonce client moment signer anchor
  elim result [
    | anchor_changed observed ↦ ok (bootstrap_anchor_changed observed)
    | verified o ↦ compare_counts client (moment + 3) signer o
  ]
