-- ===== src/Coordinator/Evidence.antt =====
-- apps/relayer/src/diagnostics/resolution-validation.ts: the evidence of an attempt's outcome is
-- consistent, and fits the transactions recorded for its nonce.
use drand_quicknet_evm.Base.{Bool, not, ◌&&◌, ltb}
use drand_quicknet_evm.Text.{is_fixed_hex}
use drand_quicknet_evm.Journal.{
  InclusionOutcome, success, reverted, replaced, JournalAttempt, signed_transactions, contains_hash,
}
use drand_quicknet_evm.Journal.Check.{is_uint, is_anchor, is_within}
use drand_quicknet_evm.Coordinator.{AttemptResolutionEvidence}

abbrev is_readable_outcome : InclusionOutcome → Bool
is_readable_outcome (success hash) = is_fixed_hex hash 32
is_readable_outcome (reverted hash) = is_fixed_hex hash 32
is_readable_outcome (replaced hash nonce) = is_fixed_hex hash 32 && is_uint nonce

-- What `snapshotResolutionEvidence` tests of evidence that has its type already.
unfoldable pub is_resolution_evidence : AttemptResolutionEvidence → Bool
is_resolution_evidence e =
    is_anchor e.anchor
    && is_anchor e.inclusion
    && is_within e.inclusion e.anchor
    && is_readable_outcome e.outcome

-- What `assertResolutionTransaction` tests. An attempt has a transaction or more.
unfoldable pub matches_attempt : JournalAttempt → InclusionOutcome → Bool
matches_attempt a (success hash) = contains_hash (signed_transactions a) hash
matches_attempt a (reverted hash) = contains_hash (signed_transactions a) hash
matches_attempt a (replaced hash nonce) =
    not (contains_hash (signed_transactions a) hash) && ltb a.nonce nonce
