-- ===== src/Tests/Node.antt =====
-- The theorems on the inspections of receipts, nonces and inclusions, at one signer.
use native.Mathlib.Omega.{arith}
use drand_quicknet_evm.Base.{◌+◌, ◌*◌, ◌≡◌, refl, ◌↔◌, true, false, none, some, [], ◌∷◌, ok, length}
use drand_quicknet_evm.Text.{
  Text, is_fixed_hex, is_hex_unit, lower_unit, is_uuid_v4, uuid_from, uuid_unit, is_lower_hex,
  is_digit, is_work_id, is_well_formed, is_printable, is_high, is_low,
}
use drand_quicknet_evm.Text.Iso.{
  is_leap, days_in_month, within, rest_of_date, after_plus, after_minus, is_iso_timestamp,
}
use drand_quicknet_evm.Journal.{block_anchors_match, AnchoredNonceObservation, success}
use drand_quicknet_evm.Journal.Value.{num}
use drand_quicknet_evm.Journal.Check.{is_signed_bytes, is_within}
use drand_quicknet_evm.Journal.Snapshot.{IsJournal}
use drand_quicknet_evm.Journal.Validation.Laws.{validate-snapshot_value}
use drand_quicknet_evm.Coordinator.{AttemptResolutionEvidence, Coordinator}
use drand_quicknet_evm.Coordinator.Creation.{initialized}
use drand_quicknet_evm.Coordinator.Evidence.{is_resolution_evidence}
use drand_quicknet_evm.Coordinator.Recover.{
  RecoveryUpdate, resolution_available, recovery_update, updated, observation_to_record, ready,
}
use drand_quicknet_evm.Coordinator.Inclusions.{
  InspectedInclusions, SignerInclusionInspection, grant_after_inclusions,
}
use drand_quicknet_evm.Journal.Value.{snapshot_value, identity_value}
use drand_quicknet_evm.Journal.Validation.Structure.{validate_journal_snapshot_structure}
use drand_quicknet_evm.Tests.Coordinator.{options, loaded}
use drand_quicknet_evm.Chain.Inclusions.Inspected.{IsOldestOpen}
use drand_quicknet_evm.Chain.Inclusions.Accepted.{validate-inspect_signer_inclusions}
use drand_quicknet_evm.Chain.{Client, receipt_found, succeeded}
use drand_quicknet_evm.Chain.Anchor.{get_block_anchor, check_block_anchor, Stands}
use drand_quicknet_evm.Chain.Receipt.{
  verified, reconcile_attempt_receipt, are_hashes, read_receipts, read_receipt, read_inclusion,
  classify_inclusion, add_receipt, conclude_receipts,
}
use drand_quicknet_evm.Chain.Receipt.Verified.{IsReceipted, reconcile_attempt_receipt-IsReceipted}
use drand_quicknet_evm.Chain.Nonce.{
  AnchoredNonceResult, inspect_signer_bootstrap, read_anchored_nonce, read_between,
  count_transactions,
}
use drand_quicknet_evm.Chain.Nonce.Ready.{IsReady, inspect_signer_bootstrap_iff}
use drand_quicknet_evm.Chain.Recovery.{
  inspect_signer_recovery, inspect_oldest, inspect_nonce, inspect_observed, inspect_receipted,
}
use drand_quicknet_evm.Chain.Recovery.Accepted.{recovery_update-inspect_signer_recovery}
use drand_quicknet_evm.Chain.Inclusions.{
  taken, candidate, inspect_attempts, inspect_attempt, apply_receipt,
}
use drand_quicknet_evm.Chain.Inclusions.Pass.{
  inspect_queue, check_outer_head, inspect_entries, inspect_at_nonce, search_candidates,
  close_inclusions, conclude_inclusions, broadcast_id, inspect_signer_inclusions,
}
use drand_quicknet_evm.Chain.Inclusions.Inspected.{
  IsInspected, inspect_signer_inclusions-IsInspected,
}
use drand_quicknet_evm.Chain.Policy.{safe}
use drand_quicknet_evm.Chain.Heads.{CachedDurableHead, read_chain_heads}
use drand_quicknet_evm.Chain.Heads.Laws.{IsRead, read_chain_heads_lem}
use drand_quicknet_evm.Tests.Data.{hash, block_hash, identity, attempt, journal, journal_at}
use drand_quicknet_evm.Tests.Accepted.{journal-IsJournal, journal_at-IsJournal}
use drand_quicknet_evm.Tests.Chain.{node, head}

-- A node that has the attempt's transaction in block 110.
abbrev mined : Client
mined = record node {
  get_transaction_receipt = λ _ _. receipt_found (record {
    transaction_hash = hash;
    block_number = some 110;
    block_hash = block_hash;
    status = succeeded;
  });
}

abbrev proof : AttemptResolutionEvidence
proof = record {
  anchor = head;
  inclusion = record { block_number = 110; block_hash = block_hash };
  outcome = success hash;
}

receipted : reconcile_attempt_receipt mined 0 (hash ∷ []) head ≡ ok (verified proof)
unfolding reconcile_attempt_receipt are_hashes read_receipts read_receipt read_inclusion
    classify_inclusion add_receipt conclude_receipts is_resolution_evidence is_within
    get_block_anchor check_block_anchor block_anchors_match is_fixed_hex is_hex_unit lower_unit
receipted = refl

reconcile_attempt_receipt_example :
    Stands mined 0 head
    × Stands mined (0 + 1 + 2 * length {A = Text} (hash ∷ [])) head
    × IsReceipted mined (hash ∷ []) head proof
reconcile_attempt_receipt_example =
    reconcile_attempt_receipt-IsReceipted mined 0 (hash ∷ []) head proof receipted

inspects :
    inspect_signer_recovery mined 0 journal head 1000
    ≡ ok (resolution_available (record { anchor = head; nonce = 6 }) proof)
unfolding inspect_signer_recovery inspect_oldest inspect_nonce inspect_observed inspect_receipted
    read_anchored_nonce read_between count_transactions get_block_anchor check_block_anchor
    block_anchors_match is_fixed_hex is_hex_unit lower_unit
inspects = simp (
  inspect_signer_recovery,
  validate-snapshot_value identity journal journal-IsJournal,
  inspect_oldest,
  receipted,
)

recorded :
    observation_to_record true journal
      (resolution_available (record { anchor = head; nonce = 6 }) proof)
    ≡ some (record { anchor = head; nonce = 6 })
unfolding observation_to_record
recorded = refl

recovery_update-inspect_signer_recovery_example :
    (u : RecoveryUpdate) × (recovery_update journal
        (record { anchor = head; nonce = 6 })
        (resolution_available (record { anchor = head; nonce = 6 }) proof)
      ≡ ok u)
    × (validate_journal_snapshot_structure
          (snapshot_value (updated journal u))
          (identity_value identity)
        ≡ ok (updated journal u))
recovery_update-inspect_signer_recovery_example =
    recovery_update-inspect_signer_recovery mined 0 journal head 1000 true
      (resolution_available (record { anchor = head; nonce = 6 }) proof)
      (record { anchor = head; nonce = 6 }) journal-IsJournal refl inspects recorded

inspect_signer_bootstrap_example :
    (inspect_signer_bootstrap node 0 identity.signer head
      ≡ ok (ready (record { anchor = head; nonce = 6 })))
    ↔ IsReady node 0 identity.signer head (record { anchor = head; nonce = 6 })
inspect_signer_bootstrap_example =
    inspect_signer_bootstrap_iff node 0 identity.signer head (record { anchor = head; nonce = 6 })

abbrev cached_head : CachedDurableHead
cached_head = record { block_number = 118; read_started_at = 4000 }

read_chain_heads_example :
    IsRead 1000 4500 (read_chain_heads 1000 safe node 0 4500 (some cached_head))
read_chain_heads_example =
    read_chain_heads_lem 1000 4500 0 node (omega arith) safe (some cached_head) refl

-- At a head where nonce 5 is the next one, the attempt may be broadcast.
abbrev waiting : Client
waiting = record node { get_transaction_count = λ _ _ _. some (num 5) }

abbrev seen : AnchoredNonceObservation
seen = record { anchor = head; nonce = 5 }

abbrev open_queue : InspectedInclusions
open_queue = record {
  observation = seen;
  attempts = attempt ∷ [];
  inclusion_checks_complete = false;
  broadcast_attempt_id = some attempt.attempt_id;
}

seen-IsJournal : IsJournal identity (journal_at seen 5 (attempt ∷ []))
unfolding is_fixed_hex is_hex_unit lower_unit is_digit is_lower_hex is_uuid_v4 uuid_from uuid_unit
    is_work_id is_well_formed is_printable is_high is_low is_signed_bytes is_within is_leap
    days_in_month within rest_of_date after_plus after_minus is_iso_timestamp
seen-IsJournal = journal_at-IsJournal seen 5 (attempt ∷ []) refl refl (omega arith) refl refl refl

stepped : inspect_attempts waiting 1 head journal.attempts ≡ ok (taken (candidate attempt ∷ []))
unfolding inspect_attempts inspect_attempt apply_receipt reconcile_attempt_receipt are_hashes
    read_receipts read_receipt add_receipt conclude_receipts get_block_anchor check_block_anchor
    block_anchors_match is_fixed_hex is_hex_unit lower_unit
stepped = refl

read_nonce :
    read_anchored_nonce waiting 5 identity.signer head ≡ ok (AnchoredNonceResult.verified seen)
unfolding read_anchored_nonce read_between count_transactions get_block_anchor check_block_anchor
    block_anchors_match is_fixed_hex is_hex_unit lower_unit
read_nonce = refl

concluded :
    inspect_at_nonce waiting 8 true journal seen head none (candidate attempt ∷ [])
    ≡ ok (SignerInclusionInspection.inspected open_queue)
unfolding inspect_at_nonce search_candidates close_inclusions check_outer_head conclude_inclusions
    broadcast_id get_block_anchor check_block_anchor block_anchors_match is_fixed_hex is_hex_unit
    lower_unit
concluded = simp (
  inspect_at_nonce,
  search_candidates,
  close_inclusions,
  check_outer_head,
  conclude_inclusions,
  validate-snapshot_value identity (journal_at seen 5 (attempt ∷ [])) seen-IsJournal,
  broadcast_id,
)

inspected_queue :
    inspect_queue waiting 0 true journal head none
    ≡ ok (SignerInclusionInspection.inspected open_queue)
unfolding inspect_queue check_outer_head inspect_entries get_block_anchor check_block_anchor
    block_anchors_match is_fixed_hex is_hex_unit lower_unit
inspected_queue =
    simp (inspect_queue, check_outer_head, stepped, inspect_entries, read_nonce, concluded)

inspects_inclusions :
    inspect_signer_inclusions waiting 0 true journal head none
    ≡ ok (SignerInclusionInspection.inspected open_queue)
unfolding inspect_signer_inclusions is_fixed_hex is_hex_unit
inspects_inclusions = simp (
  inspect_signer_inclusions,
  validate-snapshot_value identity journal journal-IsJournal,
  inspected_queue,
)

inspect_signer_inclusions_example : IsInspected waiting journal head open_queue
inspect_signer_inclusions_example =
    inspect_signer_inclusions-IsInspected waiting 0 true journal head none open_queue
      journal-IsJournal inspects_inclusions

-- A coordinator that has recovered this journal and holds no permit.
abbrev recovered : Coordinator
recovered = record (initialized (options journal) (loaded journal)) { recovery_complete = true }

validate-inspect_signer_inclusions_example :
    (validate_journal_snapshot_structure
        (snapshot_value (journal_at seen 5 (attempt ∷ [])))
        (identity_value identity)
      ≡ ok (journal_at seen 5 (attempt ∷ [])))
    × ((id : Text)
        → (grant_after_inclusions
            (journal_at seen 5 (attempt ∷ []))
            open_queue
            recovered).broadcast_permit
          ≡ some id
        → IsOldestOpen waiting journal head seen id (attempt ∷ []))
validate-inspect_signer_inclusions_example =
    validate-inspect_signer_inclusions waiting 0 true journal head none open_queue recovered
      journal-IsJournal inspects_inclusions refl
