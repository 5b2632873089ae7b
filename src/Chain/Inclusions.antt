-- ===== src/Chain/Inclusions.antt =====
-- apps/relayer/src/chain/inspect-signer-inclusions.ts: every retained attempt at an observed head. The
-- sets of indices that the source keeps are two flags of each attempt.
pub mod Seen
pub mod Work
pub mod Inspected
pub mod Pass
pub mod Accepted
use drand_quicknet_evm.Base.{
  ℕ, ◌+◌, ◌*◌, ◌==◌, ◌&&◌, ◌||◌, not, Bool, true, false, Option, none, some, List, [], ◌∷◌, map,
  Result, ok, err, ◌>>=◌, ◌>>◌, require, ltb, leb, any, length, if◌then◌else◌,
}
use drand_quicknet_evm.Text.{Text, is_fixed_hex}
use drand_quicknet_evm.Journal.{
  BlockAnchor, AnchoredNonceObservation, ReplacementSearch, InclusionOutcome,
  JournalInclusionObservation, Phase, signed, broadcast_may_have_occurred, included, JournalAttempt,
  is_unresolved, TransactionJournalSnapshot,
}
use drand_quicknet_evm.Journal.Value.{snapshot_value, identity_value}
use drand_quicknet_evm.Journal.Check.{is_uint, is_anchor}
use drand_quicknet_evm.Journal.Validation.Structure.{validate_journal_snapshot_structure}
use drand_quicknet_evm.Coordinator.{AttemptResolutionEvidence}
use drand_quicknet_evm.Coordinator.Inclusions.{InspectedInclusions, SignerInclusionInspection}
use drand_quicknet_evm.Chain.{Client, Checked, invalid_inclusion_input, validation}
use drand_quicknet_evm.Chain.Anchor.{check_block_anchor}
use drand_quicknet_evm.Chain.Nonce.{AnchoredNonceResult, read_anchored_nonce}
use drand_quicknet_evm.Chain.Receipt.{AttemptReceiptResult, reconcile_attempt_receipt}
use drand_quicknet_evm.Chain.Search.{ReplacementSearchResult}
use drand_quicknet_evm.Chain.Search.Checks.{search_attempt_replacement}
use drand_quicknet_evm.Chain.Recovery.{transaction_hashes, search_for}
use drand_quicknet_evm.Chain.Inclusion.{
  InclusionRecheckResult, recheck_attempt_inclusion_within_pass,
}

-- An attempt of the new queue: verified in this pass, and a candidate for a replacement search.
pub record Entry : Type 0 where
  pub attempt : JournalAttempt
  pub is_verified : Bool
  pub is_candidate : Bool

abbrev pub kept : JournalAttempt → Entry
kept a = record { attempt = a; is_verified = false; is_candidate = false }

abbrev pub verified_entry : JournalAttempt → Entry
verified_entry a = record { attempt = a; is_verified = true; is_candidate = false }

abbrev pub candidate : JournalAttempt → Entry
candidate a = record { attempt = a; is_verified = false; is_candidate = true }

-- What a step of the pass gives, or the block that stands in place of the head.
pub data Step (A : Type 0) : Type 0 where
  taken : A → Step A
  moved : BlockAnchor → Step A

-- Search progress of a fork that is gone.
abbrev pub restart : Option ReplacementSearch → Option ReplacementSearch
restart none = none
restart (some saved) = some (record saved { searched_through = none })

unfoldable pub apply_recheck :
    JournalAttempt → JournalInclusionObservation → InclusionRecheckResult → Step Entry
apply_recheck a o (InclusionRecheckResult.anchor_changed b) = moved b
apply_recheck a o (InclusionRecheckResult.verified_unchanged b) =
    taken (verified_entry (record a { phase = included (record o { observed_at = b }) }))
apply_recheck a o (InclusionRecheckResult.inclusion_block_changed _ _) = taken (
    kept (record a {
      phase = broadcast_may_have_occurred;
      replacement_search = restart a.replacement_search;
    }))
apply_recheck a o InclusionRecheckResult.receipt_unavailable = taken (kept a)
apply_recheck a o InclusionRecheckResult.head_behind_inclusion = taken (kept a)

abbrev pub include : JournalAttempt → AttemptResolutionEvidence → BlockAnchor → JournalAttempt
include a evidence head = record a {
  phase =
      included
        (record { inclusion = evidence.inclusion; observed_at = head; outcome = evidence.outcome });
}

unfoldable pub apply_receipt : JournalAttempt → BlockAnchor → AttemptReceiptResult → Step Entry
apply_receipt a head (AttemptReceiptResult.anchor_changed b) = moved b
apply_receipt a head (AttemptReceiptResult.verified evidence) =
    taken (verified_entry (include a evidence head))
apply_receipt a head AttemptReceiptResult.receipt_not_found = taken (candidate a)
apply_receipt a head (AttemptReceiptResult.fork_served_receipt _ _) = taken (candidate a)
apply_receipt a head (AttemptReceiptResult.included_not_durable _ _) = taken (kept a)

unfoldable pub inspect_attempt : Client → ℕ → BlockAnchor → JournalAttempt → Checked (Step Entry)
inspect_attempt client moment head a = elim a.phase [
  | included o ↦ do
    result ← recheck_attempt_inclusion_within_pass client moment o head
    ok (apply_recheck a o result)
  | _ ↦ do
    receipt ← reconcile_attempt_receipt client moment (transaction_hashes a) head
    ok (apply_receipt a head receipt)
]

-- The loop over the queue.
unfoldable pub inspect_attempts :
    Client → ℕ → BlockAnchor → List JournalAttempt → Checked (Step (List Entry))
inspect_attempts client moment head [] = ok (taken [])
inspect_attempts client moment head (a ∷ rest) = elim (inspect_attempt client moment head a) [
  | err e ↦ err e
  | ok (moved b) ↦ ok (moved b)
  | ok (taken entry) ↦
      elim (inspect_attempts client (moment + 2 + 2 * length (transaction_hashes a)) head rest) [
        | err e ↦ err e
        | ok (moved b) ↦ ok (moved b)
        | ok (taken entries) ↦ ok (taken (entry ∷ entries))
      ]
]

-- What the search for a candidate's nonce gives.
unfoldable pub apply_search : Entry → BlockAnchor → ReplacementSearchResult → Step Entry
apply_search entry head (ReplacementSearchResult.anchor_changed b) = moved b
apply_search entry head (ReplacementSearchResult.replacement_found evidence) =
    taken (record entry { attempt = include entry.attempt evidence head; is_verified = true })
apply_search entry head _ = taken entry

-- A candidate whose nonce is used at the head is searched for.
unfoldable pub search_entry :
    Client
    → ℕ
    → TransactionJournalSnapshot
    → AnchoredNonceObservation
    → BlockAnchor
    → ℕ
    → Entry
    → Checked (Step Entry)
search_entry client moment s o head range entry =
    elim (entry.is_candidate && ltb entry.attempt.nonce o.nonce) [
      | false ↦ ok (taken entry)
      | true ↦ do
        result ← search_attempt_replacement client moment (search_for s entry.attempt o range)
        ok (apply_search entry head result)
    ]

unfoldable pub search_entries :
    Client
    → ℕ
    → TransactionJournalSnapshot
    → AnchoredNonceObservation
    → BlockAnchor
    → ℕ
    → List Entry
    → Checked (Step (List Entry))
search_entries client moment s o head range [] = ok (taken [])
search_entries client moment s o head range (entry ∷ rest) =
    elim (search_entry client moment s o head range entry) [
      | err e ↦ err e
      | ok (moved b) ↦ ok (moved b)
      | ok (taken searched) ↦
          elim (search_entries client (moment + 4 + range) s o head range rest) [
            | err e ↦ err e
            | ok (moved b) ↦ ok (moved b)
            | ok (taken entries) ↦ ok (taken (searched ∷ entries))
          ]
    ]
