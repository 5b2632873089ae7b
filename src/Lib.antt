-- ===== src/Lib.antt =====
-- The relayer of drand-quicknet-evm, apps/relayer/src: how its signer allocates nonces, keeps a
-- journal of the transactions that it signs, broadcasts them once each, and recovers after a stop.
--
-- Parts, and the files that model them (paths from apps/relayer/src on):
--   * Base, Text: results, lists on native numbers, and strings as UTF-16 code units, with the formats
--     of shared/hex.ts, shared/uuid.ts and execution/work-identity.ts, and the canonical timestamp
--     test `new Date(Date.parse(x)).toISOString() === x`.
--   * Journal: state/transaction-journal.ts. Journal/Value has the JavaScript values that a loaded
--     journal may be, with the encoding of a snapshot; Journal/Validation is
--     state/transaction-journal-validation.ts, a reader per function; Journal/Snapshot says what a
--     well-formed journal is. Journal/Verification is state/transaction-journal-verification.ts.
--   * Persistence: state/journal-persistence.ts, with the file behind the store.
--   * Gate: state/signer-gate.ts.
--   * Coordinator: state/signer-coordinator.ts with state/durable-recovery-revision.ts and
--     diagnostics/resolution-validation.ts. Creation is `create`, Inspection the life of an inspection
--     (`beginInspection`, `openHead`, `finish`, `abandon`), Prepare `prepareAttempt`, Broadcast
--     `broadcastAttempt`, Recover and Recovery `recoverOwned` and `recover`, Inclusions
--     `checkInclusionsOwned` and `checkInclusions`, Retry `retryPersistence` and
--     `observeReconciliation`, Refresh `refresh`, `finishWrite`, `emit` and the latches, Gates
--     `status`, `canBroadcast`, `attempts` and the guards, Evidence and Durable the two helpers.
--     Guards, Steady, Saved, Spent, Scrubbing and Released are lemmas; the other files are named for
--     what they show.
--   * NonceSync: state/plan-nonce-sync.ts.
--   * Chain: the files of chain that ask a node. Chain has the client and its responses; Anchor is
--     block-anchor.ts, Nonce nonce-response.ts, read-anchored-nonce.ts and inspect-signer-bootstrap.ts,
--     Receipt reconcile-attempt-receipt.ts, Search search-attempt-replacement.ts (its loops; Checks has
--     what stands around them) with resolve-replacement-search.ts, Recovery inspect-signer-recovery.ts,
--     Inclusion recheck-attempt-inclusion.ts, Inclusions inspect-signer-inclusions.ts (the loops over the
--     queue; Pass has the pass around them), Policy and Heads finality-policy.ts, Heads also
--     chain-heads.ts, chain-heads-reader.ts and inspect-nonce-sync.ts. What Recovery and Inclusions
--     answer is what Coordinator takes: Chain/Recovery/Accepted and Chain/Inclusions/Accepted are about
--     both. Chain/Search/Spec, Serving and Resume say what a node with one chain serves and what a search
--     in passes has to find there.
--   * Tests: the theorems at concrete data.
--
-- How the code is modelled. A method that awaits is one function from the state and the answers of its
-- environment to a result, returned or thrown, and the state that it leaves: the answers are those of
-- the store, the node, the clock, the identifier source, the signer, the log and the chain inspections.
-- One step for a whole method is what the code allows, since `busy`, `emitting` and the inspection's
-- owner refuse every other call meanwhile; these guards are part of the model. An inspection is
-- abandoned in the model after the operation that it waits for has settled. What the log is given is
-- kept in `emissions`, newest first, each with the signed bytes that the log then keeps out of its text.
-- A store that rejects a save may have replaced the file or not: `disk` follows both. viem is the record
-- `Viem` of functions that may throw, and nothing is assumed of it. A nonce or a block number is a
-- `bigint` within the range that validation tests; no counter wraps.
--
-- An inspection of Chain is one function from a client and a moment: the client answers each call at the
-- moment that it is made, and may answer otherwise at any other, so that a reorganisation between two
-- calls is a client like any other. Of calls in sequence the later one has the later moment. A response
-- has the types that viem declares, and may be ill formed within them where the source tests it; a call
-- that throws answers none. The index sets of inspect-signer-inclusions.ts are two flags of an attempt.
-- Abort signals and the diagnostics that are attached to a failure are left out. The
-- clock of the cached heads gives whole milliseconds in the model, and may give fractions in the program,
-- of which only a difference is compared.
--
-- No fuel is used: each loop is recursion on a list, or, for the blocks of a search, on their number, the
-- smaller of the range and of what is left up to the anchor.
--
-- Not modelled: the signing behind the coordinator's inputs, the file stores, the transaction manager and
-- the cycle that drives the coordinator; the schedules of recoveries and of sends, whose times are
-- fractional milliseconds in floating point; rounds, consumers, the daemon, configuration, the command line
-- and the log's text; the Solidity contracts and the SDK packages.
pub mod Base
pub mod Text
pub mod Journal
pub mod Persistence
pub mod Gate
pub mod Coordinator
pub mod NonceSync
pub mod Chain
pub mod Tests
