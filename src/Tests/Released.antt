-- ===== src/Tests/Released.antt =====
-- An inspection is given up in the end, at one signer with one attempt.
use drand_quicknet_evm.Base.{◌≡◌, refl, none, some, [], ◌∷◌, true}
use drand_quicknet_evm.Persistence.{resolved, rejected_written}
use drand_quicknet_evm.Coordinator.Inspection.{unchanged}
use drand_quicknet_evm.Coordinator.Recover.{RecoveryEnvironment, unresolved, receipt_not_found}
use drand_quicknet_evm.Coordinator.Recovery.{recover}
use drand_quicknet_evm.Coordinator.Inclusions.{InclusionsEnvironment, inspected, check_inclusions}
use drand_quicknet_evm.Coordinator.Owned.{recover-releases}
use drand_quicknet_evm.Coordinator.OwnedInclusions.{check_inclusions-releases}
use drand_quicknet_evm.Tests.Data.{anchor, observation, attempt, viem}
use drand_quicknet_evm.Tests.Coordinator.{now, permitted, permitted-IsSteady}

abbrev waiting : RecoveryEnvironment
waiting = record {
  bootstrap_decision = none;
  inspection = some (unresolved observation receipt_not_found none);
  outcome = rejected_written;
  now = now;
}

recover-releases_example : (recover viem 1000 waiting permitted).1.inspection_owner ≡ none
recover-releases_example = recover-releases viem 1000 waiting permitted permitted-IsSteady refl

abbrev checking : InclusionsEnvironment
checking = record {
  client = 1;
  head = anchor;
  inspection = some (
      inspected (record {
        observation = observation;
        attempts = attempt ∷ [];
        inclusion_checks_complete = true;
        broadcast_attempt_id = some attempt.attempt_id;
      }));
  check = unchanged;
  outcome = resolved;
  now = now;
}

check_inclusions-releases_example :
    (check_inclusions viem checking permitted).1.inspection_owner ≡ none
check_inclusions-releases_example =
    check_inclusions-releases viem checking permitted permitted-IsSteady refl
