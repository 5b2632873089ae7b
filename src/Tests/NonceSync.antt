-- ===== src/Tests/NonceSync.antt =====
-- The plan of a nonce repair, at an empty journal behind the chain.
use drand_quicknet_evm.Base.{◌≡◌, refl, ok}
use drand_quicknet_evm.Text.{codes, is_fixed_hex, is_hex_unit, is_digit}
use drand_quicknet_evm.Text.Iso.{
  is_leap, days_in_month, within, rest_of_date, after_plus, after_minus, is_iso_timestamp,
}
use drand_quicknet_evm.NonceSync.{PlanNonceSyncOptions, NonceSyncPlan, plan_nonce_sync}
use drand_quicknet_evm.NonceSync.Laws.{Planned, plan_nonce_sync_lem}
use drand_quicknet_evm.Tests.Data.{identity, later, empty_journal}
use drand_quicknet_evm.Tests.Accepted.{empty_journal-IsJournal}

abbrev behind : PlanNonceSyncOptions
behind = record {
  snapshot = empty_journal;
  identity = identity;
  observation = later;
  latest_nonce = 6;
  pending_nonce = 6;
  time = codes "2025-11-26T10:30:00.000Z";
}

plan_nonce_sync_example :
    (plan : NonceSyncPlan) × (plan_nonce_sync behind ≡ ok plan)
    × Planned behind empty_journal later plan
unfolding is_fixed_hex is_hex_unit is_digit is_leap days_in_month within rest_of_date after_plus
    after_minus is_iso_timestamp
plan_nonce_sync_example = plan_nonce_sync_lem behind empty_journal-IsJournal refl refl refl refl
