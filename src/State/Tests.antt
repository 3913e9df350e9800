-- ===== src/State/Tests.antt =====
-- The theorems on the store at concrete inputs.
use acestream_orchestrator.Prelude.{
  ◌≡◌, ◌≢◌, none, refl, Bool, true, false, [], ◌∷◌, arith, str_eq, String, eq_iff,
}
use acestream_orchestrator.Prelude.Maps.{lookup}
use acestream_orchestrator.State.{Engine, Store, healthy, new_store, count}
use acestream_orchestrator.State.Vpn.{pick_vpn, vpn_total, engines_on, select_and_claim_vpn}
use acestream_orchestrator.State.Vpn.Laws.{IsClaim, select_and_claim_vpn-IsClaim}
use acestream_orchestrator.State.Select.{get_engine_total_load, select_and_claim_engine}
use acestream_orchestrator.State.Select.Claim.{
  IsSelection, IsBounded, select_and_claim_engine-IsSelection,
}

abbrev engine : String → Bool → Engine
engine id forwarded = record {
  container_id = id;
  container_name = id;
  labels = [];
  forwarded = forwarded;
  vpn_container = "vpn1";
  health_status = healthy;
  first_seen = 1;
  last_seen = 2;
  draining = false;
  drain_reason = "";
  last_assigned_at = 0;
}

-- Two engines, one of them with a stream.
abbrev busy : Store
busy = record {
  engine_ready = 2;
  engines = ("a", engine "a" true) ∷ ("b", engine "b" false) ∷ [];
  vpn_pending = ("vpn2", 1) ∷ [];
  engine_pending = [];
  stream_counts = ("a", 1) ∷ [];
  forwarded_pending = [];
  empty_at = [];
  vpn_nodes = [];
  intents = [];
  desired_replicas = 0;
  lookahead_layer = none;
  target_config_hash = "";
  target_config_generation = 0;
  streams = [];
  stats = [];
  next_engine_index = 0;
}

select_and_claim_vpn-IsClaim_example :
    IsClaim 3 busy ("vpn1" ∷ "vpn2" ∷ []) (select_and_claim_vpn ("vpn1" ∷ "vpn2" ∷ []) 3 busy)
select_and_claim_vpn-IsClaim_example =
    select_and_claim_vpn-IsClaim ("vpn1" ∷ "vpn2" ∷ []) 3 busy
      (named "vpn1" refl, (named "vpn2" refl, tt))
  where
    named : (name : String) → str_eq name "" ≡ false → name ≢ ""
    named name h e = ground (arith, eq_iff name "")

select_and_claim_vpn_runs : (select_and_claim_vpn ("vpn1" ∷ "vpn2" ∷ []) 3 busy).0.0 ≡ "vpn2"
unfolding select_and_claim_vpn pick_vpn vpn_total engines_on count lookup
select_and_claim_vpn_runs = refl

select_and_claim_engine-IsSelection_example :
    IsSelection 6000000000 2 busy (select_and_claim_engine 6000000000 2 busy)
select_and_claim_engine-IsSelection_example = select_and_claim_engine-IsSelection 6000000000 2 busy

new_store-IsBounded : IsBounded 2 new_store
unfolding new_store get_engine_total_load count lookup
new_store-IsBounded id = omega arith
