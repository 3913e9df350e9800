-- ===== src/Health/Tests.antt =====
-- The theorems on health at concrete inputs.
use acestream_orchestrator.Prelude.{
  ℕ, ◌≡◌, ◌≢◌, ◌&&◌, refl, Bool, true, false, some, none, List, [], ◌∷◌, leb, length,
}
use acestream_orchestrator.Prelude.Maps.{lookup}
use acestream_orchestrator.State.{Engine, unhealthy}
use acestream_orchestrator.Health.{
  HealthConfig, HealthManager, new_tracker, is_past, is_cooling, should_be_replaced, find_candidate,
  mark_candidate, evict_unhealthy,
}
use acestream_orchestrator.Health.Probes.{
  observe_each, failures_after, first, should_be_replaced-observe_each,
}
use acestream_orchestrator.Health.Eviction.{Among, IsMarked, IsDue, evict_unhealthy-IsDue}

abbrev config : HealthConfig
config = record {
  failure_threshold = 2;
  unhealthy_grace_period = 10;
  replacement_cooldown = 60;
  manual_mode = false;
}

abbrev probes : List (ℕ × Bool)
probes = (1, false) ∷ (2, true) ∷ (3, false) ∷ (4, false) ∷ []

should_be_replaced-observe_each_example :
    should_be_replaced 20 config (observe_each probes new_tracker) ≡ (
      leb 2 (length (failures_after [] probes)) && is_past 20 10 (first (failures_after [] probes)))
should_be_replaced-observe_each_example = should_be_replaced-observe_each 20 config probes

abbrev engine : Engine
engine = record {
  container_id = "a";
  container_name = "a";
  labels = [];
  forwarded = false;
  vpn_container = "vpn1";
  health_status = unhealthy;
  first_seen = 1;
  last_seen = 2;
  draining = false;
  drain_reason = "";
  last_assigned_at = 0;
}

abbrev manager : HealthManager
manager = record {
  trackers =
      ("a", record new_tracker { consecutive_failures = 2; first_failure_time = some 3 }) ∷ [];
  last_replacement_at = none;
}

chosen : (evict_unhealthy 20 config (engine ∷ []) manager).0 ≡ some engine
unfolding evict_unhealthy find_candidate mark_candidate should_be_replaced lookup
chosen = refl

evict_unhealthy-IsDue_example :
    (is_cooling 20 60 none ≡ false)
    × Among engine (engine ∷ [])
    × IsDue 20 config manager engine
    × IsMarked "a" (evict_unhealthy 20 config (engine ∷ []) manager).1
    × ((later : ℕ) (others : List Engine) (next : HealthManager) (other : Engine)
        → IsMarked "a" next
        → (evict_unhealthy later config others next).0 ≡ some other
        → other.container_id ≢ "a")
evict_unhealthy-IsDue_example = evict_unhealthy-IsDue 20 config (engine ∷ []) manager engine chosen
