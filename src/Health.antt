-- ===== src/Health.antt =====
-- app/orchestrator/internal/controlplane/engine/health.go: how long an engine has failed its probes,
-- which engine is replaced, and the VPN nodes whose streams starve. What a probe or a container
-- call answers is an argument, as is the text function that trims and lowers a condition. Times
-- are nanoseconds, and `none` is Go's zero time. The mutex makes each part one step.
pub mod Probes
pub mod Eviction
mod Tests
use acestream_orchestrator.Prelude.{
  ℕ, suc, ◌+◌, Bool, true, false, ◌&&◌, ◌||◌, not, Option, none, some, List, [], ◌∷◌, if◌then◌else◌,
  ltb, leb, ◌==◌, length, String, str_eq,
}
use acestream_orchestrator.Prelude.Maps.{Map, lookup, insert, delete}
use acestream_orchestrator.State.{
  Engine, Store, HealthStatus, healthy, unhealthy, VpnNode, StreamState, StatSnapshot, is_some,
  list_engines, engines_by_vpn, remove_engine, update_engine_health, or_zero,
}
use acestream_orchestrator.State.Nodes.{list_vpn_nodes, is_vpn_node_draining, set_vpn_node_draining}
use acestream_orchestrator.State.Streams.{get_stats}

-- The part of the configuration that is read here.
pub record HealthConfig : Type 0 where
  pub failure_threshold : ℕ
  pub unhealthy_grace_period : ℕ
  pub replacement_cooldown : ℕ
  pub manual_mode : Bool

pub record EngineHealthTracker : Type 0 where
  pub consecutive_failures : ℕ
  pub first_failure_time : Option ℕ
  pub last_healthy_time : Option ℕ
  pub marked_for_replacement : Bool
  pub replacement_started : Bool

abbrev pub new_tracker : EngineHealthTracker
new_tracker = record {
  consecutive_failures = 0;
  first_failure_time = none;
  last_healthy_time = none;
  marked_for_replacement = false;
  replacement_started = false;
}

abbrev pub is_considered : ℕ → EngineHealthTracker → Bool
is_considered threshold t = leb threshold t.consecutive_failures

-- `!t.IsZero() && time.Since(t) > d`.
abbrev pub is_past : ℕ → ℕ → Option ℕ → Bool
is_past now d none = false
is_past now d (some t) = ltb (t + d) now

unfoldable pub should_be_replaced : ℕ → HealthConfig → EngineHealthTracker → Bool
should_be_replaced now cfg t =
    is_considered cfg.failure_threshold t
    && is_past now cfg.unhealthy_grace_period t.first_failure_time

pub record HealthManager : Type 0 where
  pub trackers : Map EngineHealthTracker
  pub last_replacement_at : Option ℕ

-- The manager and the store that it works on.
pub record Ward : Type 0 where
  pub manager : HealthManager
  pub store : Store

abbrev pub or_new : Option EngineHealthTracker → EngineHealthTracker
or_new none = new_tracker
or_new (some t) = t

abbrev pub put_tracker : String → EngineHealthTracker → HealthManager → HealthManager
put_tracker id t hm = record hm { trackers = insert id t hm.trackers }

unfoldable pub has_engine : String → List Engine → Bool
has_engine id [] = false
has_engine id (e ∷ engines) = str_eq e.container_id id || has_engine id engines

-- The trackers of engines that are gone go.
unfoldable pub clean_trackers : List Engine → Map EngineHealthTracker → Map EngineHealthTracker
clean_trackers engines [] = []
clean_trackers engines ((id, t) ∷ trackers) =
    let rest = clean_trackers engines trackers in
    if has_engine id engines then (id, t) ∷ rest else rest

unfoldable pub init_trackers : List Engine → Map EngineHealthTracker → Map EngineHealthTracker
init_trackers [] trackers = trackers
init_trackers (e ∷ engines) trackers = init_trackers engines (
    if is_some (lookup e.container_id trackers)
    then trackers
    else insert e.container_id new_tracker trackers)

abbrev pub or_now : ℕ → Option ℕ → Option ℕ
or_now now none = some now
or_now now (some t) = some t

-- What a probe does to the tracker.
unfoldable pub observe : ℕ → Bool → EngineHealthTracker → EngineHealthTracker
observe now ok t =
    if ok
    then record t {
      consecutive_failures = 0;
      last_healthy_time = some now;
      first_failure_time = none;
    }
    else record t {
      consecutive_failures = t.consecutive_failures + 1;
      first_failure_time = or_now now t.first_failure_time;
    }

-- One result of the loop, and whether the engine counts as healthy.
unfoldable pub apply_result : ℕ → HealthConfig → Engine → Bool → Ward → Bool × Ward
apply_result now cfg e ok w =
    let t = observe now ok (or_new (lookup e.container_id w.manager.trackers)) in
    let hm = put_tracker e.container_id t w.manager in
    if ok
    then (
      true,
      record { manager = hm; store = update_engine_health now e.container_id healthy w.store },
    )
    else if is_considered cfg.failure_threshold t
    then (
      false,
      record { manager = hm; store = update_engine_health now e.container_id unhealthy w.store },
    )
    else (true, record w { manager = hm })

-- The results, with the healthy and the unhealthy engines.
unfoldable pub apply_results :
    ℕ → HealthConfig → List (Engine × Bool) → Ward → List Engine × List Engine × Ward
apply_results now cfg [] w = ([], [], w)
apply_results now cfg ((e, ok) ∷ results) w =
    let (well, next) = apply_result now cfg e ok w in
    let (good, bad, last) = apply_results now cfg results next in
    if well then (e ∷ good, bad, last) else (good, e ∷ bad, last)

-- The streams that have started on an engine.
unfoldable pub started_on : String → Map StreamState → List StreamState
started_on id [] = []
started_on id ((key, st) ∷ streams) =
    let rest = started_on id streams in
    if str_eq st.container_id id && not (str_eq st.container_id "") && str_eq st.status "started"
    then st ∷ rest
    else rest

-- `starvationMinAge`, 3 minutes.
abbrev pub starvation_min_age : ℕ
starvation_min_age = 180000000000

unfoldable pub latest : List StatSnapshot → Option StatSnapshot
latest [] = none
latest (snap ∷ snaps) = let later = latest snaps in if is_some later then later else some snap

abbrev pub is_idle : Option StatSnapshot → Bool
is_idle none = false
is_idle (some snap) = (or_zero snap.peers == 0) && (or_zero snap.speed_down == 0)

unfoldable pub is_starved : ℕ → StreamState → Store → Bool
is_starved now st s =
    not (str_eq st.control_mode "api")
    && ltb (st.started_at + starvation_min_age) now
    && is_idle (latest (get_stats st.id s))

unfoldable pub all_starved : ℕ → List StreamState → Store → Bool
all_starved now [] s = true
all_starved now (st ∷ streams) s = is_starved now st s && all_starved now streams s

-- The engine's VPN node is to drain.
unfoldable pub starves : ℕ → Engine → Store → Bool
starves now e s =
    ltb 0 (length (started_on e.container_id s.streams))
    && all_starved now (started_on e.container_id s.streams) s
    && not (str_eq e.vpn_container "")
    && is_some (lookup e.vpn_container s.vpn_nodes)
    && not (is_vpn_node_draining e.vpn_container s)

unfoldable pub detect_starvation : ℕ → List Engine → Store → Store
detect_starvation now [] s = s
detect_starvation now (e ∷ engines) s =
    detect_starvation now engines
      (if starves now e s then (set_vpn_node_draining now e.vpn_container s).1 else s)

abbrev pub engines_of : VpnNode → Store → ℕ
engines_of n s = length (engines_by_vpn n.container_name s.engines)

abbrev pub is_less_loaded : VpnNode → Option VpnNode → Store → Bool
is_less_loaded n none s = true
is_less_loaded n (some target) s = ltb (engines_of n s) (engines_of target s)

unfoldable pub target_vpn : List VpnNode → Option VpnNode → Store → Option VpnNode
target_vpn [] target s = target
target_vpn (n ∷ nodes) target s =
    target_vpn nodes (if n.healthy && is_less_loaded n target s then some n else target) s

abbrev pub is_unready : (String → String) → Option VpnNode → Bool
is_unready normal none = false
is_unready normal (some n) =
    not (str_eq (normal n.condition) "") && not (str_eq (normal n.condition) "ready")

unfoldable pub should_wait_for_vpn_recovery : (String → String) → Store → Bool
should_wait_for_vpn_recovery normal s =
    is_unready normal (target_vpn (list_vpn_nodes s.vpn_nodes) none s)

abbrev pub is_cooling : ℕ → ℕ → Option ℕ → Bool
is_cooling now d none = false
is_cooling now d (some t) = ltb now (t + d)

abbrev pub is_candidate : ℕ → HealthConfig → Option EngineHealthTracker → Bool
is_candidate now cfg none = false
is_candidate now cfg (some t) = should_be_replaced now cfg t && not t.marked_for_replacement

-- The first engine that is due, which is marked.
unfoldable pub find_candidate : ℕ → HealthConfig → List Engine → HealthManager → Option Engine
find_candidate now cfg [] hm = none
find_candidate now cfg (e ∷ engines) hm =
    let later = find_candidate now cfg engines hm in
    if is_candidate now cfg (lookup e.container_id hm.trackers) then some e else later

abbrev pub change :
    (EngineHealthTracker → EngineHealthTracker) → String → HealthManager → HealthManager
change f id hm = elim (lookup id hm.trackers) [ none ↦ hm | some t ↦ put_tracker id (f t) hm ]

unfoldable pub mark_candidate : Option Engine → HealthManager → Option Engine × HealthManager
mark_candidate none hm = (none, hm)
mark_candidate (some e) hm =
    (some e, change (λ t. record t { marked_for_replacement = true }) e.container_id hm)

unfoldable pub evict_unhealthy :
    ℕ → HealthConfig → List Engine → HealthManager → Option Engine × HealthManager
evict_unhealthy now cfg engines hm =
    if is_cooling now cfg.replacement_cooldown hm.last_replacement_at
    then (none, hm)
    else mark_candidate (find_candidate now cfg engines hm) hm

-- The goroutine of an eviction: before and after the container is stopped.
unfoldable pub start_replacement : String → HealthManager → HealthManager
start_replacement id hm = change (λ t. record t { replacement_started = true }) id hm

unfoldable pub finish_replacement : ℕ → String → Bool → Ward → Ward
finish_replacement now id stopped w =
    if stopped
    then record {
      manager = record { trackers = delete id w.manager.trackers; last_replacement_at = some now };
      store = (remove_engine id w.store).1;
    }
    else record w {
      manager =
          change (λ t. record t { marked_for_replacement = false; replacement_started = false }) id
            w.manager;
    }

-- `checkAndManage` on these probe results, with the engine whose eviction starts.
unfoldable pub check_and_manage :
    ℕ → HealthConfig → (String → String) → List (Engine × Bool) → Ward → Option Engine × Ward
check_and_manage now cfg normal results w =
    let engines = list_engines w.store.engines in
    let trackers = init_trackers engines (clean_trackers engines w.manager.trackers) in
    let (good, bad, probed) =
      apply_results now cfg results
        (record w { manager = record w.manager { trackers = trackers } }) in
    let s = if cfg.manual_mode then probed.store else detect_starvation now good probed.store in
    let checked : Ward = record probed { store = s } in
    if should_wait_for_vpn_recovery normal s || cfg.manual_mode
    then (none, checked)
    else let (candidate, hm) = evict_unhealthy now cfg bad probed.manager in
      (candidate, record checked { manager = hm })
