-- ===== src/Ports/Engine/Auto.antt =====
-- What a successful `AllocateEnginePorts` hands out to a request that names no port and no VPN.
use acestream_orchestrator.Prelude.{ℕ, ◌≤◌, ◌≡◌, ◌≢◌, Bool, true, false, str_eq}
use acestream_orchestrator.Ports.{PortAllocator}
use acestream_orchestrator.Ports.Engine.{PortsInfo, Request, Work, Outcome, done, failed, stuck}
use acestream_orchestrator.Ports.Engine.Rollback.{Cursors}

abbrev OnDone : (Work → Type 0) → Outcome → Type 0
OnDone P (done w) = P w
OnDone P (failed w) = Unit
OnDone P stuck = Unit

-- A host port that was free in `a`, lies in its range and is in use in `b`.
pub record TakenHost (a b : PortAllocator) (p : ℕ) : Type 0 where
  pub low : a.host_min ≤ p
  pub high : p ≤ a.host_max
  pub was_free : a.used_host p ≡ false
  pub is_used : b.used_host p ≡ true

pub record TakenHttps (a b : PortAllocator) (p : ℕ) : Type 0 where
  pub low : a.https_min ≤ p
  pub high : p ≤ a.https_max
  pub was_free : a.used_https p ≡ false
  pub is_used : b.used_https p ≡ true

-- The allocator `b` has the ranges of `a`, and no host port that `a` has in use is free in it.
record Grown (a b : PortAllocator) : Type 0 where
  host_min : b.host_min ≡ a.host_min
  host_max : b.host_max ≡ a.host_max
  still_used : (q : ℕ) → b.used_host q ≡ false → a.used_host q ≡ false
  cursors : Cursors b

record HttpDone (a : PortAllocator) (w : Work) : Type 0 where
  grown : Grown a w.alloc
  https_min : w.alloc.https_min ≡ a.https_min
  https_max : w.alloc.https_max ≡ a.https_max
  used_https : w.alloc.used_https ≡ a.used_https
  http : TakenHost a w.alloc w.info.host_http_port
  agree : w.info.container_http_port ≡ w.info.host_http_port

record HttpsDone (a : PortAllocator) (w : Work) : Type 0 where
  grown : Grown a w.alloc
  http : TakenHost a w.alloc w.info.host_http_port
  agree : w.info.container_http_port ≡ w.info.host_http_port
  https : TakenHttps a w.alloc w.info.container_https_port
  other : w.info.container_https_port ≢ w.info.container_http_port

-- The ports `info`, taken out of `a` with `b` left: host and HTTPS ports that were free and are
-- now in use, and no host port is given out twice.
pub record Handed (a b : PortAllocator) (info : PortsInfo) (mapped : Bool) : Type 0 where
  pub http : TakenHost a b info.host_http_port
  pub agree : info.container_http_port ≡ info.host_http_port
  pub https : TakenHttps a b info.container_https_port
  pub https_other : info.container_https_port ≢ info.container_http_port
  pub api : TakenHost a b info.host_api_port
  pub api_same : info.container_api_port ≡ info.host_api_port
  pub api_other : info.host_api_port ≢ info.host_http_port
  pub mapping : mapped ≡ true → TakenHost a b info.host_https_port
  pub mapping_other :
      mapped ≡ true
      → (info.host_https_port ≢ info.host_http_port) × (info.host_https_port ≢ info.host_api_port)

record ApiDone (a : PortAllocator) (w : Work) : Type 0 where
  grown : Grown a w.alloc
  handed : Handed a w.alloc w.info false

-- What the whole function is to hand out.
abbrev Complete : PortAllocator → Bool → Work → Type 0
Complete a mapped w = Handed a w.alloc w.info mapped

-- A request of `AllocateEnginePorts` that names neither a VPN nor a port.
pub record IsAuto (r : Request) : Type 0 where
  pub no_vpn : str_eq r.vpn_container "" ≡ true
  pub no_gluetun : r.use_gluetun ≡ false
  pub no_requested : r.requested_host_port ≡ 0
  pub no_http : r.user_http_port ≡ 0
  pub no_https : r.user_https_port ≡ 0
  pub no_api : r.user_api_port ≡ 0
