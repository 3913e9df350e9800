-- ===== src/Ports/Engine/Rollback.antt =====
-- What a failed `AllocateEnginePorts` leaves: which reservations its rollback takes back.
use acestream_orchestrator.Prelude.{
  ℕ, ◌+◌, ◌≤◌, ◌≡◌, refl, ap, ◌∙◌, Bool, true, false, not, ◌||◌, ◌&&◌, Option, none, some, String,
  List, [], ◌∷◌, arith, ◌==◌, if◌then◌else◌,
}
use acestream_orchestrator.Prelude.Sets.{Set, add}
use acestream_orchestrator.Ports.{
  PortAllocator, next_in, alloc_host, Search, take_https, reserve_http,
}
use acestream_orchestrator.Ports.Scan.{next_in_sound}
use acestream_orchestrator.Ports.Https.{Searched, got, full, spun, search_https-Searched}
use acestream_orchestrator.Ports.Vpn.{
  ensure_vpn_range_assigned, alloc_in_range, mark_gluetun, unmark_gluetun,
}
use acestream_orchestrator.Ports.Engine.{
  PortsInfo, no_ports, Request, Reservation, host, http, https, gluetun, Work, Outcome, done,
  failed, stuck, ◌>>=◌, rollback, release, put_host, take_host, put_gluetun, take_gluetun,
  same_http, use_http, use_gluetun_port, http_part, https_part, https_result, api_part, map_part,
  run_parts, finish, no_free_ports, allocate_engine_ports,
}

-- The fields that the parts of a VPN's ranges leave alone.
record SamePorts (a b : PortAllocator) : Type 0 where
  used_host : a.used_host ≡ b.used_host
  used_https : a.used_https ≡ b.used_https
  host_min : a.host_min ≡ b.host_min
  host_max : a.host_max ≡ b.host_max
  host_next : a.host_next ≡ b.host_next
  https_min : a.https_min ≡ b.https_min
  https_max : a.https_max ≡ b.https_max
  https_next : a.https_next ≡ b.https_next

mark_gluetun-SamePorts :
    (p : ℕ) (vpn : String) (a : PortAllocator) → SamePorts (mark_gluetun p vpn a) a
unfolding mark_gluetun
mark_gluetun-SamePorts p vpn a = ground arith

unmark_gluetun-SamePorts :
    (p : ℕ) (vpn : String) (a : PortAllocator) → SamePorts (unmark_gluetun p vpn a) a
unfolding unmark_gluetun
unmark_gluetun-SamePorts p vpn a = ground arith

alloc_in_range-SamePorts : (vpn : String) (a : PortAllocator) → SamePorts (alloc_in_range vpn a).0 a
unfolding alloc_in_range
alloc_in_range-SamePorts vpn a = ground arith

ensure_vpn_range_assigned-SamePorts :
    (vpn : String) (a : PortAllocator) → SamePorts (ensure_vpn_range_assigned vpn a) a
unfolding ensure_vpn_range_assigned
ensure_vpn_range_assigned-SamePorts vpn a = ground arith

-- Whether a reservation of the host range, or of the HTTPS range, is tracked for the port.
abbrev holds_host : ℕ → List Reservation → Bool
holds_host q [] = false
holds_host q (host p ∷ rs) = p == q || holds_host q rs
holds_host q (http p ∷ rs) = holds_host q rs
holds_host q (https p ∷ rs) = holds_host q rs
holds_host q (gluetun p vpn ∷ rs) = holds_host q rs

abbrev holds_https : ℕ → List Reservation → Bool
holds_https q [] = false
holds_https q (host p ∷ rs) = holds_https q rs
holds_https q (http p ∷ rs) = holds_https q rs
holds_https q (https p ∷ rs) = p == q || holds_https q rs
holds_https q (gluetun p vpn ∷ rs) = holds_https q rs

used_host-rollback :
    (q : ℕ) (rs : List Reservation) (a : PortAllocator)
    → (rollback rs a).used_host q ≡ (if holds_host q rs then false else a.used_host q)
unfolding rollback
used_host-rollback q [] a = refl
used_host-rollback q (host p ∷ rs) a = ground (arith, used_host-rollback q rs (release (host p) a))
used_host-rollback q (http p ∷ rs) a = used_host-rollback q rs (release (http p) a)
used_host-rollback q (https p ∷ rs) a = used_host-rollback q rs (release (https p) a)
used_host-rollback q (gluetun p vpn ∷ rs) a =
    used_host-rollback q rs (unmark_gluetun p vpn a)
    ∙ ap (λ (s : Set). if holds_host q rs then false else s q)
        (unmark_gluetun-SamePorts p vpn a).used_host

used_https-rollback :
    (q : ℕ) (rs : List Reservation) (a : PortAllocator)
    → (rollback rs a).used_https q ≡ (if holds_https q rs then false else a.used_https q)
unfolding rollback
used_https-rollback q [] a = refl
used_https-rollback q (host p ∷ rs) a = used_https-rollback q rs (release (host p) a)
used_https-rollback q (http p ∷ rs) a = used_https-rollback q rs (release (http p) a)
used_https-rollback q (https p ∷ rs) a =
    ground (arith, used_https-rollback q rs (release (https p) a))
used_https-rollback q (gluetun p vpn ∷ rs) a =
    used_https-rollback q rs (unmark_gluetun p vpn a)
    ∙ ap (λ (s : Set). if holds_https q rs then false else s q)
        (unmark_gluetun-SamePorts p vpn a).used_https

-- The cursors stand in their ranges or just past them.
pub record Cursors (a : PortAllocator) : Type 0 where
  pub host_low : a.host_min ≤ a.host_next
  pub host_high : a.host_next ≤ a.host_max + 1
  pub https_low : a.https_min ≤ a.https_next
  pub https_high : a.https_next ≤ a.https_max + 1

-- A rollback now would give back the host and HTTPS ports that were in use at the start.
record Undoes (start : PortAllocator) (w : Work) : Type 0 where
  cursors : Cursors w.alloc
  hosts :
      (q : ℕ)
      → (if holds_host q w.reservations then false else w.alloc.used_host q) ≡ start.used_host q
  https_ports :
      (q : ℕ)
      → (if holds_https q w.reservations then false else w.alloc.used_https q) ≡ start.used_https q

-- The predicate on both ends of a part that returns.
abbrev OnReturn : (Work → Type 0) → Outcome → Type 0
OnReturn P (done w) = P w
OnReturn P (failed w) = P w
OnReturn P stuck = Unit

OnReturn-bind :
    (P : Work → Type 0) (o : Outcome) (f : Work → Outcome)
    → OnReturn P o
    → ((w : Work) → P w → OnReturn P (f w))
    → OnReturn P (o >>= f)
OnReturn-bind P (done w) f p k = k w p
OnReturn-bind P (failed w) f p k = p
OnReturn-bind P stuck f p k = tt

-- A change of the VPN's ranges, and a reservation that is neither a host nor an HTTPS port.
Undoes-SamePorts :
    (start : PortAllocator) (w : Work) (b : PortAllocator) (rs : List Reservation)
    → ((q : ℕ) → holds_host q rs ≡ holds_host q w.reservations)
    → ((q : ℕ) → holds_https q rs ≡ holds_https q w.reservations)
    → SamePorts b w.alloc
    → Undoes start w
    → (info : PortsInfo) → Undoes start (record { alloc = b; reservations = rs; info = info })
Undoes-SamePorts start w b rs eh es s u info = record {
  cursors = ground (arith, s, u.cursors);
  hosts = λ q. rw (eh q, s.used_host) (u.hosts q);
  https_ports = λ q. rw (es q, s.used_https) (u.https_ports q);
}

-- The two ends of `AllocHost`.
pub data Hosted (a : PortAllocator) : PortAllocator × Option ℕ → Type 0 where
  none_free : Hosted a (a, none)
  taken :
      (p : ℕ)
      → a.host_min ≤ p
      → p ≤ a.host_max
      → a.used_host p ≡ false
      → Hosted a (record a { used_host = add p a.used_host; host_next = p + 1 }, some p)

pub alloc_host-Hosted : (a : PortAllocator) → Cursors a → Hosted a (alloc_host a)
unfolding alloc_host
alloc_host-Hosted a c = go (next_in a.host_next a.host_min a.host_max a.used_host) refl
  where
    go :
        (o : Option ℕ)
        → next_in a.host_next a.host_min a.host_max a.used_host ≡ o
        → Hosted a (alloc_host a)
    go none e = rw (e, alloc_host) none_free
    go (some p) e =
        let s =
          next_in_sound a.host_next a.host_min a.host_max a.used_host c.host_low c.host_high e in
        rw (e, alloc_host) (taken p s.0 s.1 s.2)

put_host-Undoes :
    (start : PortAllocator) (w : Work) (put : ℕ → PortsInfo) {o : PortAllocator × Option ℕ}
    → Undoes start w
    → Hosted w.alloc o
    → OnReturn (Undoes start) (put_host w put o)
unfolding put_host
put_host-Undoes start w put u none_free = u
put_host-Undoes start w put u (taken p l h f) = record {
  cursors = ground (arith, u.cursors);
  hosts = λ q. ground (arith, u.hosts q, u.hosts p);
  https_ports = u.https_ports;
}

take_host-Undoes :
    (start : PortAllocator) (w : Work) (put : ℕ → PortsInfo)
    → Undoes start w
    → OnReturn (Undoes start) (take_host w put)
unfolding take_host
take_host-Undoes start w put u = put_host-Undoes start w put u (alloc_host-Hosted w.alloc u.cursors)

put_gluetun-Undoes :
    (start : PortAllocator) (r : Request) (w : Work) (put : ℕ → PortsInfo) (a : PortAllocator)
    (port : Option ℕ)
    → SamePorts a w.alloc
    → Undoes start w
    → OnReturn (Undoes start) (put_gluetun r w put (a, port))
unfolding put_gluetun
put_gluetun-Undoes start r w put a none s u =
    Undoes-SamePorts start w a w.reservations (λ q. refl) (λ q. refl) s u w.info
put_gluetun-Undoes start r w put a (some p) s u =
    Undoes-SamePorts start w a (gluetun p r.vpn_container ∷ w.reservations) (λ q. refl) (λ q. refl)
      s u (put p)

take_gluetun-Undoes :
    (start : PortAllocator) (r : Request) (w : Work) (put : ℕ → PortsInfo)
    → Undoes start w
    → OnReturn (Undoes start) (take_gluetun r w put)
unfolding take_gluetun
take_gluetun-Undoes start r w put u =
    put_gluetun-Undoes start r w put (alloc_in_range r.vpn_container w.alloc).0
      (alloc_in_range r.vpn_container w.alloc).1 (alloc_in_range-SamePorts r.vpn_container w.alloc)
      u

use_gluetun_port-Undoes :
    (start : PortAllocator) (r : Request) (p : ℕ) (w : Work)
    → Undoes start w
    → Undoes start (use_gluetun_port r p w)
unfolding use_gluetun_port
use_gluetun_port-Undoes start r p w u =
    Undoes-SamePorts start w (mark_gluetun p r.vpn_container w.alloc)
      (gluetun p r.vpn_container ∷ w.reservations) (λ q. refl) (λ q. refl)
      (mark_gluetun-SamePorts p r.vpn_container w.alloc) u w.info

use_http-Undoes :
    (start : PortAllocator) (p : ℕ) (w : Work) → Undoes start w → Undoes start (use_http p w)
unfolding use_http reserve_http
use_http-Undoes start p w u = record {
  cursors = ground (arith, u.cursors);
  hosts = u.hosts;
  https_ports = u.https_ports;
}

info-Undoes :
    (start : PortAllocator) (w : Work) (info : PortsInfo)
    → Undoes start w
    → Undoes start (record w { info = info })
info-Undoes start w info u = record {
  cursors = u.cursors;
  hosts = u.hosts;
  https_ports = u.https_ports;
}

same_http-Undoes :
    (start : PortAllocator) (w : Work) → Undoes start w → OnReturn (Undoes start) (same_http w)
unfolding same_http
same_http-Undoes start w u = use_http-Undoes start w.info.host_http_port _ (info-Undoes start w _ u)

OnReturn-if :
    (P : Work → Type 0) (b : Bool) (x y : Outcome)
    → OnReturn P x
    → OnReturn P y
    → OnReturn P (if b then x else y)
OnReturn-if P true x y p q = p
OnReturn-if P false x y p q = q

http_part-Undoes :
    (start : PortAllocator) (r : Request) (w : Work)
    → Undoes start w
    → OnReturn (Undoes start) (http_part r w)
unfolding http_part
http_part-Undoes start r w u =
    OnReturn-if (Undoes start) (not (r.user_http_port == 0)) _ _
      (OnReturn-if (Undoes start) r.use_gluetun _ _
        (use_gluetun_port-Undoes start r r.user_http_port _ (info-Undoes start w _ u))
        (use_http-Undoes start r.user_http_port _ (info-Undoes start w _ u)))
      (OnReturn-if (Undoes start) r.use_gluetun _ _ (take_gluetun-Undoes start r w _ u) (
        OnReturn-if (Undoes start) (not (r.requested_host_port == 0)) _ _
          (same_http-Undoes start (record w { info = requested }) (info-Undoes start w requested u))
          (OnReturn-bind (Undoes start) _ same_http (take_host-Undoes start w _ u)
            (same_http-Undoes start))))
  where
    requested : PortsInfo
    requested = record (w.info) { host_http_port = r.requested_host_port }

https_result-Undoes :
    (start : PortAllocator) (w : Work) (accept : ℕ → Bool) {o : PortAllocator × Search}
    → Undoes start w
    → Searched accept w.alloc o
    → OnReturn (Undoes start) (https_result w o)
unfolding https_result take_https
https_result-Undoes start w accept u (got p n f g) = record {
  cursors = ground (arith, u.cursors);
  hosts = u.hosts;
  https_ports = λ q. ground (arith, u.https_ports q, u.https_ports p);
}
https_result-Undoes start w accept u (full n l h) = record {
  cursors = ground (arith, u.cursors);
  hosts = u.hosts;
  https_ports = u.https_ports;
}
https_result-Undoes start w accept u (spun n) = tt

-- The last two parts keep the property for a request without a port of its own for them.
https_part-Undoes :
    (start : PortAllocator) (fuel : ℕ) (r : Request) (w : Work)
    → r.user_https_port ≡ 0
    → Undoes start w
    → OnReturn (Undoes start) (https_part fuel r w)
unfolding https_part
https_part-Undoes start fuel r w z u =
    rw (z, https_part)
      (https_result-Undoes start w (λ p. not (p == w.info.container_http_port)) u
        (search_https-Searched (λ p. not (p == w.info.container_http_port)) fuel w.alloc
          (record { low = u.cursors.https_low; high = u.cursors.https_high })))

api_part-Undoes :
    (start : PortAllocator) (r : Request) (w : Work)
    → r.user_api_port ≡ 0
    → Undoes start w
    → OnReturn (Undoes start) (api_part r w)
unfolding api_part
api_part-Undoes start r w z u =
    rw (z, api_part)
      (OnReturn-if (Undoes start) r.use_gluetun _ _ (take_gluetun-Undoes start r w _ u)
        (take_host-Undoes start w _ u))

map_part-Undoes :
    (start : PortAllocator) (r : Request) (w : Work)
    → Undoes start w
    → OnReturn (Undoes start) (map_part r w)
unfolding map_part
map_part-Undoes start r w u =
    OnReturn-if (Undoes start) (not r.use_gluetun && r.map_https) _ _ (take_host-Undoes start w _ u)
      u

run_parts-Undoes :
    (fuel : ℕ) (r : Request) (a : PortAllocator)
    → r.user_https_port ≡ 0
    → r.user_api_port ≡ 0
    → Cursors a
    → OnReturn (Undoes a) (run_parts fuel r a)
unfolding run_parts
run_parts-Undoes fuel r a zs za c =
    OnReturn-bind (Undoes a) _ (map_part r)
      (OnReturn-bind (Undoes a) _ (api_part r)
        (OnReturn-bind (Undoes a) _ (https_part fuel r)
          (http_part-Undoes a r _ (fresh (ensure_vpn_range_assigned-SamePorts r.vpn_container a)))
          (λ w. https_part-Undoes a fuel r w zs))
        (λ w. api_part-Undoes a r w za))
      (λ w. map_part-Undoes a r w)
  where
    fresh :
        {b : PortAllocator}
        → SamePorts b a
        → Undoes a (record { alloc = b; reservations = []; info = no_ports })
    fresh s = record {
      cursors = ground (arith, s, c);
      hosts = λ q. rw s.used_host refl;
      https_ports = λ q. rw s.used_https refl;
    }

finish-Undoes :
    (a : PortAllocator) (o : Outcome)
    → OnReturn (Undoes a) o
    → (finish a o).1 ≡ no_free_ports
    → (q : ℕ)
    → ((finish a o).0.used_host q ≡ a.used_host q) × ((finish a o).0.used_https q ≡ a.used_https q)
unfolding finish
finish-Undoes a (done w) u e q = absurd (cc)
finish-Undoes a (failed w) u e q = (
  used_host-rollback q w.reservations w.alloc ∙ u.hosts q,
  used_https-rollback q w.reservations w.alloc ∙ u.https_ports q,
)
finish-Undoes a stuck u e q = absurd (cc)

-- When `AllocateEnginePorts` fails, for want of a free port in any of the ranges, the host ports
-- and the HTTPS ports in use are exactly those of before, for a request that asks for no HTTPS
-- and no API port of its own (with or without a VPN, a requested host port and an HTTP port).
pub allocate_engine_ports_failed :
    (fuel : ℕ) (r : Request) (a : PortAllocator) (q : ℕ)
    → r.user_https_port ≡ 0
    → r.user_api_port ≡ 0
    → Cursors a
    → (allocate_engine_ports fuel r a).1 ≡ no_free_ports
    → ((allocate_engine_ports fuel r a).0.used_host q ≡ a.used_host q)
      × ((allocate_engine_ports fuel r a).0.used_https q ≡ a.used_https q)
unfolding allocate_engine_ports
allocate_engine_ports_failed fuel r a q zs za c e =
    finish-Undoes a (run_parts fuel r a) (run_parts-Undoes fuel r a zs za c) e q
