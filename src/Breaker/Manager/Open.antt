-- ===== src/Breaker/Manager/Open.antt =====
-- A manager whose general breaker is open.
use acestream_orchestrator.Prelude.{ℕ, ◌+◌, ◌≤◌, ◌≡◌, refl, false, some, arith}
use acestream_orchestrator.Prelude.Maps.{lookup, lookup-insert}
use acestream_orchestrator.Breaker
use acestream_orchestrator.Breaker.{Breaker, opened}
use acestream_orchestrator.Breaker.Manager.{
  Manager, resolve, choose, can_provision, record_failure, update, store,
}

-- The general breaker is open since a failure at `t`, with this timeout.
pub record IsOpenSince (t timeout : ℕ) (m : Manager) : Type 0 where
  pub breaker : Breaker
  pub kept : lookup "general" m.breakers ≡ some breaker
  pub is_opened : breaker.state ≡ opened
  pub failed : breaker.last_failure_time ≡ some t
  pub waits : breaker.recovery_timeout ≡ timeout

resolve-general :
    (t timeout : ℕ) (m : Manager) (o : IsOpenSince t timeout m)
    → resolve "general" m ≡ some ("general", o.breaker)
unfolding resolve
resolve-general t timeout m o = rw (o.kept, choose) refl

can_execute_refused :
    (t timeout now : ℕ) (b : Breaker)
    → b.state ≡ opened
    → b.last_failure_time ≡ some t
    → b.recovery_timeout ≡ timeout
    → now ≤ t + timeout
    → Breaker.can_execute now b ≡ (b, false)
unfolding Breaker.can_execute
can_execute_refused t timeout now b s f w h = ground (arith, s, f, w, h)

-- Within the timeout it refuses, and stays as it is.
pub can_provision_refused :
    (t timeout now : ℕ) (m : Manager)
    → IsOpenSince t timeout m
    → now ≤ t + timeout
    → (next : Manager) × (can_provision now "general" m ≡ some (next, false))
      × IsOpenSince t timeout next
unfolding can_provision store
can_provision_refused t timeout now m o h =
    let refused = can_execute_refused t timeout now o.breaker o.is_opened o.failed o.waits h in
    (
      store "general" o.breaker m,
      rw (resolve-general t timeout m o, can_provision) (rw refused refl),
      record {
        breaker = o.breaker;
        kept = lookup-insert "general" "general" o.breaker m.breakers;
        is_opened = o.is_opened;
        failed = o.failed;
        waits = o.waits;
      },
    )

-- A failure is its last failure from then on.
pub record_failure_open :
    (t timeout now : ℕ) (m : Manager)
    → IsOpenSince t timeout m
    → (next : Manager) × (record_failure now "general" m ≡ some next) × IsOpenSince now timeout next
unfolding record_failure update Breaker.record_failure
record_failure_open t timeout now m o =
    let failed = Breaker.record_failure now o.breaker in
    (
      update "general" failed m,
      rw (resolve-general t timeout m o, record_failure) refl,
      record {
        breaker = failed;
        kept = lookup-insert "general" "general" failed m.breakers;
        is_opened = ground (arith, o.is_opened);
        failed = ground (arith, o.is_opened);
        waits = ground (arith, o.is_opened, o.waits);
      },
    )
