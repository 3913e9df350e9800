-- ===== src/Controller/Intents/Starved.antt =====
-- Queued create intents that find the breaker open: each of them counts as a failure.
use acestream_orchestrator.Prelude.{
  ℕ, ◌+◌, ◌≤◌, ◌≡◌, refl, ap, ◌∙◌, Bool, false, Option, some, List, [], ◌∷◌, length, replicate,
  String, and_then,
}
use acestream_orchestrator.Breaker.Manager.Open.{
  IsOpenSince, can_provision_refused, record_failure_open,
}
use acestream_orchestrator.State.{Store}
use acestream_orchestrator.State.Scaling.{remove_intent}
use acestream_orchestrator.Controller.Intents.{
  create, Plane, with_manager, on_store, finish_create, execute_intent,
}

-- What a refused intent leaves: it is out of the store, and the breaker's timeout starts again.
pub record IsRefused (now timeout : ℕ) (id : String) (p next : Plane) : Type 0 where
  pub dropped : next.store ≡ remove_intent id p.store
  pub still_open : IsOpenSince now timeout next.controller.cb

pub execute_intent-IsRefused :
    (t timeout now : ℕ) (ok : Bool) (id name : String) (p : Plane)
    → IsOpenSince t timeout p.controller.cb
    → now ≤ t + timeout
    → (next : Plane) × (execute_intent now ok (record { id = id; action = create name }) p
        ≡ some (false, next))
      × IsRefused now timeout id p next
unfolding execute_intent and_then
execute_intent-IsRefused t timeout now ok id name p o h =
    let (m, e, waits) = can_provision_refused t timeout now p.controller.cb o h in
    let (failed, f, again) = record_failure_open t timeout now m waits in
    (
      with_manager failed (on_store (remove_intent id) p),
      rw (e, and_then) (rw (f, finish_create) refl),
      record { dropped = refl; still_open = again },
    )

removed_intent :
    (id : String) (s : Store)
    → ((remove_intent id s).vpn_pending ≡ s.vpn_pending)
      × ((remove_intent id s).forwarded_pending ≡ s.forwarded_pending)
unfolding remove_intent
removed_intent id s = (refl, refl)

-- One attempt: when, whether the container would start, the intent's ID and the engine's name.
abbrev pub Attempt : Type 0
Attempt = ℕ × Bool × String × String

-- Each comes within the timeout of the one before.
abbrev pub Frequent : ℕ → ℕ → List Attempt → Type 0
Frequent t timeout [] = Unit {0}
Frequent t timeout ((now, ok, id, name) ∷ attempts) =
    (now ≤ t + timeout) × Frequent now timeout attempts

-- The attempts, one after the other, with what each returned.
unfoldable pub execute_each : List Attempt → Plane → Option (List Bool × Plane)
execute_each [] p = some ([], p)
execute_each ((now, ok, id, name) ∷ attempts) p =
    and_then (execute_intent now ok (record { id = id; action = create name }) p)
      (λ r. and_then (execute_each attempts r.1) (λ rest. some (r.0 ∷ rest.0, rest.1)))

-- When the last of the attempts came, or `t` without one.
abbrev pub last_attempt : ℕ → List Attempt → ℕ
last_attempt t [] = t
last_attempt t ((now, ok, id, name) ∷ attempts) = last_attempt now attempts

-- What attempts leave that an open breaker refuses: all of them return an error, the timeout runs
-- from the last of them, and the places that were reserved for their engines, on VPN nodes and as
-- forwarded engines, are reserved still.
abbrev pub IsBlocked : ℕ → ℕ → List Attempt → Plane → Option (List Bool × Plane) → Type 0
IsBlocked t timeout attempts p result =
    (next : Plane) × (result ≡ some (replicate (length attempts) false, next))
    × IsOpenSince (last_attempt t attempts) timeout next.controller.cb
    × (next.store.vpn_pending ≡ p.store.vpn_pending)
    × (next.store.forwarded_pending ≡ p.store.forwarded_pending)

-- Create intents that were queued when the breaker opened, and that are carried out within its
-- recovery timeout, each of them within the timeout after the one before: all are refused, each
-- starts the timeout anew, and none of the refusals gives back the place on a VPN node and the
-- forwarded slot that its plan has reserved.
pub execute_each-IsBlocked :
    (t timeout : ℕ) (attempts : List Attempt) (p : Plane)
    → IsOpenSince t timeout p.controller.cb
    → Frequent t timeout attempts
    → IsBlocked t timeout attempts p (execute_each attempts p)
unfolding execute_each and_then
execute_each-IsBlocked t timeout [] p o f = (p, refl, o, refl, refl)
execute_each-IsBlocked t timeout ((now, ok, id, name) ∷ attempts) p o f =
    let (next, e, refused) = execute_intent-IsRefused t timeout now ok id name p o f.0 in
    let (last, rest, still, places, slots) =
      execute_each-IsBlocked now timeout attempts next refused.still_open f.1 in
    let kept = removed_intent id p.store in
    (
      last,
      rw (e, and_then) (rw (rest, and_then) refl),
      still,
      places ∙ ap (λ s. s.vpn_pending) refused.dropped ∙ kept.0,
      slots ∙ ap (λ s. s.forwarded_pending) refused.dropped ∙ kept.1,
    )
