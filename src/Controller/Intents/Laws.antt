-- ===== src/Controller/Intents/Laws.antt =====
-- How many intents a round adds, and what the workers tell the breaker.
use acestream_orchestrator.Prelude.{
  ℕ, zero, suc, ◌+◌, ◌-◌, ◌≤◌, ◌≡◌, refl, Bool, true, false, List, [], ◌∷◌, ◌++◌, length, arith,
  String, str_eq,
}
use acestream_orchestrator.State.{ScalingIntent, list_engines}
use acestream_orchestrator.State.Scaling.{add_intent, creating}
use acestream_orchestrator.Controller.{Config}
use acestream_orchestrator.Controller.Intents.{
  Plane, add_placeholder, add_placeholders, create_count, scale_up,
}

creating-append :
    (intents : List ScalingIntent) (it : ScalingIntent)
    → str_eq it.action "create" ≡ true
    → creating (intents ++ (it ∷ [])) ≡ suc (creating intents)
unfolding creating
creating-append [] it h = ground (arith, h)
creating-append (i ∷ intents) it h = ground (arith, creating-append intents it h)

creating-add_placeholders :
    (intent_id : ℕ → String) (n : ℕ) (p : Plane)
    → (creating (add_placeholders intent_id n p).store.intents ≡ creating p.store.intents + n)
      × ((add_placeholders intent_id n p).store.engines ≡ p.store.engines)
unfolding add_placeholders add_placeholder add_intent
creating-add_placeholders intent_id zero p = (omega arith, refl)
creating-add_placeholders intent_id (suc n) p =
    let placeholder : ScalingIntent = record {
      id = intent_id (p.controller.int_seq + 1);
      action = "create";
      status = "scheduling";
      details = [];
    } in
    let rest = creating-add_placeholders intent_id n (add_placeholder intent_id p) in
    (omega (arith, rest.0, creating-append p.store.intents placeholder refl), rest.1)

-- A round that scales up by the deficit between the target and the engines that there are or will
-- be: afterwards these are at most as many as the target, if they were before; the new intents and
-- the engines of the store are together at most the configured maximum, if the engines were; and
-- no intent is added when no node can take an engine.
pub scale_up_bounds :
    (cfg : Config) (intent_id : ℕ → String) (schedulable : Bool) (desired active : ℕ) (p : Plane)
    → active + creating p.store.intents ≤ desired
    → length (list_engines p.store.engines) ≤ cfg.max_replicas
    → let before = creating p.store.intents in
      let after =
        creating
          (scale_up cfg intent_id schedulable (desired - (active + before)) p).store.intents in
      (active + after ≤ desired)
      × (length (list_engines p.store.engines) + (after - before) ≤ cfg.max_replicas)
      × (schedulable ≡ false → after ≡ before)
unfolding scale_up
scale_up_bounds cfg intent_id false desired active p h m = (h, omega (arith, m), λ blocked. refl)
scale_up_bounds cfg intent_id true desired active p h m =
    let deficit = desired - (active + creating p.store.intents) in
    let n = create_count cfg deficit p.store in
    let grown = (creating-add_placeholders intent_id n p).0 in
    (ground (arith, grown, h, m), ground (arith, grown, h, m), λ blocked. ground (arith, blocked))
