-- ===== src/AirVpn/Tests.antt =====
-- The theorem on the pool at a concrete input.
use acestream_orchestrator.Prelude.{◌≡◌, refl, some, List, [], ◌∷◌, String}
use acestream_orchestrator.Prelude.Maps.{lookup, insert, delete}
use acestream_orchestrator.AirVpn.{
  new_air_vpn_port_pool, rebuild, union, is_seen, evict_each, acquire_port, free_port, holder,
}
use acestream_orchestrator.AirVpn.Laws.{PoolCall, rebuilds, acquires, run, run-one_holder}

abbrev calls : List PoolCall
calls = rebuilds (7 ∷ 8 ∷ 7 ∷ []) ∷ acquires "a" ∷ acquires "b" ∷ []

abbrev second : String
second = "b"

second_port : lookup "b" (run calls new_air_vpn_port_pool).by_cont ≡ some 8
unfolding lookup insert delete new_air_vpn_port_pool rebuild union is_seen evict_each acquire_port
    free_port holder
second_port = refl

run-one_holder_example : second ≡ second
run-one_holder_example = run-one_holder calls second second 8 second_port second_port
