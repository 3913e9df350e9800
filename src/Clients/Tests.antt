-- ===== src/Clients/Tests.antt =====
-- The clients of a stream at concrete calls.
use acestream_orchestrator.Prelude.{◌+◌, ◌≤◌, ◌≡◌, refl, false, List, [], ◌∷◌, arith}
use acestream_orchestrator.Prelude.Maps.{lookup, insert}
use acestream_orchestrator.Clients.{
  ClientManager, new_client_manager, local_count, add_client, heartbeat_hls_client,
}
use acestream_orchestrator.Clients.Laws.{
  ClientCall, adds, beats, buffers, evicts, run, hls_beats, run_count,
  heartbeat_hls_client-add_client,
}

abbrev calls : List ClientCall
calls =
    adds 1 "a" "10.0.0.1" "vlc" 0
    ∷ beats 2 "b" "10.0.0.2" "hls.js" 100
    ∷ buffers false
    ∷ evicts 90 10 30
    ∷ []

run_count_example : local_count (run 1 calls new_client_manager) ≤ 1 + hls_beats calls
run_count_example = run_count 1 calls

-- A stream whose one place is taken.
abbrev full : ClientManager
full = (add_client 1 1 "a" "10.0.0.1" "vlc" 0 new_client_manager).1

heartbeat_hls_client-add_client_example :
    (local_count (heartbeat_hls_client 2 "b" "10.0.0.2" "hls.js" 100 full) ≡ local_count full + 1)
    × (add_client 1 2 "b" "10.0.0.2" "hls.js" 0 full ≡ (false, full))
unfolding add_client new_client_manager local_count lookup insert
heartbeat_hls_client-add_client_example =
    heartbeat_hls_client-add_client 1 2 "b" "10.0.0.2" "hls.js" 100 0 full refl (omega arith)
