-- ===== src/Clients/Laws.antt =====
-- How many clients a stream has.
use acestream_orchestrator.Prelude.{
  ℕ, ◌+◌, ◌*◌, ◌≤◌, ◌⊎◌, ◌≡◌, refl, Bool, true, false, Option, none, some, List, [], ◌∷◌,
  if◌then◌else◌, leb, length, String, arith, Bool-cases, inl, inr, ◌∙◌,
}
use acestream_orchestrator.Prelude.Maps.{Map, lookup, insert, delete}
use acestream_orchestrator.State.{is_some}
use acestream_orchestrator.Clients.{
  ClientRecord, ClientManager, new_client_manager, set_initial_buffering, local_count, add_client,
  remove_client, update_stats, heartbeat_hls_client, without_ghosts, evict_ghosts,
}

length-insert :
    (id : String) (rec : ClientRecord) (clients : Map ClientRecord)
    → length (insert id rec clients)
      ≡ length clients + (if is_some (lookup id clients) then 0 else 1)
unfolding insert lookup
length-insert id rec [] = refl
length-insert id rec ((other, old) ∷ clients) = ground (arith, length-insert id rec clients)

length-delete :
    (id : String) (clients : Map ClientRecord) → length (delete id clients) ≤ length clients
unfolding delete
length-delete id [] = omega arith
length-delete id ((other, old) ∷ clients) = ground (arith, length-delete id clients)

length-without_ghosts :
    (now ts hls : ℕ) (clients : Map ClientRecord)
    → length (without_ghosts now ts hls clients) ≤ length clients
unfolding without_ghosts
length-without_ghosts now ts hls [] = omega arith
length-without_ghosts now ts hls ((id, rec) ∷ clients) =
    ground (arith, length-without_ghosts now ts hls clients)

-- The calls on a manager.
pub data ClientCall : Type 0 where
  buffers : Bool → ClientCall
  adds : ℕ → String → String → String → ℕ → ClientCall
  removes : String → ClientCall
  updates : ℕ → String → ℕ → ℕ → ClientCall
  beats : ℕ → String → String → String → ℕ → ClientCall
  evicts : ℕ → ℕ → ℕ → ClientCall

abbrev pub step : ℕ → ClientCall → ClientManager → ClientManager
step max_clients (buffers v) cm = set_initial_buffering v cm
step max_clients (adds now id ip agent index) cm =
    (add_client max_clients now id ip agent index cm).1
step max_clients (removes id) cm = remove_client id cm
step max_clients (updates now id bytes chunks) cm = update_stats now id bytes chunks cm
step max_clients (beats now id ip agent bytes) cm = heartbeat_hls_client now id ip agent bytes cm
step max_clients (evicts now interval timeout) cm = evict_ghosts now interval timeout cm

abbrev pub run : ℕ → List ClientCall → ClientManager → ClientManager
run max_clients [] cm = cm
run max_clients (c ∷ calls) cm = run max_clients calls (step max_clients c cm)

-- 1 for a heartbeat of an HLS client, and how many of the calls are such.
abbrev pub hls_beat : ClientCall → ℕ
hls_beat (buffers v) = 0
hls_beat (adds now id ip agent index) = 0
hls_beat (removes id) = 0
hls_beat (updates now id bytes chunks) = 0
hls_beat (beats now id ip agent bytes) = 1
hls_beat (evicts now interval timeout) = 0

abbrev pub hls_beats : List ClientCall → ℕ
hls_beats [] = 0
hls_beats (c ∷ calls) = hls_beat c + hls_beats calls

add_client_count :
    (m now : ℕ) (id ip agent : String) (index : ℕ) (cm : ClientManager)
    → ((add_client m now id ip agent index cm).1 ≡ cm)
      ⊎ (local_count (add_client m now id ip agent index cm).1 ≤ m)
unfolding local_count add_client
add_client_count m now id ip agent index cm = elim (Bool-cases (leb m (length cm.clients))) [
  | inl full ↦ rw full (inl refl)
  | inr room ↦ rw room (inr (rw (length-insert id _ cm.clients) (ground (arith, room))))
]

update_stats_count :
    (now : ℕ) (id : String) (bytes chunks : ℕ) (cm : ClientManager)
    → local_count (update_stats now id bytes chunks cm) ≡ local_count cm
unfolding local_count update_stats
update_stats_count now id bytes chunks cm = go (lookup id cm.clients) refl
  where
    go :
        (o : Option ClientRecord)
        → lookup id cm.clients ≡ o
        → local_count (update_stats now id bytes chunks cm) ≡ local_count cm
    go none e = rw (e, update_stats) refl
    go (some rec) e = rw (e, update_stats) (length-insert id _ cm.clients ∙ rw e (omega arith))

heartbeat_hls_client_count :
    (now : ℕ) (id ip agent : String) (bytes : ℕ) (cm : ClientManager)
    → local_count (heartbeat_hls_client now id ip agent bytes cm)
      ≡ local_count cm + (if is_some (lookup id cm.clients) then 0 else 1)
unfolding local_count heartbeat_hls_client
heartbeat_hls_client_count now id ip agent bytes cm = length-insert id _ cm.clients

evict_ghosts_count :
    (now interval timeout : ℕ) (cm : ClientManager)
    → local_count (evict_ghosts now interval timeout cm) ≤ local_count cm
unfolding local_count evict_ghosts
evict_ghosts_count now interval timeout cm =
    ground (arith, length-without_ghosts now (interval * 5) timeout cm.clients)

step_count :
    (m b : ℕ) (c : ClientCall) (cm : ClientManager)
    → m ≤ b
    → local_count cm ≤ b
    → local_count (step m c cm) ≤ hls_beat c + b
unfolding local_count set_initial_buffering remove_client
step_count m b (buffers v) cm l h = omega arith
step_count m b (adds now id ip agent index) cm l h =
    elim (add_client_count m now id ip agent index cm) [
      | inl same ↦ rw same (omega arith)
      | inr most ↦ omega arith
    ]
step_count m b (removes id) cm l h = omega (arith, length-delete id cm.clients)
step_count m b (updates now id bytes chunks) cm l h =
    omega (arith, update_stats_count now id bytes chunks cm)
step_count m b (beats now id ip agent bytes) cm l h =
    ground (arith, heartbeat_hls_client_count now id ip agent bytes cm)
step_count m b (evicts now interval timeout) cm l h =
    omega (arith, evict_ghosts_count now interval timeout cm)

run_from :
    (m b : ℕ) (calls : List ClientCall) (cm : ClientManager)
    → m ≤ b
    → local_count cm ≤ b
    → local_count (run m calls cm) ≤ b + hls_beats calls
run_from m b [] cm l h = omega arith
run_from m b (c ∷ calls) cm l h =
    omega (
      arith,
      run_from m (hls_beat c + b) calls (step m c cm) (omega arith) (step_count m b c cm l h),
    )

-- Whatever is called on a manager without clients, a stream has no more clients than the limit
-- and the number of heartbeats of HLS clients, which are let in without a test of the limit.
pub run_count :
    (max_clients : ℕ) (calls : List ClientCall)
    → local_count (run max_clients calls new_client_manager) ≤ max_clients + hls_beats calls
unfolding new_client_manager local_count
run_count max_clients calls =
    run_from max_clients max_clients calls new_client_manager (omega arith) (omega arith)

-- The heartbeat of an HLS client that is not known makes one client more, even at the limit, where
-- `Add` refuses a client and leaves all as it was.
pub heartbeat_hls_client-add_client :
    (max_clients now : ℕ) (id ip agent : String) (bytes index : ℕ) (cm : ClientManager)
    → lookup id cm.clients ≡ none
    → max_clients ≤ local_count cm
    → (local_count (heartbeat_hls_client now id ip agent bytes cm) ≡ local_count cm + 1)
      × (add_client max_clients now id ip agent index cm ≡ (false, cm))
unfolding local_count add_client
heartbeat_hls_client-add_client m now id ip agent bytes index cm new full =
    (heartbeat_hls_client_count now id ip agent bytes cm ∙ rw new refl, rw (refuses) refl)
  where
    refuses : leb m (length cm.clients) ≡ true
    refuses = ground (arith, full)
