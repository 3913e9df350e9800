-- ===== src/Provision/Execute.antt =====
-- provisioner.go: `ExecuteSpec` has Docker create and start the container of a plan. Docker is an
-- interface, whose state passes through the calls.
pub mod Laws
use Prim.Native.String.{find, len}
use acestream_orchestrator.Prelude.{
  ℕ, Bool, true, false, ◌||◌, not, Option, none, some, List, [], ◌∷◌, if◌then◌else◌, ltb, leb,
  String, str_eq,
}
use acestream_orchestrator.Prelude.Maps.{Map}
use acestream_orchestrator.Provision.{World, EngineSpec}
use acestream_orchestrator.Prelude.Digits.{itoa}
use acestream_orchestrator.Provision.Command.{parse_memory}
use acestream_orchestrator.Provision.Schedule.{release_spec}

-- A binding of a port of a container to a port of every address of the host.
pub record PortBinding : Type 0 where
  pub host_ip : String
  pub host_port : String

unfoldable pub build_port_bindings : Map ℕ → Map (List PortBinding)
build_port_bindings [] = []
build_port_bindings ((container_port, host_port) ∷ ports) =
    (container_port, (record { host_ip = "0.0.0.0"; host_port = itoa host_port }) ∷ [])
    ∷ build_port_bindings ports

-- What is asked of Docker. A memory of 0 is no limit.
pub record CreateRequest : Type 0 where
  pub name : String
  pub image : String
  pub command : List String
  pub labels : Map String
  pub network_mode : String
  pub auto_remove : Bool
  pub init : Bool
  pub memory : ℕ
  pub port_bindings : Map (List PortBinding)

-- A line of the answer to a pull, with its error, or one that is no JSON.
pub data PullLine : Type 0 where
  message : String → PullLine
  garbled : PullLine

pub data Created : Type 0 where
  created : String → Created
  create_failed : String → Created

-- The calls of the client. `connect` makes the client; `image_list` counts the images of a name.
pub record Docker (D : Type 0) : Type 0 where
  pub connect : D → Bool × D
  pub image_list : String → D → Option ℕ × D
  pub image_pull : String → D → Option (List PullLine) × D
  pub container_create : CreateRequest → D → Created × D
  pub container_remove : String → D → D
  pub container_start : String → D → Bool × D

pub data ExecuteError : Type 0 where
  no_client : ExecuteError
  no_image : ExecuteError
  not_created : String → ExecuteError
  not_started : ExecuteError

pub data Executed : Type 0 where
  running_as : String → Executed
  stopped_by : ExecuteError → Executed

-- The loop over the answer to a pull: the end of the stream is the success.
unfoldable pub pull_ends : List PullLine → Bool
pull_ends [] = true
pull_ends (garbled ∷ lines) = false
pull_ends (message error ∷ lines) =
    let rest = pull_ends lines in if not (str_eq error "") then false else rest

-- `strings.Contains`.
abbrev pub has_text : String → String → Bool
has_text s text = leb (find s text) (len s)

-- The name is still taken by a container that goes away.
unfoldable pub is_conflict : String → Bool
is_conflict error = has_text error "already in use" || has_text error "Conflict"

abbrev pub memory_of : Option ℕ → ℕ
memory_of none = 0
memory_of (some n) = n

unfoldable pub create_request : (String → String) → (String → Option ℕ) → EngineSpec → CreateRequest
create_request canonical parse_int spec = record {
  name = spec.container_name;
  image = spec.image;
  command = spec.command;
  labels = spec.labels;
  network_mode = spec.network_mode;
  auto_remove = true;
  init = true;
  memory =
      if str_eq spec.mem_limit ""
      then 0
      else memory_of (parse_memory canonical parse_int spec.mem_limit);
  port_bindings = build_port_bindings spec.ports;
}

module _ {D : Type 0} (docker : Docker D) where
  abbrev pub pulled : Option (List PullLine) × D → Bool × D
  pulled (none, d) = (false, d)
  pulled (some lines, d) = (pull_ends lines, d)

  abbrev pub image_listed : String → Option ℕ × D → Bool × D
  image_listed image (none, d) = (false, d)
  image_listed image (some n, d) = if ltb 0 n then (true, d) else pulled (docker.image_pull image d)

  -- Whether the image is there in the end.
  unfoldable pub ensure_image : String → D → Bool × D
  ensure_image image d = image_listed image (docker.image_list image d)

  abbrev pub retry : CreateRequest → Created × D → Created × D
  retry r (created id, d) = (created id, d)
  retry r (create_failed error, d) =
      if is_conflict error
      then docker.container_create r (docker.container_remove r.name d)
      else (create_failed error, d)

  -- The creation, once more after a conflict.
  unfoldable pub create_container : CreateRequest → D → Created × D
  create_container r d = retry r (docker.container_create r d)

  module _ (scan : String → ℕ) (spec : EngineSpec) where
    abbrev pub fail : ExecuteError → World → D → Executed × World × D
    fail error w d = (stopped_by error, release_spec scan spec w, d)

    abbrev pub start_created : World → Created × D → Executed × World × D
    start_created w (create_failed error, d) = fail (not_created error) w d
    start_created w (created id, d) =
        let (started, e) = docker.container_start id d in
        if started then (running_as id, w, e) else fail not_started w (docker.container_remove id e)

    -- The error of the client is returned without a call of `ReleaseSpec`.
    unfoldable pub execute_spec :
        (String → String) → (String → Option ℕ) → World → D → Executed × World × D
    execute_spec canonical parse_int w d =
        let (connected, c) = docker.connect d in
        let (there, e) = ensure_image spec.image c in
        if not connected
        then (stopped_by no_client, w, c)
        else if not there
        then fail no_image w e
        else start_created w (create_container (create_request canonical parse_int spec) e)
