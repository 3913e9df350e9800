-- ===== src/Provision/Command.antt =====
-- provisioner.go: the texts of a container: its image, name, command line and memory limit. Go's
-- `int` is not negative here; the ports and settings that are printed have at most 19 digits.
use Prim.Native.String.{◌++◌ as append, len, slice}
use acestream_orchestrator.Prelude.{
  ℕ, ◌-◌, ◌*◌, ◌%◌, ◌^◌, Bool, not, Option, none, some, List, [], ◌∷◌, ◌++◌, if◌then◌else◌, ltb,
  String, str_eq,
}
use acestream_orchestrator.Prelude.Digits.{itoa}
use acestream_orchestrator.State.{Store}
use acestream_orchestrator.State.Scaling.{get_next_engine_index}
use acestream_orchestrator.Provision.{EngineConfig}

unfoldable pub detect_platform : String → String
detect_platform arch =
    if str_eq arch "arm64" then "arm64" else if str_eq arch "arm" then "arm32" else "x86_64"

unfoldable pub resolve_engine_image : String → EngineConfig → String
unfolding detect_platform
resolve_engine_image arch cfg =
    let platform = detect_platform arch in
    if not (str_eq cfg.engine_variant "")
    then cfg.engine_variant
    else if str_eq platform "arm64"
    then "ghcr.io/krinkuto11/acestream:latest-arm64"
    else if str_eq platform "arm32"
    then "ghcr.io/krinkuto11/acestream:latest-arm64"
    else "ghcr.io/krinkuto11/acestream:latest-amd64"

-- A flag with a number that is given only when it is positive.
abbrev pub flag : String → ℕ → List String
flag name n = if ltb 0 n then name ∷ itoa n ∷ [] else []

unfoldable pub cache_flags : String → List String
cache_flags cache_type =
    if str_eq cache_type ""
    then []
    else "--live-cache-type"
      ∷ cache_type
      ∷ (if str_eq cache_type "memory" then "--live-mem-cache-size" ∷ "104857600" ∷ [] else [])

unfoldable pub build_command : ℕ → ℕ → ℕ → EngineConfig → List String
build_command http_port api_port p2p_port cfg =
    ("python"
      ∷ "main.py"
      ∷ "--http-port"
      ∷ itoa http_port
      ∷ "--api-port"
      ∷ itoa api_port
      ∷ "--bind-all"
      ∷ "--disable-sentry"
      ∷ "--log-stdout"
      ∷ "--disable-upnp"
      ∷ [])
    ++ (flag "--port" p2p_port
        ++ (flag "--max-download-speed" cfg.engine_max_download_rate
            ++ (flag "--max-upload-speed" cfg.engine_max_upload_rate
                ++ (cache_flags cfg.engine_live_cache_type
                    ++ flag "--live-buffer" cfg.engine_buffer_time))))

abbrev pub min8 : ℕ → ℕ
min8 n = if ltb n 8 then n else 8

unfoldable pub generate_container_name : String → String → Store → String × Store
generate_container_name hostname prefix s =
    let (index, t) = get_next_engine_index s in
    let base = append prefix (append "-" (slice hostname 0 (min8 (len hostname)))) in
    (append base (append "-" (itoa index)), t)

-- `strings.HasSuffix` and the text without its last byte.
abbrev pub has_suffix : String → String → Bool
has_suffix s suffix = str_eq (slice s (len s - len suffix) (len s)) suffix

abbrev pub without_last : String → String
without_last s = slice s 0 (len s - 1)

-- An `int64` in two's complement: the product wraps around. `parse_int` is `strconv.ParseInt`
-- and `canonical` is `TrimSpace` after `ToUpper`.
abbrev pub multiplied : ℕ → Option ℕ → Option ℕ
multiplied multiplier none = none
multiplied multiplier (some n) = some (n * multiplier % 2 ^ 64)

unfoldable pub parse_memory : (String → String) → (String → Option ℕ) → String → Option ℕ
parse_memory canonical parse_int text =
    let s = canonical text in
    if has_suffix s "G"
    then multiplied (2 ^ 30) (parse_int (without_last s))
    else if has_suffix s "M"
    then multiplied (2 ^ 20) (parse_int (without_last s))
    else if has_suffix s "K"
    then multiplied (2 ^ 10) (parse_int (without_last s))
    else multiplied 1 (parse_int s)
