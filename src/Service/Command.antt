-- ===== src/Service/Command.antt =====
-- boxctl/src/service/command.rs: the command lines of the cores, and the CPUs they may run on.
use boxproxy.Prelude.{
  String, ℕ, zero, suc, ◌+◌, ◌-◌, ◌/◌, ◌%◌, ◌^◌, Bool, not, ◌&&◌, Option, none, some, List, [], ◌∷◌,
  ◌==◌, ◌<>◌, if◌then◌else◌, eqb, ltb, leb, ◌≡◌, refl,
}
use Prim.Native.Char.{code}
use boxproxy.Prelude.Text.{trim, is_blank, split, split_once, lines}
use boxproxy.Prelude.Search.{strip_prefix}
use boxproxy.Prelude.Number.{parse, show, hex, u32_max}
use boxproxy.Act.{Result, ok, err}
use boxproxy.Rules.Manager.{Env}
use boxproxy.Service.{CoreFiles}

unfoldable pub core_check_command : String → CoreFiles → String × List String
core_check_command bin_name files =
    let bin = files.bin_path in
    let dir = files.core_dir in
    let file = files.launch_config_path in
    if bin_name == "mihomo"
    then (bin, "-t" ∷ "-d" ∷ dir ∷ "-f" ∷ file ∷ [])
    else if bin_name == "sing-box"
    then (bin, "check" ∷ "-c" ∷ file ∷ "-D" ∷ dir ∷ [])
    else if bin_name == "xray"
    then (bin, "-test" ∷ "-confdir" ∷ dir ∷ [])
    else if bin_name == "v2fly"
    then (bin, "test" ∷ "-d" ∷ dir ∷ [])
    else ("", [])

abbrev run_args : String → String → String → List String
run_args bin_name dir file =
    if bin_name == "mihomo"
    then "-d" ∷ dir ∷ "-f" ∷ file ∷ []
    else if bin_name == "sing-box"
    then "run" ∷ "-c" ∷ file ∷ "-D" ∷ dir ∷ []
    else if bin_name == "xray"
    then "run" ∷ "-confdir" ∷ dir ∷ []
    else if bin_name == "v2fly"
    then "run" ∷ "-d" ∷ dir ∷ []
    else if bin_name == "hysteria"
    then "-c" ∷ file ∷ []
    else []

unfoldable pub core_env : String → CoreFiles → List (String × String)
core_env bin_name files =
    if bin_name == "xray"
    then ("XRAY_LOCATION_ASSET", files.core_dir) ∷ []
    else if bin_name == "v2fly"
    then ("V2RAY_LOCATION_ASSET", files.core_dir) ∷ []
    else []

-- The masks are `u128`.
abbrev mask_bits : ℕ
mask_bits = 128

abbrev has_cpu : ℕ → ℕ → Bool
has_cpu mask cpu = eqb (mask / 2 ^ cpu % 2) 1

-- `mask | 1 << cpu`
abbrev with_cpu : ℕ → ℕ → ℕ
with_cpu mask cpu = if has_cpu mask cpu then mask else mask + 2 ^ cpu

-- `a & b`, from the highest of `n` bits down
abbrev common_cpus : ℕ → ℕ → ℕ → ℕ
common_cpus zero a b = 0
common_cpus (suc n) a b =
    let rest = common_cpus n a b in if has_cpu a n && has_cpu b n then rest + 2 ^ n else rest

abbrev index_of : String → Option ℕ → Result ℕ
index_of value none = err ("invalid CPU index: " <> value)
index_of value (some n) = ok n

unfoldable pub parse_cpu_index : String → Result ℕ
unfolding trim parse
parse_cpu_index value =
    if is_blank (trim value)
    then err "empty CPU index"
    else index_of (trim value) (parse u32_max (trim value))

-- `for cpu in cpu..=cpu + n`
unfoldable pub add_cpus : ℕ → ℕ → ℕ → Result ℕ
unfolding show
add_cpus zero cpu mask =
    if ltb cpu mask_bits
    then ok (with_cpu mask cpu)
    else err ("CPU index out of taskset mask range: " <> show cpu)
add_cpus (suc n) cpu mask =
    let rest = add_cpus n (suc cpu) (with_cpu mask cpu) in
    if ltb cpu mask_bits then rest else err ("CPU index out of taskset mask range: " <> show cpu)

abbrev add_range : String → ℕ → Result ℕ → Result ℕ → Result ℕ
unfolding add_cpus
add_range item mask (err e) _ = err e
add_range item mask (ok start) (err e) = err e
add_range item mask (ok start) (ok end) =
    if leb start end then add_cpus (end - start) start mask else err ("invalid CPU range: " <> item)

abbrev add_ends : String → ℕ → Option (String × String) → Result ℕ
unfolding add_range parse_cpu_index
add_ends item mask none = add_range item mask (parse_cpu_index item) (parse_cpu_index item)
add_ends item mask (some (start, end)) =
    add_range item mask (parse_cpu_index start) (parse_cpu_index end)

unfoldable pub add_items : List String → ℕ → Result ℕ
unfolding add_ends trim split_once
add_items [] mask = ok mask
add_items (item ∷ items) mask =
    if is_blank (trim item)
    then add_items items mask
    else elim (add_ends (trim item) mask (split_once "-" (trim item))) [
      | ok more ↦ add_items items more
      | err e ↦ err e
    ]

abbrev some_cpu : Result ℕ → Result ℕ
some_cpu (ok mask) = if eqb mask 0 then err "empty CPU list" else ok mask
some_cpu (err e) = err e

-- A CPU was added exactly if the mask is not zero.
unfoldable pub cpu_list_to_mask : String → Result ℕ
unfolding add_items split
cpu_list_to_mask list = some_cpu (add_items (split (λ c. eqb (code c) b',') list) 0)

-- `.ok()`
abbrev mask_of : Result ℕ → Option ℕ
mask_of (ok mask) = some mask
mask_of (err _) = none

online_of : Option String → Option ℕ
unfolding cpu_list_to_mask trim
online_of none = none
online_of (some text) = mask_of (cpu_list_to_mask (trim text))

first_mask : List String → Option ℕ
unfolding strip_prefix cpu_list_to_mask trim
first_mask [] = none
first_mask (line ∷ rest) =
    pick (online_of (strip_prefix "Cpus_allowed_list:" line)) (first_mask rest)
  where
    pick : Option ℕ → Option ℕ → Option ℕ
    pick (some mask) later = some mask
    pick none later = later

allowed_of : Option String → Option ℕ
unfolding first_mask lines
allowed_of none = none
allowed_of (some status) = first_mask (lines status)

abbrev common : Option ℕ → Option ℕ → Option ℕ
common (some a) (some b) = some (common_cpus mask_bits a b)
common (some a) none = some a
common none b = b

unfoldable pub constrain_to_available_cpus : Option ℕ → ℕ → String → Result ℕ
unfolding hex
constrain_to_available_cpus none requested cores = ok requested
constrain_to_available_cpus (some available) requested cores =
    let effective = common_cpus mask_bits requested available in
    if eqb effective 0
    then err
        ("requested CPU cores " <> (cores <> (" are outside available CPU mask " <> hex available)))
    else ok effective

-- The range of all CPUs, for the number that `available_parallelism` gives.
abbrev cpu_range : Option ℕ → Option String
unfolding show
cpu_range none = none
cpu_range (some count) = if eqb count 0 then none else some ("0-" <> show (count - 1))

abbrev constrained : Option ℕ → String → Result ℕ → Result String
unfolding constrain_to_available_cpus hex
constrained available cores (err e) = err e
constrained available cores (ok requested) =
    elim (constrain_to_available_cpus available requested cores) [
      | ok mask ↦ ok (hex mask)
      | err e ↦ err e
    ]

abbrev mask_arg : Option ℕ → Option String → Result String
unfolding constrained cpu_list_to_mask
mask_arg available none = err "detect CPU cores failed"
mask_arg available (some cores) = constrained available cores (cpu_list_to_mask cores)

unfoldable pub taskset_mask_arg : Option ℕ → Option ℕ → CoreFiles → Result String
unfolding mask_arg cpu_range trim
taskset_mask_arg available count files =
    mask_arg available
      (if is_blank (trim files.allow_cpu) then cpu_range count else some (trim files.allow_cpu))

module _ {S : Type 0} ⦃E : Env S⦄ where
  first_file : List String → S → String
  first_file [] s = "taskset"
  first_file (path ∷ paths) s =
      let later = first_file paths s in if E.host.is_file path s then path else later

  unfoldable pub taskset_program : S → String
  unfolding first_file
  taskset_program = first_file (
      "/system/bin/taskset" ∷ "/vendor/bin/taskset" ∷ "/system/xbin/taskset" ∷ "/bin/taskset"
      ∷ "/usr/bin/taskset" ∷ [])

  unfoldable pub available_cpu_mask : S → Option ℕ
  unfolding online_of allowed_of
  available_cpu_mask s =
      common (online_of (E.host.read_file "/sys/devices/system/cpu/online" s))
        (allowed_of (E.host.read_file "/proc/self/status" s))

  -- `count` is what `available_parallelism` gives.
  unfoldable pub core_run_command : Option ℕ → CoreFiles → S → String × List String
  unfolding taskset_program taskset_mask_arg available_cpu_mask
  core_run_command count files s =
      let bin = files.bin_path in
      let args = run_args E.config.bin_name files.core_dir files.launch_config_path in
      let plain : String × List String = (bin, args) in
      if not files.taskset_cpu
      then plain
      else elim (taskset_mask_arg (available_cpu_mask s) count files) [
        | ok mask ↦ (taskset_program s, mask ∷ bin ∷ args)
        | err _ ↦ plain
      ]

cpu_list_to_mask_test :
    (cpu_list_to_mask "0-2, 5" ≡ ok 39)
    × (cpu_list_to_mask "3-1" ≡ err "invalid CPU range: 3-1")
    × (cpu_list_to_mask "128" ≡ err "CPU index out of taskset mask range: 128")
unfolding cpu_list_to_mask
cpu_list_to_mask_test = (refl, refl, refl)
