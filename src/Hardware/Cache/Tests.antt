-- ===== src/Hardware/Cache/Tests.antt =====
-- The module cache on a staging directory with one library, and the theorems at it.
use dark_os_svc_kit.Common.{
  List, ◌∷◌, ◌≤◌, length, ◌≡◌, refl, true, false, Option, none, some, [], arith, if◌then◌else◌,
  Text, codes, str_eq, ok, err, enoent,
}
use dark_os_svc_kit.Hardware.Version.{Module, module_tag, api_version_1_0}
use dark_os_svc_kit.Hardware.Component.{valid_component, allowed_character}
use dark_os_svc_kit.Hardware.Path.{default_library_path}
use dark_os_svc_kit.Hardware.Loader.{Loader, Loads, load_from_directory, load_from_directory-Loads}
use dark_os_svc_kit.Hardware.Scan.{
  scan, break_colon, scan_directories, directories, scan-directories,
}
use dark_os_svc_kit.Hardware.Cache.{
  State, Environment, effective_path, effective_variant, hw_get_module, max_cached_modules,
}
use dark_os_svc_kit.Hardware.Cache.Lookup.{hw_get_module_again}
use dark_os_svc_kit.Hardware.Cache.Invariant.{
  Request, serve, serve_bounded, Outcome, Inv, empty_cache, hw_get_module-Outcome,
}

abbrev light_module : Module
light_module = record {
  tag = module_tag;
  module_api_version = api_version_1_0;
  hal_api_version = api_version_1_0;
  id = some (codes "light");
  methods = some (record { has_open = true });
  dso = none;
}

-- One library, hal.host.so in /opt/lib, which exports HMI_light alone.
abbrev staging : Loader
staging = record {
  exists = λ path. str_eq path (codes "/opt/lib/hal.host.so");
  dlopen = λ path. some 7;
  dlsym = λ handle symbol. if str_eq symbol (codes "HMI_light") then some light_module else none;
}

abbrev staged : Environment
staged = record {
  variant = none;
  library_path = some (codes "/nowhere:/opt/lib:");
  executable = none;
  default_variant = codes "host";
}

abbrev light : Option Text
light = some (codes "light")

abbrev served : State
served = (hw_get_module staging staged true light empty_cache).0

abbrev empty_disk : Loader
empty_disk = record { exists = λ path. false; dlopen = λ path. none; dlsym = λ handle symbol. none }

abbrev found : Module
found = record light_module { dso = some 7 }

hw_get_module_finds_light : hw_get_module staging staged true light empty_cache ≡ (served, ok found)
unfolding hw_get_module scan load_from_directory str_eq valid_component break_colon effective_path
    effective_variant default_library_path allowed_character
hw_get_module_finds_light = refl

hw_get_module_again_example : hw_get_module empty_disk staged true light served ≡ (served, ok found)
hw_get_module_again_example =
    hw_get_module_again staging empty_disk staged true (codes "light") empty_cache served found
      hw_get_module_finds_light

empty_cache-Inv : Inv empty_cache
empty_cache-Inv = record { bounded = omega arith; modules = tt; held = tt }

hw_get_module-Outcome_example :
    Outcome (codes "light") empty_cache (hw_get_module staging staged true light empty_cache)
hw_get_module-Outcome_example =
    hw_get_module-Outcome staging staged true (codes "light") empty_cache empty_cache-Inv

load_from_directory-Loads_example :
    Loads
      (codes "light")
      []
      (load_from_directory staging (codes "/opt/lib") (codes "host") (codes "light") [])
load_from_directory-Loads_example =
    load_from_directory-Loads staging (codes "/opt/lib") (codes "host") (codes "light") []

scan-directories_example :
    scan staging (codes "host") (codes "light") 9 (codes "/a:/opt:b") [] (err enoent)
    ≡ scan_directories staging
        (codes "host")
        (codes "light")
        (directories (codes "/a:/opt:b"))
        []
        (err enoent)
scan-directories_example =
    scan-directories staging (codes "host") (codes "light") 9 (codes "/a:/opt:b") [] (err enoent)
      (omega arith)

-- The module is asked for twice, and once in vain.
abbrev requests : List Request
requests =
    record { loader = staging; environment = staged; out = true; id = codes "light" }
    ∷ record { loader = empty_disk; environment = staged; out = true; id = codes "light" }
    ∷ record { loader = empty_disk; environment = staged; out = true; id = codes "audio" }
    ∷ []

serve_bounded_example :
    Inv (serve requests empty_cache)
    × (length (serve requests empty_cache).handles ≤ max_cached_modules)
serve_bounded_example = serve_bounded requests
