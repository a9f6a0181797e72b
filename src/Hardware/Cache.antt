-- ===== src/Hardware/Cache.antt =====
-- hw_get_module of platform/libhardware/hardware.c: the lookup, the search and the module cache.
use dark_os_svc_kit.Common.{
  ℕ, suc, ◌+◌, ◌≤◌, ◌≡◌, refl, Bool, true, false, not, ◌&&◌, ◌||◌, Option, none, some, List, [],
  ◌∷◌, ◌++◌, map, ◌==◌, arith, ltb, leb, if◌then◌else◌, length, take, All, Text, str_eq, Reply, ok,
  err, enoent, einval, enospc, enametoolong,
}
use dark_os_svc_kit.Hardware.Version.{Module}
use dark_os_svc_kit.Hardware.Component.{
  max_id_length, max_variant_length, max_path_length, valid_component,
}
use dark_os_svc_kit.Hardware.Path.{default_library_path}
use dark_os_svc_kit.Hardware.Loader.{Loader, dlclose}
use dark_os_svc_kit.Hardware.Scan.{scan}
pub mod Lookup
pub mod Invariant
pub mod Tests

abbrev pub max_cached_modules : ℕ
max_cached_modules = 32

-- module_cache_entry_t
pub record Entry : Type 0 where
  pub id : Text
  pub variant : Text
  pub search_path : Text
  pub loaded : Module

-- g_cache[0 .. g_cache_size - 1], and the handles that the process holds, the newest first.
pub record State : Type 0 where
  pub cache : List Entry
  pub handles : List ℕ

-- The two environment variables, the link that names the executable, and the variant that the build
-- sets (DARKOS_DEFAULT_HAL_VARIANT).
pub record Environment : Type 0 where
  pub variant : Option Text
  pub library_path : Option Text
  pub executable : Option Text
  pub default_variant : Text

-- value == NULL || value[0] == '\0'
abbrev pub given : Option Text → Text → Text
given none fallback = fallback
given (some []) fallback = fallback
given (some (c ∷ s)) fallback = c ∷ s

unfoldable pub effective_variant : Environment → Text
effective_variant env = given env.variant env.default_variant

unfoldable pub effective_path : Environment → Text
effective_path env =
    given env.library_path (default_library_path env.executable (max_path_length + 1))

-- The three comparisons of a cache line.
pub matches : Entry → Text → Text → Text → Bool
matches e id variant search_path =
    str_eq e.id id && str_eq e.variant variant && str_eq e.search_path search_path

pub find_cached : List Entry → Text → Text → Text → Option Module
find_cached [] id variant search_path = none
find_cached (e ∷ es) id variant search_path =
    if matches e id variant search_path
    then some e.loaded
    else find_cached es id variant search_path

abbrev same_dso : Option ℕ → Option ℕ → Bool
same_dso (some h) (some k) = h == k
same_dso o p = false

abbrev close_dso : Option ℕ → List ℕ → List ℕ
close_dso none hs = hs
close_dso (some h) hs = dlclose h hs

abbrev same_id : Option Text → Option Text → Bool
same_id (some i) (some j) = str_eq i j
same_id o p = false

-- Two pointers to one hw_module_t: HMI_<id> of one library, and a module that was accepted has that id.
abbrev pub is_same : Module → Module → Bool
is_same m n = same_dso m.dso n.dso && same_id m.id n.id

-- `dso = NULL` in a module: every line of the table that has this module shows it. The load just before has written
-- the handle there that a line of this module has already.
abbrev pub disown : Module → Entry → Entry
disown m e =
    if is_same m e.loaded then record e { loaded = record (e.loaded) { dso = none } } else e

-- A module that was just loaded enters the cache, or is closed again when the cache is full.
pub remember : State → Text → Text → Text → Module → State × Reply Module
remember s id variant search_path m =
    if leb max_cached_modules (length s.cache)
    then (
      record { cache = map (disown m) s.cache; handles = close_dso m.dso s.handles },
      err enospc,
    )
    else (record s { cache = s.cache ++ entry ∷ [] }, ok m)
  where
    entry : Entry
    entry = record {
      id = take max_id_length id;
      variant = take max_variant_length variant;
      search_path = take max_path_length search_path;
      loaded = m;
    }

pub finish : State → Text → Text → Text → List ℕ × Reply Module → State × Reply Module
unfolding remember
finish s id variant search_path (hs, ok m) =
    remember (record s { handles = hs }) id variant search_path m
finish s id variant search_path (hs, err e) = (record s { handles = hs }, err e)

-- The section under the cache's mutex.
pub locked_get : Loader → Text → Text → Text → State → Option Module → State × Reply Module
unfolding finish
locked_get l id variant search_path s (some cached) = (s, ok cached)
locked_get l id variant search_path s none =
    finish s id variant search_path
      (scan l variant id (length search_path) search_path s.handles (err enoent))

pub checked_get : Loader → Text → Text → Text → State → State × Reply Module
unfolding locked_get find_cached
checked_get l id variant search_path s =
    if not (valid_component (some variant) max_variant_length)
    then (s, err einval)
    else if ltb max_path_length (length search_path)
    then (s, err enametoolong)
    else locked_get l id variant search_path s (find_cached s.cache id variant search_path)

-- `out` says whether the output pointer is not null; `none` for the id is a null pointer.
pub hw_get_module : Loader → Environment → Bool → Option Text → State → State × Reply Module
unfolding checked_get
hw_get_module l env out none s = (s, err einval)
hw_get_module l env out (some id) s =
    if not out || not (valid_component (some id) max_id_length)
    then (s, err einval)
    else checked_get l id (effective_variant env) (effective_path env) s
