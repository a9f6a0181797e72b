-- ===== src/Hardware/Cache/Lookup.antt =====
-- A module that was found once is found again, without a search.
use dark_os_svc_kit.Common.{
  ℕ, ◌≤◌, ◌≡◌, refl, Bool, true, Option, none, some, List, [], ◌∷◌, ◌++◌, arith, length, take,
  take_all, Text, str_eq_refl, Reply, ok, err, guard_passed, not-false, or_false, ltb_false→le,
  le→ltb_false, einval, enametoolong,
}
use dark_os_svc_kit.Hardware.Version.{Module}
use dark_os_svc_kit.Hardware.Component.{
  max_id_length, max_variant_length, max_path_length, valid_component, valid_component_iff,
}
use dark_os_svc_kit.Hardware.Loader.{Loader}
use dark_os_svc_kit.Hardware.Cache.{
  Entry, State, Environment, effective_variant, effective_path, matches, find_cached, remember,
  finish, locked_get, checked_get, hw_get_module,
}

-- What a request has passed when it reaches the cache.
pub record Accepted (id variant search_path : Text) : Type 0 where
  pub id_ok : valid_component (some id) max_id_length ≡ true
  pub variant_ok : valid_component (some variant) max_variant_length ≡ true
  pub path_ok : length search_path ≤ max_path_length

matches_own :
    (e : Entry) (id variant search_path : Text)
    → e.id ≡ id
    → e.variant ≡ variant
    → e.search_path ≡ search_path
    → matches e id variant search_path ≡ true
unfolding matches
matches_own e id variant search_path p q r =
    rw (p, q, r, str_eq_refl id, str_eq_refl variant, str_eq_refl search_path)

find_cached-append :
    (es : List Entry) (e : Entry) (id variant search_path : Text)
    → find_cached es id variant search_path ≡ none
    → matches e id variant search_path ≡ true
    → find_cached (es ++ e ∷ []) id variant search_path ≡ some e.loaded
unfolding find_cached
find_cached-append [] e id variant search_path miss hit = rw hit
find_cached-append (x ∷ es) e id variant search_path miss hit =
    ground (arith, find_cached-append es e id variant search_path)

Accepted-length :
    (id variant search_path : Text)
    → Accepted id variant search_path
    → (length id ≤ max_id_length) × (length variant ≤ max_variant_length)
Accepted-length id variant search_path a = (
  ((valid_component_iff id max_id_length).0 a.id_ok).1,
  ((valid_component_iff variant max_variant_length).0 a.variant_ok).1,
)

-- A search that ends well has put its module into the cache.
finish_caches :
    (s t : State) (id variant search_path : Text) (out : List ℕ × Reply Module) (m : Module)
    → Accepted id variant search_path
    → find_cached s.cache id variant search_path ≡ none
    → finish s id variant search_path out ≡ (t, ok m)
    → find_cached t.cache id variant search_path ≡ some m
unfolding finish remember
finish_caches s t id variant search_path (hs, err e) m a miss h = ground arith
finish_caches s t id variant search_path (hs, ok x) m a miss h = ground (
  arith,
  Accepted-length id variant search_path a,
  take_all max_id_length id,
  take_all max_variant_length variant,
  take_all max_path_length search_path,
  find_cached-append s.cache entry id variant search_path miss,
  matches_own entry id variant search_path,
)
  where
    entry : Entry
    entry = record {
      id = take max_id_length id;
      variant = take max_variant_length variant;
      search_path = take max_path_length search_path;
      loaded = x;
    }

locked_get_caches :
    (l : Loader) (s t : State) (id variant search_path : Text) (o : Option Module) (m : Module)
    → Accepted id variant search_path
    → find_cached s.cache id variant search_path ≡ o
    → locked_get l id variant search_path s o ≡ (t, ok m)
    → find_cached t.cache id variant search_path ≡ some m
unfolding locked_get
locked_get_caches l s t id variant search_path (some c) m a e h = ground arith
locked_get_caches l s t id variant search_path none m a e h =
    finish_caches s t id variant search_path _ m a e h

checked_get_caches :
    (l : Loader) (s t : State) (id variant search_path : Text) (m : Module)
    → valid_component (some id) max_id_length ≡ true
    → checked_get l id variant search_path s ≡ (t, ok m)
    → Accepted id variant search_path × (find_cached t.cache id variant search_path ≡ some m)
unfolding checked_get
checked_get_caches l s t id variant search_path m id_ok h =
    let p = guard_passed _ s t einval _ m h in
    let q = guard_passed _ s t enametoolong _ m p.1 in
    let a : Accepted id variant search_path = record {
      id_ok = id_ok;
      variant_ok = not-false _ p.0;
      path_ok = ltb_false→le _ _ q.0;
    } in
    (a, locked_get_caches l s t id variant search_path _ m a refl q.1)

-- What a successful request has passed, and where its module is then.
pub hw_get_module_caches :
    (l : Loader) (env : Environment) (out : Bool) (id : Text) (s t : State) (m : Module)
    → hw_get_module l env out (some id) s ≡ (t, ok m)
    → Accepted id (effective_variant env) (effective_path env)
      × (find_cached t.cache id (effective_variant env) (effective_path env) ≡ some m)
unfolding hw_get_module
hw_get_module_caches l env out id s t m h =
    let p = guard_passed _ s t einval _ m h in
    checked_get_caches l s t id (effective_variant env) (effective_path env) m
      (not-false _ (or_false _ _ p.0).1) p.1

-- A module that was handed out stays the answer to the same request: whatever the file system and the
-- loader hold by then, asking again gives the same module and changes nothing.
pub hw_get_module_again :
    (l later : Loader) (env : Environment) (out : Bool) (id : Text) (s t : State) (m : Module)
    → hw_get_module l env out (some id) s ≡ (t, ok m)
    → hw_get_module later env true (some id) t ≡ (t, ok m)
unfolding hw_get_module checked_get locked_get
hw_get_module_again l later env out id s t m h =
    let (a, found) = hw_get_module_caches l env out id s t m h in
    rw (a.id_ok, a.variant_ok, le→ltb_false _ _ a.path_ok, found)
