-- ===== src/Hardware/Cache/Invariant.antt =====
-- What holds of the module cache between two requests.
use mathlib.Core.List.{map-append, reverse-append}
use mathlib.Core.Bool.{true≢false}
use dark_os_svc_kit.Common.{
  if◌then◌else◌, suc, einval, enametoolong, Errno, enospc, ℕ, ◌≤◌, ◌≡◌, refl, sym, ap, subst, ◌∙◌,
  ◌⊎◌, inl, inr, Bool, true, false, Option, none, some, List, [], ◌∷◌, ◌++◌, map, reverse, arith,
  ltb, leb, length, length-append, length-map, length-reverse, take, take_all, All, All-append,
  Text, Bool-cases, str_eq→eq, Reply, ok, err, enoent, leb_false→lt,
}
use dark_os_svc_kit.Hardware.Version.{Module}
use dark_os_svc_kit.Hardware.Component.{
  max_id_length, max_variant_length, max_path_length, valid_component, valid_component_iff,
}
use dark_os_svc_kit.Hardware.Loader.{Loader, Loads, IsModuleFor, dlclose_newest}
use dark_os_svc_kit.Hardware.Scan.{directories, scan-directories, scan_directories-Loads}
use dark_os_svc_kit.Hardware.Cache.{
  Entry, State, Environment, effective_variant, effective_path, disown, is_same, matches,
  find_cached, remember, finish, locked_get, checked_get, hw_get_module, max_cached_modules,
}

-- The open handles, the newest first, beside the lines of the table, the newest first: each line's module has its
-- handle, or, in a table that is full, has been told that it has none.
abbrev pub Owned : Bool → List ℕ → List Entry → Type 0
Owned full [] [] = Unit
Owned full (h ∷ hs) (e ∷ es) =
    ((e.loaded.dso ≡ some h) ⊎ ((full ≡ true) × (e.loaded.dso ≡ none))) × Owned full hs es
Owned full hs es = ⊥

abbrev pub is_full : State → Bool
is_full s = leb max_cached_modules (length s.cache)

-- The table fits its array, each line holds a module for its own id, and there is one open handle for each line.
pub record Inv (s : State) : Type 0 where
  pub bounded : length s.cache ≤ max_cached_modules
  pub modules : All (λ e. IsModuleFor e.id e.loaded) s.cache
  pub held : Owned (is_full s) s.handles (reverse s.cache)

map-reverse : (f : Entry → Entry) (es : List Entry) → map f (reverse es) ≡ reverse (map f es)
map-reverse f [] = refl
map-reverse f (e ∷ es) =
    ap (map f) (reverse-append (e ∷ []) es)
    ∙ map-append f (reverse es) (e ∷ [])
    ∙ ap (λ x. x ++ f e ∷ []) (map-reverse f es)
    ∙ sym (reverse-append (f e ∷ []) (map f es))

-- What a line is found by.
abbrev pub key : Entry → Text × Text × Text
key e = (e.id, e.variant, e.search_path)

-- Outcome of a request: on success a module for the id; on failure the handles and the lines of before, and their
-- modules as well unless the error is that of a full table.
abbrev pub Outcome : Text → State → State × Reply Module → Type 0
Outcome id s (t, ok m) = Inv t × IsModuleFor id m
Outcome id s (t, err e) =
    Inv t
    × (t.handles ≡ s.handles)
    × (map key t.cache ≡ map key s.cache)
    × ((t ≡ s) ⊎ ((e ≡ enospc) × (is_full s ≡ true)))

Owned-any : (full : Bool) (hs : List ℕ) (es : List Entry) → Owned false hs es → Owned full hs es
Owned-any full [] [] o = tt
Owned-any full [] (e ∷ es) o = absurd o
Owned-any full (h ∷ hs) [] o = absurd o
Owned-any full (h ∷ hs) (e ∷ es) o =
    (elim (o.0) [ inl p ↦ inl p | inr p ↦ absurd (true≢false (sym p.0)) ], Owned-any full hs es o.1)

disown-owned :
    (m : Module) (e : Entry) (h : ℕ)
    → (e.loaded.dso ≡ some h) ⊎ ((true ≡ true) × (e.loaded.dso ≡ none))
    → ((disown m e).loaded.dso ≡ some h) ⊎ ((true ≡ true) × ((disown m e).loaded.dso ≡ none))
disown-owned m e h o = go (is_same m e.loaded)
  where
    go :
        (b : Bool)
        → let d : Entry =
            (if b then record e { loaded = record (e.loaded) { dso = none } } else e) in
          (d.loaded.dso ≡ some h) ⊎ ((true ≡ true) × (d.loaded.dso ≡ none))
    go true = inr (refl, refl)
    go false = o

Owned-disown :
    (m : Module) (hs : List ℕ) (es : List Entry)
    → Owned true hs es
    → Owned true hs (map (disown m) es)
Owned-disown m [] [] o = tt
Owned-disown m [] (e ∷ es) o = absurd o
Owned-disown m (h ∷ hs) [] o = absurd o
Owned-disown m (h ∷ hs) (e ∷ es) o = (disown-owned m e h o.0, Owned-disown m hs es o.1)

disown-line :
    (m : Module) (e : Entry)
    → IsModuleFor e.id e.loaded
    → IsModuleFor (disown m e).id (disown m e).loaded × (key (disown m e) ≡ key e)
disown-line m e k = go (is_same m e.loaded)
  where
    go :
        (b : Bool)
        → let d : Entry =
            (if b then record e { loaded = record (e.loaded) { dso = none } } else e) in
          IsModuleFor d.id d.loaded × (key d ≡ key e)
    go true = (
      record { tagged = k.tagged; named = k.named; opens = k.opens; versioned = k.versioned },
      refl,
    )
    go false = (k, refl)

disown-lines :
    (m : Module) (es : List Entry)
    → All (λ e. IsModuleFor e.id e.loaded) es
    → All (λ e. IsModuleFor e.id e.loaded) (map (disown m) es)
      × (map key (map (disown m) es) ≡ map key es)
disown-lines m [] k = (tt, refl)
disown-lines m (e ∷ es) k =
    let (a, p) = disown-line m e k.0 in
    let (rest, ps) = disown-lines m es k.1 in ((a, rest), λ i. p i ∷ ps i)

disowned-Inv :
    (s : State) (m : Module)
    → Inv s
    → is_full s ≡ true
    → Inv (record { cache = map (disown m) s.cache; handles = s.handles })
disowned-Inv s m inv full =
    let same : length (map (disown m) s.cache) ≡ length s.cache = length-map (disown m) s.cache in
    record {
      bounded = omega (arith, inv.bounded, same);
      modules = (disown-lines m s.cache inv.modules).0;
      held =
          subst
            (λ es. Owned (leb max_cached_modules (length (map (disown m) s.cache))) s.handles es)
            (map-reverse (disown m) s.cache)
            (subst (λ b. Owned b s.handles (map (disown m) (reverse s.cache)))
              (sym (ap (leb max_cached_modules) same ∙ full))
              (Owned-disown m s.handles (reverse s.cache)
                (subst (λ b. Owned b s.handles (reverse s.cache)) full inv.held)));
    }

remember-Outcome :
    (s : State) (id variant search_path : Text) (m : Module) (h : ℕ)
    → Inv s
    → length id ≤ max_id_length
    → IsModuleFor id m
    → m.dso ≡ some h
    → Outcome id s (remember (record s { handles = h ∷ s.handles }) id variant search_path m)
unfolding remember
remember-Outcome s id variant search_path m h inv short is_module owned =
    elim (Bool-cases (leb max_cached_modules (length s.cache))) [
      | inl full ↦ rw full (
          rw owned (
            rw (dlclose_newest h s.handles) (
              disowned-Inv s (record m { dso = some h }) inv full,
              refl,
              (disown-lines (record m { dso = some h }) s.cache inv.modules).1,
              inr (refl, full),
            )))
      | inr room ↦ rw room (
        (record {
          bounded = omega (
            arith,
            leb_false→lt max_cached_modules (length s.cache) room,
            length-append s.cache (entry ∷ []),
          );
          modules =
              All-append _ s.cache (entry ∷ []) inv.modules
                (rw (take_all max_id_length id short) is_module, tt);
          held = subst (Owned _ (h ∷ s.handles)) (sym (reverse-append s.cache (entry ∷ []))) (
            inl owned,
            Owned-any _ s.handles (reverse s.cache)
                (subst (λ b. Owned b s.handles (reverse s.cache)) room inv.held),
          );
        }),
        is_module,
      )
    ]
  where
    entry : Entry
    entry = record {
      id = take max_id_length id;
      variant = take max_variant_length variant;
      search_path = take max_path_length search_path;
      loaded = m;
    }

same-Outcome : (s t : State) (id : Text) (e : Errno) → Inv s → t ≡ s → Outcome id s (t, err e)
same-Outcome s t id e inv p = (
  subst Inv (sym p) inv,
  ap (λ (x : State). x.handles) p,
  ap (λ (x : State). map key x.cache) p,
  inl p,
)

finish-Outcome :
    (s : State) (id variant search_path : Text) (out : List ℕ × Reply Module)
    → Inv s
    → length id ≤ max_id_length
    → Loads id s.handles out
    → Outcome id s (finish s id variant search_path out)
unfolding finish
finish-Outcome s id variant search_path (hs, ok m) inv short (is_module, (h, owned, new)) =
    rw new (remember-Outcome s id variant search_path m h inv short is_module owned)
finish-Outcome s id variant search_path (hs, err e) inv short same =
    same-Outcome s _ id e inv (ap (λ l. record s { handles = l }) same)

-- A hit is the head, under its own id, or a hit in the tail.
find_cached-cons :
    (e : Entry) (es : List Entry) (id variant search_path : Text) (m : Module)
    → find_cached (e ∷ es) id variant search_path ≡ some m
    → ((e.loaded ≡ m) × (e.id ≡ id)) ⊎ (find_cached es id variant search_path ≡ some m)
unfolding find_cached matches
find_cached-cons e es id variant search_path m h = ground (arith, str_eq→eq e.id id)

find_cached-IsModuleFor :
    (es : List Entry) (id variant search_path : Text) (m : Module)
    → All (λ e. IsModuleFor e.id e.loaded) es
    → find_cached es id variant search_path ≡ some m
    → IsModuleFor id m
find_cached-IsModuleFor [] id variant search_path m all h = unfold find_cached in cc
find_cached-IsModuleFor (e ∷ es) id variant search_path m all h =
    elim (find_cached-cons e es id variant search_path m h) [
      | inl (p, q) ↦ subst (λ x. IsModuleFor id x) p (subst (λ i. IsModuleFor i e.loaded) q all.0)
      | inr rest ↦ find_cached-IsModuleFor es id variant search_path m all.1 rest
    ]

locked_get-Outcome :
    (l : Loader) (s : State) (id variant search_path : Text) (o : Option Module)
    → Inv s
    → length id ≤ max_id_length
    → find_cached s.cache id variant search_path ≡ o
    → Outcome id s (locked_get l id variant search_path s o)
unfolding locked_get
locked_get-Outcome l s id variant search_path (some m) inv short e =
    (inv, find_cached-IsModuleFor s.cache id variant search_path m inv.modules e)
locked_get-Outcome l s id variant search_path none inv short e =
    finish-Outcome s id variant search_path _ inv short (
      rw
        (scan-directories l variant id (length search_path) search_path s.handles (err enoent)
          (omega arith))
        (scan_directories-Loads l variant id (directories search_path) s.handles enoent))

checked_get-Outcome :
    (l : Loader) (s : State) (id variant search_path : Text)
    → Inv s
    → length id ≤ max_id_length
    → Outcome id s (checked_get l id variant search_path s)
unfolding checked_get
checked_get-Outcome l s id variant search_path inv short =
    elim (Bool-cases (valid_component (some variant) max_variant_length)) [
      | inr bad ↦ rw bad (same-Outcome s s id einval inv refl)
      | inl good ↦ rw good (elim (Bool-cases (ltb max_path_length (length search_path))) [
        | inl long ↦ rw long (same-Outcome s s id enametoolong inv refl)
        | inr fits ↦ rw fits (locked_get-Outcome l s id variant search_path _ inv short refl)
      ])
    ]

-- Whatever the environment, the file system and the loader hold, from a table that fits its array, whose lines hold
-- modules for their ids, and with one open handle for each line, a request keeps all of this. One that succeeds gives a
-- module that passed every check for its id. One that fails leaves the open handles and the keys of the lines, and
-- the modules too, unless the table is full and the error is ENOSPC.
pub hw_get_module-Outcome :
    (l : Loader) (env : Environment) (out : Bool) (id : Text) (s : State)
    → Inv s
    → Outcome id s (hw_get_module l env out (some id) s)
unfolding hw_get_module checked_get
hw_get_module-Outcome l env false id s inv = same-Outcome s s id einval inv refl
hw_get_module-Outcome l env true id s inv =
    elim (Bool-cases (valid_component (some id) max_id_length)) [
      | inr bad ↦ rw bad (same-Outcome s s id einval inv refl)
      | inl good ↦ rw good (
          checked_get-Outcome l s id (effective_variant env) (effective_path env) inv
            ((valid_component_iff id max_id_length).0 good).1)
    ]

-- One call of hw_get_module, with the surroundings that it meets.
pub record Request : Type 0 where
  pub loader : Loader
  pub environment : Environment
  pub out : Bool
  pub id : Text

pub serve : List Request → State → State
serve [] s = s
serve (r ∷ rs) s = serve rs (hw_get_module r.loader r.environment r.out (some r.id) s).0

Outcome-Inv : (id : Text) (s : State) (o : State × Reply Module) → Inv s → Outcome id s o → Inv o.0
Outcome-Inv id s (t, ok m) inv o = o.0
Outcome-Inv id s (t, err e) inv o = o.0

serve-Inv : (rs : List Request) (s : State) → Inv s → Inv (serve rs s)
unfolding serve
serve-Inv [] s inv = inv
serve-Inv (r ∷ rs) s inv =
    serve-Inv rs _
      (Outcome-Inv r.id s _ inv (hw_get_module-Outcome r.loader r.environment r.out r.id s inv))

abbrev pub empty_cache : State
empty_cache = record { cache = []; handles = [] }

Owned-length :
    (full : Bool) (hs : List ℕ) (es : List Entry) → Owned full hs es → length hs ≡ length es
Owned-length full [] [] o = refl
Owned-length full [] (e ∷ es) o = absurd o
Owned-length full (h ∷ hs) [] o = absurd o
Owned-length full (h ∷ hs) (e ∷ es) o = ap suc (Owned-length full hs es o.1)

handles_counted : (s : State) → Inv s → length s.handles ≡ length s.cache
handles_counted s inv = Owned-length _ s.handles (reverse s.cache) inv.held ∙ length-reverse s.cache

-- From the empty table of a new process, no sequence of requests, in whatever surroundings, leaves a table that does
-- not fit its array, a line with a module that is not for its id, other than one open handle for each line, or more
-- than 32 handles open.
pub serve_bounded :
    (rs : List Request)
    → Inv (serve rs empty_cache) × (length (serve rs empty_cache).handles ≤ max_cached_modules)
serve_bounded rs =
    let inv =
      serve-Inv rs empty_cache (record { bounded = omega arith; modules = tt; held = tt }) in
    (inv, omega (arith, inv.bounded, handles_counted _ inv))
