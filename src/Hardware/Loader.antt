-- ===== src/Hardware/Loader.antt =====
-- load_from_directory of platform/libhardware/hardware.c. The dynamic loader and the file system are
-- parameters; the list of handles records which `dlopen` calls have not been closed.
use dark_os_svc_kit.Common.{
  ℕ, ◌+◌, ◌/◌, ◌≡◌, refl, Bool, true, false, not, ◌&&◌, Option, none, some, List, [], ◌∷◌, ◌++◌,
  arith, leb, ◌==◌, ap, inl, inr, Bool-cases, if◌then◌else◌, length, Text, codes, str_eq, str_eq→eq,
  Reply, ok, err, enoent, enametoolong, elibbad,
}
use dark_os_svc_kit.Hardware.Version.{Module, Methods, module_tag, api_version_1_0}
use dark_os_svc_kit.Hardware.Component.{max_id_length, max_path_length}

-- access, dlopen and dlsym. `dlsym` gives `none` for a null result and for a pending `dlerror`.
pub record Loader : Type 0 where
  pub exists : Text → Bool
  pub dlopen : Text → Option ℕ
  pub dlsym : ℕ → Text → Option Module

-- dlclose gives back the newest of the open references to a handle.
unfoldable pub dlclose : ℕ → List ℕ → List ℕ
dlclose h [] = []
dlclose h (k ∷ hs) = if k == h then hs else k ∷ dlclose h hs

-- The id field is compared only where it is not null.
abbrev pub id_matches : Option Text → Text → Bool
id_matches none id = false
id_matches (some own) id = str_eq own id

abbrev pub can_open : Option Methods → Bool
can_open none = false
can_open (some m) = m.has_open

-- The module check, negated: what has to hold for the module to be accepted.
unfoldable pub acceptable : Module → Text → Bool
acceptable candidate id =
    candidate.tag == module_tag
    && id_matches candidate.id id
    && can_open candidate.methods
    && candidate.hal_api_version / 256 == api_version_1_0 / 256

library_name : Text → Text → Text
library_name directory variant = directory ++ (codes "/hal." ++ (variant ++ codes ".so"))

symbol_name : Text → Text
symbol_name id = codes "HMI_" ++ id

check_candidate : Option Module → Text → ℕ → List ℕ → List ℕ × Reply Module
unfolding acceptable
check_candidate none id handle hs = (dlclose handle hs, err enoent)
check_candidate (some candidate) id handle hs =
    if not (acceptable candidate id)
    then (dlclose handle hs, err elibbad)
    else (hs, ok (record candidate { dso = some handle }))

load_library : Loader → Option ℕ → Text → List ℕ → List ℕ × Reply Module
unfolding check_candidate
load_library l none id hs = (hs, err elibbad)
load_library l (some handle) id hs =
    if leb (max_id_length + 5) (length (symbol_name id))
    then (dlclose handle (handle ∷ hs), err enametoolong)
    else check_candidate (l.dlsym handle (symbol_name id)) id handle (handle ∷ hs)

unfoldable pub load_from_directory : Loader → Text → Text → Text → List ℕ → List ℕ × Reply Module
unfolding load_library library_name symbol_name
load_from_directory l directory variant id hs =
    let library = library_name directory variant in
    if length directory == 0
    then (hs, err enoent)
    else if leb (max_path_length + 1) (length library)
    then (hs, err enametoolong)
    else if not (l.exists library)
    then (hs, err enoent)
    else load_library l (l.dlopen library) id hs

pub dlclose_newest : (h : ℕ) (hs : List ℕ) → dlclose h (h ∷ hs) ≡ hs
unfolding dlclose
dlclose_newest h hs = ground arith

-- What the loader promises of a module that it hands out for an id.
pub record IsModuleFor (id : Text) (m : Module) : Type 0 where
  pub tagged : m.tag ≡ module_tag
  pub named : m.id ≡ some id
  pub opens : can_open m.methods ≡ true
  pub versioned : m.hal_api_version / 256 ≡ 1

-- What one load leaves behind: a new handle that belongs to the module, or nothing.
abbrev pub Loads : Text → List ℕ → List ℕ × Reply Module → Type 0
Loads id hs (hs', ok m) =
    IsModuleFor id m × ((handle : ℕ) × (m.dso ≡ some handle) × (hs' ≡ handle ∷ hs))
Loads id hs (hs', err e) = hs' ≡ hs

acceptable-IsModuleFor :
    (m : Module) (id : Text) (h : Option ℕ)
    → acceptable m id ≡ true
    → IsModuleFor id (record m { dso = h })
unfolding acceptable
acceptable-IsModuleFor m id h e = record {
  tagged = ground arith;
  named = named_of m.id (ground arith);
  opens = ground arith;
  versioned = ground arith;
}
  where
    named_of : (own : Option Text) → id_matches own id ≡ true → own ≡ some id
    named_of none f = cc
    named_of (some own) f = ap some (str_eq→eq own id f)

check_candidate-Loads :
    (c : Option Module) (id : Text) (handle : ℕ) (hs : List ℕ)
    → Loads id hs (check_candidate c id handle (handle ∷ hs))
unfolding check_candidate
check_candidate-Loads none id handle hs = dlclose_newest handle hs
check_candidate-Loads (some c) id handle hs = elim (Bool-cases (acceptable c id)) [
  | inl e ↦ rw e ((acceptable-IsModuleFor c id (some handle) e), (handle, refl, refl))
  | inr e ↦ rw e (dlclose_newest handle hs)
]

load_library-Loads :
    (l : Loader) (o : Option ℕ) (id : Text) (hs : List ℕ) → Loads id hs (load_library l o id hs)
unfolding load_library
load_library-Loads l none id hs = refl
load_library-Loads l (some handle) id hs =
    elim (Bool-cases (leb (max_id_length + 5) (length (symbol_name id)))) [
      | inl e ↦ rw e (dlclose_newest handle hs)
      | inr e ↦ rw e (check_candidate-Loads (l.dlsym handle (symbol_name id)) id handle hs)
    ]

-- A directory either gives a module that passed every check, with its one new handle, or an error
-- and no handle.
pub load_from_directory-Loads :
    (l : Loader) (directory variant id : Text) (hs : List ℕ)
    → Loads id hs (load_from_directory l directory variant id hs)
unfolding load_from_directory
load_from_directory-Loads l directory variant id hs = located (library_name directory variant)
  where
    located :
        (library : Text)
        → Loads id hs (
            if length directory == 0
            then (hs, err enoent)
            else if leb (max_path_length + 1) (length library)
            then (hs, err enametoolong)
            else if not (l.exists library)
            then (hs, err enoent)
            else load_library l (l.dlopen library) id hs)
    located library = elim (Bool-cases (length directory == 0)) [
      | inl e ↦ rw e refl
      | inr e ↦ rw e (elim (Bool-cases (leb (max_path_length + 1) (length library))) [
        | inl f ↦ rw f refl
        | inr f ↦ rw f (elim (Bool-cases (l.exists library)) [
          | inl g ↦ rw g (load_library-Loads l (l.dlopen library) id hs)
          | inr g ↦ rw g refl
        ])
      ])
    ]
