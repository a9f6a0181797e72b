-- ===== src/Hardware/Scan.antt =====
-- The search loop of hw_get_module in platform/libhardware/hardware.c: the directories of a
-- colon-separated path, in order, until one is decisive.
use dark_os_svc_kit.Common.{
  ℕ, zero, suc, ◌≤◌, ◌<◌, ◌≡◌, refl, inl, inr, Bool, true, false, Option, none, some, List, [], ◌∷◌,
  ◌++◌, arith, ◌==◌, if◌then◌else◌, Bool-cases, length, All, Text, Reply, ok, err, enoent,
  enametoolong, elibbad, Errno,
}
use dark_os_svc_kit.Hardware.Version.{Module}
use dark_os_svc_kit.Hardware.Loader.{Loader, load_from_directory, Loads, load_from_directory-Loads}

-- strchr(cursor, ':'): the text before the separator, and the text behind it if there is one.
unfoldable pub break_colon : Text → Text × Option Text
break_colon [] = ([], none)
break_colon (c ∷ s) =
    let (before, behind) = break_colon s in if c == b':' then ([], some s) else (c ∷ before, behind)

-- result == 0 || result == -ELIBBAD || result == -ENAMETOOLONG
abbrev pub fatal : Errno → Bool
fatal elibbad = true
fatal enametoolong = true
fatal _ = false

abbrev pub decisive : Reply Module → Bool
decisive (ok m) = true
decisive (err e) = fatal e

module _ (l : Loader) (variant id : Text) where
  -- The `while` loop; `r` is the result so far.
  unfoldable pub scan : ℕ → Text → List ℕ → Reply Module → List ℕ × Reply Module
  scan zero cursor hs r = (hs, r)
  scan (suc fuel) [] hs r = (hs, r)
  scan (suc fuel) (c ∷ s) hs r =
      let (directory, behind) = break_colon (c ∷ s) in
      let (hs', r') = load_from_directory l directory variant id hs in
      elim (decisive r') [
        | true ↦ (hs', r')
        | false ↦ elim behind [ none ↦ (hs', r') | some rest ↦ scan fuel rest hs' r' ]
      ]

  -- The same search over a list of directories.
  unfoldable pub scan_directories : List Text → List ℕ → Reply Module → List ℕ × Reply Module
  scan_directories [] hs r = (hs, r)
  scan_directories (d ∷ ds) hs r =
      let (hs', r') = load_from_directory l d variant id hs in
      elim (decisive r') [ true ↦ (hs', r') | false ↦ scan_directories ds hs' r' ]

-- The directories that a search path names. A separator at the end names none behind it.
abbrev pub prepend : ℕ → List Text → List Text
prepend c [] = (c ∷ []) ∷ []
prepend c (d ∷ ds) = (c ∷ d) ∷ ds

unfoldable pub directories : Text → List Text
directories [] = []
directories (c ∷ s) = if c == b':' then [] ∷ directories s else prepend c (directories s)

abbrev listed : Text × Option Text → List Text
listed (d, none) = d ∷ []
listed (d, some rest) = d ∷ directories rest

directories-cons : (c : ℕ) (s : Text) → directories (c ∷ s) ≡ listed (break_colon (c ∷ s))
unfolding directories break_colon
directories-cons c [] = ground arith
directories-cons c (x ∷ s) = ground (arith, directories-cons x s)

abbrev Shorter : ℕ → Text × Option Text → Type 0
Shorter n (d, none) = Unit
Shorter n (d, some rest) = length rest < n

break_colon-Shorter : (c : ℕ) (s : Text) → Shorter (suc (length s)) (break_colon (c ∷ s))
unfolding break_colon
break_colon-Shorter c [] = ground arith
break_colon-Shorter c (x ∷ s) = ground (arith, break_colon-Shorter x s)

-- With as much fuel as the path has characters the loop visits exactly the directories of the path,
-- in their order, up to the first decisive one.
pub scan-directories :
    (l : Loader) (variant id : Text) (fuel : ℕ) (path : Text) (hs : List ℕ) (r : Reply Module)
    → length path ≤ fuel
    → scan l variant id fuel path hs r ≡ scan_directories l variant id (directories path) hs r
unfolding scan scan_directories directories
scan-directories l variant id zero [] hs r h = refl
scan-directories l variant id zero (c ∷ s) hs r h = absurd (omega arith)
scan-directories l variant id (suc fuel) [] hs r h = refl
scan-directories l variant id (suc fuel) (c ∷ s) hs r h = rw (directories-cons c s) (
    go (break_colon (c ∷ s)) (break_colon-Shorter c s)
      (λ rest hs' r' short. scan-directories l variant id fuel rest hs' r' (omega arith)))
  where
    go :
        (b : Text × Option Text)
        → Shorter (suc (length s)) b
        → ((rest : Text) (hs' : List ℕ) (r' : Reply Module)
            → length rest < suc (length s)
            → scan l variant id fuel rest hs' r'
              ≡ scan_directories l variant id (directories rest) hs' r')
        → ◌≡◌ {A = List ℕ × Reply Module}
            (let (hs', r') = load_from_directory l b.0 variant id hs in
              elim (decisive r') [
                | true ↦ (hs', r')
                | false ↦ elim b.1 [
                  | none ↦ (hs', r')
                  | some rest ↦ scan l variant id fuel rest hs' r'
                ]
              ])
            (scan_directories l variant id (listed b) hs r)
    go (d, none) short ih = refl
    go (d, some rest) short ih = ground (
      arith,
      ih rest (load_from_directory l d variant id hs).0 (load_from_directory l d variant id hs).1
          short,
    )

-- A search ends with a module and its one new handle, or with an error and no handle.
pub scan_directories-Loads :
    (l : Loader) (variant id : Text) (ds : List Text) (hs : List ℕ) (e : Errno)
    → Loads id hs (scan_directories l variant id ds hs (err e))
unfolding scan_directories
scan_directories-Loads l variant id [] hs e = refl
scan_directories-Loads l variant id (d ∷ ds) hs e =
    go (load_from_directory l d variant id hs) (load_from_directory-Loads l d variant id hs)
      (scan_directories-Loads l variant id ds hs)
  where
    go :
        (out : List ℕ × Reply Module)
        → Loads id hs out
        → ((f : Errno) → Loads id hs (scan_directories l variant id ds hs (err f)))
        → Loads id hs (elim (decisive out.1) as (λ _. List ℕ × Reply Module) [
          | true ↦ out
          | false ↦ scan_directories l variant id ds out.0 out.1
        ])
    go (hs', ok m) loads rest = loads
    go (hs', err f) same rest = elim (Bool-cases (fatal f)) [
      | inl stop ↦ rw stop same
      | inr on ↦ rw (on, same) (rest f)
    ]

-- Directories that lack the module are passed over, and change nothing.
pub scan_directories_skip :
    (l : Loader) (variant id : Text) (ds rest : List Text) (hs : List ℕ)
    → All (λ d. load_from_directory l d variant id hs ≡ (hs, err enoent)) ds
    → scan_directories l variant id (ds ++ rest) hs (err enoent)
      ≡ scan_directories l variant id rest hs (err enoent)
unfolding scan_directories
scan_directories_skip l variant id [] rest hs absent = refl
scan_directories_skip l variant id (d ∷ ds) rest hs absent =
    ground (arith, absent.0, scan_directories_skip l variant id ds rest hs absent.1)
