-- ===== src/Hardware/Path.antt =====
-- default_library_path of platform/libhardware/hardware.c, and the texts it is made of.
use dark_os_svc_kit.Common.{
  ℕ, ◌<◌, ◌≡◌, refl, ◌≢◌, false, not, ◌||◌, Option, none, some, [], ◌∷◌, ◌++◌, arith, leb, ◌==◌,
  if◌then◌else◌, length, take, length-append, take_all, All, Text, codes, str_eq, str_eq_refl,
  Bool-cases, inl, inr,
}
use dark_os_svc_kit.Hardware.Component.{max_path_length}

-- HAL_SYSTEM_LIBRARY_PATH
abbrev pub system_library_path : Text
system_library_path = codes "/usr/lib/darkos/hal:/usr/lib:/lib"

-- strrchr: the text before the last `c`, and the text behind it.
unfoldable pub split_last : ℕ → Text → Option (Text × Text)
split_last c [] = none
split_last c (x ∷ s) = elim (split_last c s) [
  | some (before, behind) ↦ some (x ∷ before, behind)
  | none ↦ if x == c then some ([], s) else none
]

-- The last step: `snprintf` of "%s/lib:%s" into a buffer of `size` bytes.
compose_path : Text → ℕ → Text
compose_path root size =
    let written = root ++ (codes "/lib:" ++ system_library_path) in
    if leb size (length written) then system_library_path else written

strip_bin : Option (Text × Text) → ℕ → Text
unfolding compose_path
strip_bin none size = system_library_path
strip_bin (some (root, bin_name)) size =
    if not (str_eq bin_name (codes "bin")) then system_library_path else compose_path root size

strip_file : Option (Text × Text) → ℕ → Text
unfolding strip_bin split_last
strip_file none size = system_library_path
strip_file (some (directory, file_name)) size = strip_bin (split_last b'/' directory) size

-- The target of /proc/self/exe is an argument: `none` is a failing `readlink`, which otherwise copies
-- at most `max_path_length` bytes.
unfoldable pub default_library_path : Option Text → ℕ → Text
unfolding strip_file
default_library_path none size = system_library_path
default_library_path (some target) size =
    let executable = take max_path_length target in
    if length executable == 0 || leb max_path_length (length executable)
    then system_library_path
    else strip_file (split_last b'/' executable) size

compose_path_fits :
    (root : Text) (size : ℕ)
    → length system_library_path < size
    → length (compose_path root size) < size
unfolding compose_path
compose_path_fits root size h = over (root ++ (codes "/lib:" ++ system_library_path))
  where
    over : (w : Text) → length (if leb size (length w) then system_library_path else w) < size
    over w = elim (Bool-cases (leb size (length w))) [
      | inl e ↦ rw e h
      | inr e ↦ rw e (ground arith)
    ]

strip_bin_fits :
    (parts : Option (Text × Text)) (size : ℕ)
    → length system_library_path < size
    → length (strip_bin parts size) < size
unfolding strip_bin
strip_bin_fits none size h = h
strip_bin_fits (some (root, bin_name)) size h = elim (Bool-cases (str_eq bin_name (codes "bin"))) [
  | inl e ↦ rw e (compose_path_fits root size h)
  | inr e ↦ rw e h
]

strip_file_fits :
    (parts : Option (Text × Text)) (size : ℕ)
    → length system_library_path < size
    → length (strip_file parts size) < size
unfolding strip_file
strip_file_fits none size h = h
strip_file_fits (some (directory, file_name)) size h =
    strip_bin_fits (split_last b'/' directory) size h

-- Whatever the link says, the path fits a buffer that has room for the system path and its NUL.
pub default_library_path_fits :
    (link : Option Text) (size : ℕ)
    → length system_library_path < size
    → length (default_library_path link size) < size
unfolding default_library_path
default_library_path_fits none size h = h
default_library_path_fits (some target) size h = guarded (take max_path_length target)
  where
    guarded :
        (executable : Text)
        → length (
            if length executable == 0 || leb max_path_length (length executable)
            then system_library_path
            else strip_file (split_last b'/' executable) size)
          < size
    guarded executable =
        elim (Bool-cases (length executable == 0 || leb max_path_length (length executable))) [
          | inl e ↦ rw e h
          | inr e ↦ rw e (strip_file_fits (split_last b'/' executable) size h)
        ]

split_last-none : (c : ℕ) (s : Text) → All (λ x. x ≢ c) s → split_last c s ≡ none
unfolding split_last
split_last-none c [] h = refl
split_last-none c (x ∷ s) h = ground (arith, split_last-none c s h.1)

split_last-append :
    (c : ℕ) (a b : Text) → All (λ x. x ≢ c) b → split_last c (a ++ c ∷ b) ≡ some (a, b)
unfolding split_last
split_last-append c [] b h = ground (arith, split_last-none c b h)
split_last-append c (x ∷ a) b h = ground (arith, split_last-append c a b h)

compose_path_short :
    (root : Text) (size : ℕ)
    → length (root ++ (codes "/lib:" ++ system_library_path)) < size
    → compose_path root size ≡ root ++ (codes "/lib:" ++ system_library_path)
unfolding compose_path
compose_path_short root size h = rw (not_leb _ _ h)
  where
    not_leb : (a b : ℕ) → a < b → leb b a ≡ false
    not_leb a b h = ground arith

-- The two tests on the length of what `readlink` copied.
short_link :
    (s : Text) (c : ℕ) (t : Text) (n : ℕ)
    → length (s ++ c ∷ t) < n
    → (length (s ++ c ∷ t) == 0 || leb n (length (s ++ c ∷ t))) ≡ false
short_link s c t n h = ground (arith, length-append s (c ∷ t))

-- An executable that stands in <root>/bin searches <root>/lib first and the system's directories
-- behind it, if both names are short enough.
pub default_library_path_staged :
    (root name : Text) (size : ℕ)
    → All (λ c. c ≢ b'/') name
    → length ((root ++ codes "/bin") ++ b'/' ∷ name) < max_path_length
    → length (root ++ (codes "/lib:" ++ system_library_path)) < size
    → default_library_path (some ((root ++ codes "/bin") ++ b'/' ∷ name)) size
      ≡ root ++ (codes "/lib:" ++ system_library_path)
unfolding default_library_path
default_library_path_staged root name size clean short fits =
    rw (take_all max_path_length ((root ++ codes "/bin") ++ b'/' ∷ name) (omega arith)) (
      rw (short_link (root ++ codes "/bin") b'/' name max_path_length short) (
        rw (split_last-append b'/' (root ++ codes "/bin") name clean, strip_file)
          (rw (split_last-append b'/' root (codes "bin") (omega arith), strip_bin)
            (rw (str_eq_refl (codes "bin")) (compose_path_short root size fits)))))
