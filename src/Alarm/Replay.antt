-- ===== src/Alarm/Replay.antt =====
-- SvcKit/subsystems/alarm/src/core/alarm_manager.cpp: loadJournal when the journal grows by a line.
use dark_os_svc_kit.Common.{
  ℕ, zero, suc, ◌-◌, ◌≤◌, ◌<◌, ◌≡◌, refl, ap, sym, subst, ◌∙◌, Bool, true, false, some, List, [],
  ◌∷◌, ◌++◌, ltb, ltb→lt, ltb_false→le, Bool-cases, inl, inr, if◌then◌else◌, drop, length,
  length-append, length-drop, Text, mentions, Distinct, str_eq, str_eq→eq, arith,
}
use dark_os_svc_kit.Alarm.Counts.{length-acknowledge_first}
use dark_os_svc_kit.Alarm.{
  Record, Line, event_line, acknowledgement, ignored, broken, trim_front, acknowledge_first,
  find_record, replay, newest,
}

abbrev pub ids : List Record → List Text
ids [] = []
ids (r ∷ rs) = r.event.id ∷ ids rs

-- Every line of a journal parses.
abbrev pub Unbroken : List Line → Type 0
Unbroken [] = Unit
Unbroken (event_line r ∷ ls) = Unbroken ls
Unbroken (acknowledgement id timestamp ∷ ls) = Unbroken ls
Unbroken (ignored ∷ ls) = Unbroken ls
Unbroken (broken ∷ ls) = ⊥

-- What one line does to the records that were read before it.
abbrev read_line : Line → List Record → List Record
read_line (event_line r) rs =
    rs ++ record r { acknowledged = false; acknowledged_timestamp_ns = 0 } ∷ []
read_line (acknowledgement id timestamp) rs = acknowledge_first id timestamp rs
read_line ignored rs = rs
read_line broken rs = rs

pub replay-append :
    (ls : List Line) (l : Line) (rs : List Record)
    → Unbroken ls
    → replay (ls ++ l ∷ []) rs ≡ read_line l (replay ls rs)
unfolding replay
replay-append [] (event_line r) rs u = refl
replay-append [] (acknowledgement id timestamp) rs u = refl
replay-append [] ignored rs u = refl
replay-append [] broken rs u = refl
replay-append (event_line r ∷ ls) l rs u =
    replay-append ls l (rs ++ record r { acknowledged = false; acknowledged_timestamp_ns = 0 } ∷ [])
      u
replay-append (acknowledgement id timestamp ∷ ls) l rs u =
    replay-append ls l (acknowledge_first id timestamp rs) u
replay-append (ignored ∷ ls) l rs u = replay-append ls l rs u
replay-append (broken ∷ ls) l rs u = absurd u

pub Unbroken-append :
    (ls : List Line) (l : Line) → Unbroken ls → Unbroken (l ∷ []) → Unbroken (ls ++ l ∷ [])
Unbroken-append [] l u k = k
Unbroken-append (event_line r ∷ ls) l u k = Unbroken-append ls l u k
Unbroken-append (acknowledgement id timestamp ∷ ls) l u k = Unbroken-append ls l u k
Unbroken-append (ignored ∷ ls) l u k = Unbroken-append ls l u k
Unbroken-append (broken ∷ ls) l u k = absurd u

drop-append : (n : ℕ) (xs ys : List Record) → n ≤ length xs → drop n (xs ++ ys) ≡ drop n xs ++ ys
drop-append zero xs ys h = refl
drop-append (suc n) [] ys h = absurd (omega arith)
drop-append (suc n) (x ∷ xs) ys h = drop-append n xs ys (omega arith)

drop-drop : (n : ℕ) (xs : List Record) → drop 1 (drop n xs) ≡ drop (suc n) xs
drop-drop zero [] = refl
drop-drop zero (x ∷ xs) = refl
drop-drop (suc n) [] = refl
drop-drop (suc n) (x ∷ xs) = drop-drop n xs

newest_long : (m : ℕ) (rs : List Record) → m < length rs → newest m rs ≡ drop (length rs - m) rs
unfolding newest
newest_long m rs h = ground arith

newest_short : (m : ℕ) (rs : List Record) → length rs ≤ m → newest m rs ≡ rs
unfolding newest
newest_short m rs h = ground arith

trim_long : (m : ℕ) (rs : List Record) → m < length rs → trim_front m rs ≡ drop 1 rs
unfolding trim_front
trim_long m rs h = ground arith

trim_short : (m : ℕ) (rs : List Record) → length rs ≤ m → trim_front m rs ≡ rs
unfolding trim_front
trim_short m rs h = ground arith

-- Up to the first record that is too much, both are the same.
newest-trim_front : (m : ℕ) (rs : List Record) → length rs ≤ suc m → newest m rs ≡ trim_front m rs
newest-trim_front m rs l = elim (Bool-cases (ltb m (length rs))) [
  | inl h ↦
      newest_long m rs (ltb→lt _ _ h)
      ∙ ap (λ n. drop n rs) {y = 1} (omega (arith, ltb→lt _ _ h))
      ∙ sym (trim_long m rs (ltb→lt _ _ h))
  | inr h ↦ newest_short m rs (ltb_false→le _ _ h) ∙ sym (trim_short m rs (ltb_false→le _ _ h))
]

-- Trimming after each record keeps what trimming once at the end keeps.
pub newest-append :
    (m : ℕ) (rs : List Record) (r : Record)
    → newest m (rs ++ r ∷ []) ≡ trim_front m (newest m rs ++ r ∷ [])
newest-append m rs r = elim (Bool-cases (ltb m (length rs))) [
  | inl h ↦
      let kept = newest_long m rs (ltb→lt _ _ h) in
      let full : length (drop (length rs - m) rs) ≡ m =
        omega (arith, length-drop (length rs - m) rs, ltb→lt _ _ h) in
      newest_long m (rs ++ r ∷ []) (omega (arith, ltb→lt _ _ h, length-append rs (r ∷ [])))
      ∙ ap (λ n. drop n (rs ++ r ∷ [])) {y = suc (length rs - m)}
          (omega (arith, ltb→lt _ _ h, length-append rs (r ∷ [])))
      ∙ sym (drop-drop (length rs - m) (rs ++ r ∷ []))
      ∙ ap (drop 1) (drop-append (length rs - m) rs (r ∷ []) (omega arith))
      ∙ sym (
          trim_long m (drop (length rs - m) rs ++ r ∷ [])
            (omega (arith, full, length-append (drop (length rs - m) rs) (r ∷ []))))
      ∙ ap (λ x. trim_front m (x ++ r ∷ [])) (sym kept)
  | inr h ↦
      newest-trim_front m (rs ++ r ∷ [])
        (omega (arith, ltb_false→le _ _ h, length-append rs (r ∷ [])))
      ∙ ap (λ x. trim_front m (x ++ r ∷ [])) (sym (newest_short m rs (ltb_false→le _ _ h)))
]

mentions-drop :
    (id : Text) (n : ℕ) (rs : List Record)
    → mentions id (ids rs) ≡ false
    → mentions id (ids (drop n rs)) ≡ false
mentions-drop id zero rs h = h
mentions-drop id (suc n) [] h = h
mentions-drop id (suc n) (r ∷ rs) h = mentions-drop id n rs (ground arith)

-- The record that an acknowledgement finds among the newest is the one that it finds among all.
acknowledge_first-drop :
    (id : Text) (now n : ℕ) (rs : List Record)
    → Distinct (ids rs)
    → mentions id (ids (drop n rs)) ≡ true
    → acknowledge_first id now (drop n rs) ≡ drop n (acknowledge_first id now rs)
unfolding acknowledge_first
acknowledge_first-drop id now zero rs d h = refl
acknowledge_first-drop id now (suc n) [] d h = refl
acknowledge_first-drop id now (suc n) (r ∷ rs) (fresh, d) h =
    go (str_eq r.event.id id) refl (acknowledge_first-drop id now n rs d h)
  where
    go :
        (b : Bool)
        → str_eq r.event.id id ≡ b
        → acknowledge_first id now (drop n rs) ≡ drop n (acknowledge_first id now rs)
        → acknowledge_first id now (drop n rs)
          ≡ drop (suc n) (
              if b
              then record r { acknowledged = true; acknowledged_timestamp_ns = now } ∷ rs
              else r ∷ acknowledge_first id now rs)
    go true e rest = absurd (
        let same = str_eq→eq r.event.id id e in
        let gone = mentions-drop id n rs (subst (λ i. mentions i (ids rs) ≡ false) same fresh) in
        cc)
    go false e rest = rest

pub acknowledge_first-ids :
    (id : Text) (now : ℕ) (rs : List Record) → ids (acknowledge_first id now rs) ≡ ids rs
unfolding acknowledge_first
acknowledge_first-ids id now [] = refl
acknowledge_first-ids id now (r ∷ rs) = ground (arith, acknowledge_first-ids id now rs)

pub acknowledge_first-newest :
    (id : Text) (now m : ℕ) (rs : List Record)
    → Distinct (ids rs)
    → mentions id (ids (newest m rs)) ≡ true
    → acknowledge_first id now (newest m rs) ≡ newest m (acknowledge_first id now rs)
acknowledge_first-newest id now m rs d f = elim (Bool-cases (ltb m (length rs))) [
  | inl h ↦
      let kept = newest_long m rs (ltb→lt _ _ h) in
      ap (acknowledge_first id now) kept
      ∙ acknowledge_first-drop id now (length rs - m) rs d
          (ap (λ x. mentions id (ids x)) (sym kept) ∙ f)
      ∙ ap (λ n. drop (n - m) (acknowledge_first id now rs))
          (sym (length-acknowledge_first id now rs))
      ∙ sym (
          newest_long m (acknowledge_first id now rs)
            (omega (arith, ltb→lt _ _ h, length-acknowledge_first id now rs)))
  | inr h ↦
      ap (acknowledge_first id now) (newest_short m rs (ltb_false→le _ _ h))
      ∙ sym (
          newest_short m (acknowledge_first id now rs)
            (omega (arith, ltb_false→le _ _ h, length-acknowledge_first id now rs)))
]

pub find_record-mentions :
    (id : Text) (rs : List Record) (r : Record)
    → find_record id rs ≡ some r
    → mentions id (ids rs) ≡ true
unfolding find_record
find_record-mentions id [] r h = absurd cc
find_record-mentions id (x ∷ rs) r h = ground (arith, find_record-mentions id rs r)
