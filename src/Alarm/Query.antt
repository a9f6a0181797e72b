-- ===== src/Alarm/Query.antt =====
-- SvcKit/subsystems/alarm/src/core/alarm_manager.cpp: query, and against a plain description.
use dark_os_svc_kit.Common.{
  ℕ, zero, suc, ◌≡◌, refl, ap, sym, Bool, true, false, not, ◌&&◌, ◌||◌, List, [], ◌∷◌, reverse,
  take, filter, ◌⊎◌, inl, inr, ◌↔◌, str_eq→eq, str_eq_refl, arith, if◌then◌else◌, Text,
}
use dark_os_svc_kit.Alarm.{Record, passes}

-- AlarmQuery
pub record Filter : Type 0 where
  pub source : Text
  pub kind : Text
  pub active_only : Bool
  pub limit : ℕ

abbrev pub wanted : Filter → Record → Bool
wanted f r =
    passes f.source r.event.source
    && passes f.kind r.event.kind
    && (not f.active_only || not r.acknowledged)

-- The loop of `query` from the newest record on; `room` is what the limit leaves.
pub collect : Filter → ℕ → List Record → List Record
collect f zero rs = []
collect f (suc room) [] = []
collect f (suc room) (r ∷ rs) =
    let skipped = collect f (suc room) rs in
    let others = collect f room rs in if wanted f r then r ∷ others else skipped

pub query : Filter → List Record → List Record
unfolding collect
query f rs = collect f f.limit (reverse rs)

collect-take :
    (f : Filter) (room : ℕ) (rs : List Record)
    → collect f room rs ≡ take room (filter (wanted f) rs)
unfolding collect
collect-take f zero rs = refl
collect-take f (suc room) [] = refl
collect-take f (suc room) (r ∷ rs) =
    go (wanted f r) (collect-take f (suc room) rs) (collect-take f room rs)
  where
    go :
        (b : Bool)
        → collect f (suc room) rs ≡ take (suc room) (filter (wanted f) rs)
        → collect f room rs ≡ take room (filter (wanted f) rs)
        → (if b then r ∷ collect f room rs else collect f (suc room) rs)
          ≡ take (suc room) (if b then r ∷ filter (wanted f) rs else filter (wanted f) rs)
    go true h k = ap (λ x. r ∷ x) k
    go false h k = h

-- What the manager's interface says of a filter: an empty text asks for nothing, and only records that are not
-- acknowledged are active.
abbrev pub Wants : Filter → Record → Type 0
Wants f r =
    ((f.source ≡ []) ⊎ (f.source ≡ r.event.source))
    × ((f.kind ≡ []) ⊎ (f.kind ≡ r.event.kind))
    × ((f.active_only ≡ false) ⊎ (r.acknowledged ≡ false))

passes-or : (a t : Text) → passes a t ≡ true ↔ ((a ≡ []) ⊎ (a ≡ t))
passes-or [] t = (λ h. inl refl, λ h. refl)
passes-or (c ∷ s) t = (
  λ h. inr (sym (str_eq→eq t (c ∷ s) h)),
  λ h. elim h [ inl e ↦ absurd cc | inr e ↦ rw e (str_eq_refl t) ],
)

wanted-Wants : (f : Filter) (r : Record) → wanted f r ≡ true ↔ Wants f r
wanted-Wants f r = ground (arith, passes-or f.source r.event.source, passes-or f.kind r.event.kind)

-- A query gives the newest records that its filter wants, the newest first, as many as its limit, and it wants a
-- record exactly if the filter's source is empty or the record's, its type is empty or the record's, and the record
-- is not acknowledged or the filter does not ask for active ones only.
pub query-take :
    (f : Filter) (rs : List Record)
    → (query f rs ≡ take f.limit (filter (wanted f) (reverse rs)))
      × ((r : Record) → wanted f r ≡ true ↔ Wants f r)
unfolding query
query-take f rs = (collect-take f f.limit (reverse rs), wanted-Wants f)
