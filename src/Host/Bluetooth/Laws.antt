-- ===== src/Host/Bluetooth/Laws.antt =====
-- platform/ubuntu_x86_64/bluetooth/bluetooth_host_x86.c: the discovery thread's steps, and the call that stops it.
use dark_os_svc_kit.Common.{
  ℕ, ◌+◌, ◌%◌, ◌≡◌, refl, ap, sym, subst, Bool, true, false, not, ◌&&◌, ◌||◌, Option, none, some,
  List, [], ◌∷◌, ltb, if◌then◌else◌, length, arith, is_none, Bool-cases, inl, inr,
}
use dark_os_svc_kit.Host.Bluetooth.{
  Priv, Thread, checking, calling, sleeping, leaving, ended, thread_step, step, has_ended, is_on,
  run_to_end, host_bt_stop_discovery,
}

-- The devices are reported in turn, from the first on: a report's index is the number of earlier ones,
-- counted round the table.
abbrev pub InTurn : List ℕ → Type 0
InTurn [] = Unit
InTurn (i ∷ is) = (i ≡ length is % 3) × InTurn is

-- A thread that will report next reports the next device in turn.
abbrev pub Next : List ℕ → Option Thread → Type 0
Next is none = Unit
Next is (some (checking idx)) = idx ≡ length is % 3
Next is (some (calling idx)) = idx ≡ length is % 3
Next is (some (sleeping idx i)) = idx ≡ length is % 3
Next is (some leaving) = Unit
Next is (some ended) = Unit

-- The flags tell the thread's state: it runs exactly while `discovering` is set, and there is one to join
-- exactly while `thread_started` is. It runs on an adapter that is on, and has a callback.
pub record Inv (p : Priv) : Type 0 where
  pub runs : p.discovering ≡ not (has_ended p.thread)
  pub started : p.thread_started ≡ not (is_none p.thread)
  pub powered : (not p.discovering || is_on p.state && p.has_cb) ≡ true
  pub in_turn : InTurn p.reported
  pub next : Next p.reported p.thread

abbrev with_thread : Priv → Bool → Bool → Option Thread → Priv
with_thread p cb discovering thread = record p {
  has_cb = cb;
  discovering = discovering;
  thread = thread;
}

-- Every step of the thread, whatever its callback answers, keeps the invariant.
thread_step-Inv :
    (answer : Bool) (p : Priv) (cb discovering : Bool) (t : Thread)
    → Inv (with_thread p cb discovering (some t))
    → Inv (thread_step answer (with_thread p cb discovering (some t)) t)
unfolding thread_step
thread_step-Inv answer p cb true (checking idx) h = record {
  runs = refl;
  started = h.started;
  powered = h.powered;
  in_turn = h.in_turn;
  next = h.next;
}
thread_step-Inv answer p cb false (checking idx) h = absurd (ground (arith, h.runs))
thread_step-Inv true p true d (calling idx) h = record {
  runs = h.runs;
  started = h.started;
  powered = h.powered;
  in_turn = (h.next, h.in_turn);
  next = tt;
}
thread_step-Inv false p true d (calling idx) h = record {
  runs = h.runs;
  started = h.started;
  powered = h.powered;
  in_turn = (h.next, h.in_turn);
  next = omega (arith, h.next);
}
thread_step-Inv answer p false d (calling idx) h = absurd (ground (arith, h.powered, h.runs))
thread_step-Inv answer p cb d (sleeping idx i) h = go (ltb i 300 && d)
  where
    go :
        (b : Bool)
        → Inv (
            if b
            then with_thread p cb d (some (sleeping idx (i + 1)))
            else with_thread p cb d (some (checking idx)))
    go true = record {
      runs = h.runs;
      started = h.started;
      powered = h.powered;
      in_turn = h.in_turn;
      next = h.next;
    }
    go false = record {
      runs = h.runs;
      started = h.started;
      powered = h.powered;
      in_turn = h.in_turn;
      next = h.next;
    }
thread_step-Inv answer p cb d leaving h = record {
  runs = refl;
  started = h.started;
  powered = refl;
  in_turn = h.in_turn;
  next = tt;
}
thread_step-Inv answer p cb d ended h = h

pub step-Inv : (answer : Bool) (p : Priv) → Inv p → Inv (step answer p)
unfolding step
step-Inv answer p h = go p.thread refl
  where
    go :
        (o : Option Thread)
        → p.thread ≡ o
        → Inv (elim o [ none ↦ p | some t ↦ thread_step answer p t ])
    go none e = h
    go (some t) e =
        let same : p ≡ with_thread p p.has_cb p.discovering (some t) =
          ap (with_thread p p.has_cb p.discovering) e in
        subst (λ q. Inv (thread_step answer q t)) (sym same)
          (thread_step-Inv answer p p.has_cb p.discovering t (subst Inv same h))

-- The state that a stopped discovery leaves.
abbrev pub stopped : Priv → List ℕ → Priv
stopped p is = record p {
  discovering = false;
  thread_started = false;
  thread = none;
  reported = is;
}

and_false : (b : Bool) → (b && false) ≡ false
and_false true = refl
and_false false = refl

Stops : (ℕ → Bool) → Priv → Type 0
Stops answers p =
    (is : List ℕ) × InTurn is × (host_bt_stop_discovery answers p ≡ some (stopped p is))

stops :
    (answers : ℕ → Bool) (p : Priv) (cb : Bool) (o : Option Thread)
    → InTurn p.reported
    → Next p.reported o
    → Stops answers (record p {
      has_cb = cb;
      thread = o;
      discovering = not (has_ended o);
      thread_started = not (is_none o);
    })
unfolding Stops host_bt_stop_discovery run_to_end step thread_step
stops answers p cb none h n = (p.reported, h, refl)
stops answers p cb (some (checking idx)) h n = (p.reported, h, refl)
stops answers p true (some (calling idx)) h n = (
  idx ∷ p.reported,
  (n, h),
  elim (Bool-cases (answers 0)) [ inl e ↦ rw e refl | inr e ↦ rw e refl ],
)
stops answers p false (some (calling idx)) h n = (p.reported, h, refl)
stops answers p cb (some (sleeping idx i)) h n = (p.reported, h, rw (and_false (ltb i 300)) refl)
stops answers p cb (some leaving) h n = (p.reported, h, refl)
stops answers p cb (some ended) h n = (p.reported, h, refl)

-- From every state in which the invariant holds, stopping returns: the thread that was running ends within four
-- steps of its own, whatever its callback answers. No thread is left then, and nothing but the reports has changed.
pub host_bt_stop_discovery_lem :
    (answers : ℕ → Bool) (p : Priv)
    → Inv p
    → (is : List ℕ) × InTurn is × (host_bt_stop_discovery answers p ≡ some (stopped p is))
unfolding Stops
host_bt_stop_discovery_lem answers p h =
    let same : record p {
      has_cb = p.has_cb;
      thread = p.thread;
      discovering = not (has_ended p.thread);
      thread_started = not (is_none p.thread);
    }
        ≡ p =
      cc in
    subst (Stops answers) same (stops answers p p.has_cb p.thread h.in_turn h.next)
