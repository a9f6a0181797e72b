-- ===== src/Host/Bluetooth/Reach.antt =====
-- platform/ubuntu_x86_64/bluetooth/bluetooth_host_x86.c: the calls and the thread in every interleaving.
use dark_os_svc_kit.Common.{
  ℕ, ◌+◌, ◌≡◌, refl, ap, sym, subst, Bool, true, false, not, ◌&&◌, ◌||◌, Option, none, some, List,
  [], if◌then◌else◌, Text, Errno, Rc, ok, err, is_none, ◌⊎◌, inl, inr, ebusy, einval,
}
use dark_os_svc_kit.Host.Bluetooth.{
  Priv, checking, off, step, is_on, overwritten, host_bt_enable, host_bt_stop_discovery,
  host_bt_disable, host_bt_set_name, host_bt_start_discovery, initial,
}
use dark_os_svc_kit.Host.Bluetooth.Laws.{InTurn, Inv, step-Inv, stopped, host_bt_stop_discovery_lem}

-- One call of the client, or one step of the thread. A failure of pthread_create comes only while there is no thread to
-- join: with one, it would leave `thread_started` with an undefined handle.
pub data Step : Priv → Priv → Type 0 where
  runs : (answer : Bool) (p : Priv) → Step p (step answer p)
  enables : (p : Priv) → Step p (host_bt_enable p)
  disables : (answers : ℕ → Bool) (p q : Priv) → host_bt_disable answers p ≡ some q → Step p q
  names : (name : Option Text) (p : Priv) → Step p (host_bt_set_name p name).0
  starts :
      (create : Option Errno) (cb : Bool) (p : Priv)
      → is_none create ≡ true ⊎ p.thread_started ≡ false
      → Step p (host_bt_start_discovery create cb p).0
  halts : (answers : ℕ → Bool) (p q : Priv) → host_bt_stop_discovery answers p ≡ some q → Step p q

pub data Reach : Priv → Type 0 where
  opened : Reach initial
  then_ : (p q : Priv) → Reach p → Step p q → Reach q

stopped-Inv : (p : Priv) (is : List ℕ) → InTurn is → Inv (stopped p is)
stopped-Inv p is h = record { runs = refl; started = refl; powered = refl; in_turn = h; next = tt }

halted-Inv :
    (answers : ℕ → Bool) (p q : Priv)
    → Inv p
    → host_bt_stop_discovery answers p ≡ some q
    → Inv q × (q.discovering ≡ false)
halted-Inv answers p q h e =
    let (is, turn, e') = host_bt_stop_discovery_lem answers p h in
    let same : stopped p is ≡ q = cc in
    (subst Inv same (stopped-Inv p is turn), ap (λ (r : Priv). r.discovering) (sym same))

start-Inv :
    (create : Option Errno) (cb : Bool) (p : Priv)
    → is_none create ≡ true ⊎ p.thread_started ≡ false
    → Inv p
    → Inv (host_bt_start_discovery create cb p).0
unfolding host_bt_start_discovery
start-Inv create cb p either h = go cb (is_on p.state) p.discovering refl refl create either
  where
    go :
        (b o d : Bool)
        → is_on p.state ≡ o
        → p.discovering ≡ d
        → (c : Option Errno) → is_none c ≡ true ⊎ p.thread_started ≡ false
        → Inv
            (if◌then◌else◌ {A = Priv × Rc}
              (not b)
              (p, err einval)
              (if not o then (p, err einval) else if d then (p, err ebusy) else elim c [
                | some e ↦ (
                  record p {
                    has_cb = true;
                    discovering = false;
                    thread = none;
                    lost = p.lost + overwritten p.thread;
                  },
                  err e,
                )
                | none ↦ (
                  record p {
                    has_cb = true;
                    discovering = true;
                    thread_started = true;
                    thread = some (checking 0);
                    lost = p.lost + overwritten p.thread;
                    reported = [];
                  },
                  ok tt,
                )
              ])).0
    go false o d f g c u = h
    go true false d f g c u = h
    go true true true f g c u = h
    go true true false f g (some e) (inl absent) = absurd cc
    go true true false f g (some e) (inr unstarted) = record {
      runs = refl;
      started = unstarted;
      powered = refl;
      in_turn = h.in_turn;
      next = tt;
    }
    go true true false f g none u = record {
      runs = refl;
      started = refl;
      powered = ap (λ x. x && true) f;
      in_turn = tt;
      next = refl;
    }

disable-Inv : (answers : ℕ → Bool) (p q : Priv) → Inv p → host_bt_disable answers p ≡ some q → Inv q
unfolding host_bt_disable
disable-Inv answers p q h e = go p.discovering refl (host_bt_stop_discovery answers p) refl e
  where
    off-Inv : (r : Priv) → Inv r → r.discovering ≡ false → Inv (record r { state = off })
    off-Inv r k f = record {
      runs = k.runs;
      started = k.started;
      powered = ap (λ x. not x || false) f;
      in_turn = k.in_turn;
      next = k.next;
    }

    go :
        (d : Bool)
        → p.discovering ≡ d
        → (o : Option Priv) → host_bt_stop_discovery answers p ≡ o
        → elim (if d then o else some p) [ none ↦ none | some r ↦ some (record r { state = off }) ]
          ≡ some q
        → Inv q
    go false f o g k =
        let same : record p { state = off } ≡ q = cc in subst Inv same (off-Inv p h f)
    go true f none g k = absurd cc
    go true f (some r) g k =
        let same : record r { state = off } ≡ q = cc in
        let halted = halted-Inv answers p r h g in subst Inv same (off-Inv r halted.0 halted.1)

enable-Inv : (p : Priv) → Inv p → Inv (host_bt_enable p)
unfolding host_bt_enable
enable-Inv p h = record {
  runs = h.runs;
  started = h.started;
  powered = either p.discovering (is_on p.state) p.has_cb h.powered;
  in_turn = h.in_turn;
  next = h.next;
}
  where
    either : (d o c : Bool) → (not d || o && c) ≡ true → (not d || c) ≡ true
    either true true c e = e
    either true false c e = absurd cc
    either false o c e = refl

set_name-Inv : (name : Option Text) (p : Priv) → Inv p → Inv (host_bt_set_name p name).0
unfolding host_bt_set_name
set_name-Inv none p h = h
set_name-Inv (some name) p h = record {
  runs = h.runs;
  started = h.started;
  powered = h.powered;
  in_turn = h.in_turn;
  next = h.next;
}

Step-Inv : (p q : Priv) → Step p q → Inv p → Inv q
Step-Inv p q (runs answer p') h = step-Inv answer p h
Step-Inv p q (enables p') h = enable-Inv p h
Step-Inv p q (disables answers p' q' e) h = disable-Inv answers p q h e
Step-Inv p q (names name p') h = set_name-Inv name p h
Step-Inv p q (starts create cb p' u) h = start-Inv create cb p u h
Step-Inv p q (halts answers p' q' e) h = (halted-Inv answers p q h e).0

-- In every interleaving of a client's calls and the thread's steps, from a fresh device on, in which pthread_create does
-- not fail while a thread that was started has not been joined: a thread runs exactly
-- while `discovering` is set, there is one to join exactly while `thread_started` is, it runs only on an adapter
-- that is on and with a callback, and the devices it has reported are the table's in turn.
pub Reach-Inv : (p : Priv) → Reach p → Inv p
Reach-Inv p opened = record { runs = refl; started = refl; powered = refl; in_turn = tt; next = tt }
Reach-Inv p (then_ q p' r s) = Step-Inv q p s (Reach-Inv q r)
