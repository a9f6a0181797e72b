-- ===== src/Host/Bluetooth/Tests.antt =====
-- Concrete runs of the Bluetooth module.
use dark_os_svc_kit.Common.{ℕ, ◌≡◌, refl, true, false, none, some, List, [], ◌∷◌, eagain, inl}
use dark_os_svc_kit.Host.Bluetooth.{
  Priv, ended, step, thread_step, initial, host_bt_enable, host_bt_start_discovery,
  host_bt_stop_discovery,
}
use dark_os_svc_kit.Host.Bluetooth.Laws.{Inv, InTurn, stopped, host_bt_stop_discovery_lem}
use dark_os_svc_kit.Host.Bluetooth.Reach.{Reach, opened, then_, enables, starts, runs, Reach-Inv}

-- The adapter is on, a discovery starts, reports one device, and its callback asks for the end.
abbrev turned_on : Priv
turned_on = host_bt_enable initial

abbrev discovering : Priv
discovering = (host_bt_start_discovery none true turned_on).0

abbrev before_callback : Priv
before_callback = step false discovering

abbrev behind_loop : Priv
behind_loop = step true before_callback

abbrev by_itself : Priv
by_itself = step false behind_loop

before_callback-Reach : Reach before_callback
before_callback-Reach =
    then_ discovering before_callback
      (then_ turned_on discovering (then_ initial turned_on opened (enables initial))
        (starts none true turned_on (inl refl)))
      (runs false discovering)

by_itself-Reach : Reach by_itself
by_itself-Reach =
    then_ behind_loop by_itself
      (then_ before_callback behind_loop before_callback-Reach (runs true before_callback))
      (runs false behind_loop)

by_itself_ended : (by_itself.thread ≡ some ended) × (by_itself.reported ≡ 0 ∷ [])
unfolding step thread_step host_bt_enable host_bt_start_discovery
by_itself_ended = (refl, refl)

by_itself_powered : by_itself.state ≡ turned_on.state
unfolding step thread_step host_bt_enable host_bt_start_discovery
by_itself_powered = refl

Reach-Inv_example : Inv by_itself
Reach-Inv_example = Reach-Inv by_itself by_itself-Reach

host_bt_stop_discovery_lem_example :
    (is : List ℕ) × InTurn is
    × (host_bt_stop_discovery (λ k. true) before_callback ≡ some (stopped before_callback is))
host_bt_stop_discovery_lem_example =
    host_bt_stop_discovery_lem (λ k. true) before_callback
      (Reach-Inv before_callback before_callback-Reach)

-- A discovery that starts now overwrites the handle of a thread that nobody has joined.
lost_thread : (host_bt_start_discovery none true by_itself).0.lost ≡ 1
unfolding step thread_step host_bt_enable host_bt_start_discovery
lost_thread = refl

-- If pthread_create fails now, stopping joins a handle that names no thread.
abbrev refused : Priv
refused = (host_bt_start_discovery (some eagain) true by_itself).0

refused_join : host_bt_stop_discovery (λ k. true) refused ≡ none
unfolding step thread_step host_bt_enable host_bt_start_discovery host_bt_stop_discovery
refused_join = refl
