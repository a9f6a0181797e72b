-- ===== src/Media/Queue/Tests.antt =====
-- Runs of the bounded queue.
use dark_os_svc_kit.Common.{ℕ, false, List, [], ◌∷◌, ◌++◌}
use dark_os_svc_kit.Media.Queue.{drop_oldest, Config, Queue}
use dark_os_svc_kit.Media.Queue.Order.{Step, pushing, popping, closing, Within, steps, steps-Within}

abbrev two_places : Config
two_places = record { capacity = 2; policy = drop_oldest }

abbrev one_waits : Queue ℕ
one_waits = record { values = 1 ∷ []; closed = false }

abbrev traffic : List (Step ℕ)
traffic = pushing 2 ∷ pushing 3 ∷ popping ∷ pushing 4 ∷ closing ∷ pushing 5 ∷ []

steps-Within_example :
    Within
      ((steps two_places traffic one_waits).1 ++ (steps two_places traffic one_waits).0.values)
      (1 ∷ 2 ∷ 3 ∷ 4 ∷ 5 ∷ [])
steps-Within_example = steps-Within two_places traffic one_waits
