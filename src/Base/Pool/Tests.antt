-- ===== src/Base/Pool/Tests.antt =====
-- Runs of the buffer pool.
use dark_os_svc_kit.Common.{◌≡◌, refl, true, false, some, List, [], ◌∷◌}
use dark_os_svc_kit.Base.Pool.{Pool, fill, create, acquire}
use dark_os_svc_kit.Base.Pool.Conserved.{copies, Step, acquiring, releasing, steps, steps_conserve}

abbrev three : Pool
three = record { available = 2 ∷ 1 ∷ 0 ∷ []; out = [] }

abbrev some_steps : List Step
some_steps = acquiring true ∷ acquiring false ∷ acquiring true ∷ releasing 2 ∷ releasing 2 ∷ []

last_out : (acquire true three).1 ≡ some 2
unfolding acquire
last_out = refl

steps_conserve_example : copies 2 (steps some_steps three) ≡ 1
unfolding create fill
steps_conserve_example = steps_conserve 2 64 3 true some_steps three refl
