-- ===== src/Base/Pool.antt =====
-- SvcKit/base/runtime/src/BufferPool.cpp: buffers that are handed out and come back. A buffer is its number; the
-- ones that are out are kept beside the pool's vector, whose back is the head of the list here.
use dark_os_svc_kit.Common.{
  ℕ, zero, suc, ◌+◌, Bool, true, false, ◌||◌, Option, none, some, List, [], ◌∷◌, ◌==◌,
  if◌then◌else◌,
}
pub mod Conserved
pub mod Tests

pub record Pool : Type 0 where
  pub available : List ℕ
  pub out : List ℕ

-- The loop of the constructor: `count` buffers, the last one at the back.
pub fill : ℕ → List ℕ
fill zero = []
fill (suc count) = count ∷ fill count

-- `memory` says whether the state and the buffers can be allocated.
pub create : ℕ → ℕ → Bool → Option Pool
unfolding fill
create buffer_capacity buffer_count memory =
    if buffer_capacity == 0 || buffer_count == 0
    then none
    else if memory
    then some (record { available = fill buffer_count; out = [] })
    else none

-- acquire, whose reference can fail to be allocated: then its deleter has put the buffer back.
pub acquire : Bool → Pool → Pool × Option ℕ
acquire memory p = elim (p.available) [
  | [] ↦ (p, none)
  | b ∷ bs ↦ if memory then (record { available = bs; out = b ∷ p.out }, some b) else (p, none)
]

pub without : ℕ → List ℕ → List ℕ
without b [] = []
without b (c ∷ cs) = if c == b then cs else c ∷ without b cs

pub contains : ℕ → List ℕ → Bool
contains b [] = false
contains b (c ∷ cs) = c == b || contains b cs

-- The deleter of a reference, which only a buffer that is out has.
pub release : ℕ → Pool → Pool
unfolding without contains
release b p =
    if contains b p.out then record { available = b ∷ p.available; out = without b p.out } else p
