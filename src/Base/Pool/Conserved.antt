-- ===== src/Base/Pool/Conserved.antt =====
-- SvcKit/base/runtime/src/BufferPool.cpp: every buffer is in the pool or out, never both.
use dark_os_svc_kit.Common.{
  ℕ, zero, suc, ◌+◌, ◌≡◌, refl, ap, ◌∙◌, Bool, true, some, List, [], ◌∷◌, ◌==◌, ltb, if◌then◌else◌,
  arith,
}
use dark_os_svc_kit.Base.Pool.{Pool, fill, create, acquire, without, contains, release}

abbrev pub count : ℕ → List ℕ → ℕ
count b [] = 0
count b (c ∷ cs) = let n = count b cs in if c == b then suc n else n

-- How often a buffer is in the pool or out.
abbrev pub copies : ℕ → Pool → ℕ
copies b p = count b p.available + count b p.out

-- What clients do: acquiring, when the reference can be allocated or not, and giving back.
pub data Step : Type 0 where
  acquiring : Bool → Step
  releasing : ℕ → Step

pub steps : List Step → Pool → Pool
unfolding acquire release
steps [] p = p
steps (acquiring memory ∷ ss) p = steps ss (acquire memory p).0
steps (releasing b ∷ ss) p = steps ss (release b p)

count-without :
    (b c : ℕ) (bs : List ℕ) → contains c bs ≡ true → count b bs ≡ count b (c ∷ without c bs)
unfolding contains without
count-without b c [] h = absurd cc
count-without b c (d ∷ bs) h = ground (arith, count-without b c bs)

acquire-copies : (b : ℕ) (memory : Bool) (p : Pool) → copies b (acquire memory p).0 ≡ copies b p
unfolding acquire
acquire-copies b memory p = ground arith

release-copies : (b c : ℕ) (p : Pool) → copies b (release c p) ≡ copies b p
unfolding release
release-copies b c p = ground (arith, count-without b c p.out)

steps-copies : (b : ℕ) (ss : List Step) (p : Pool) → copies b (steps ss p) ≡ copies b p
unfolding steps
steps-copies b [] p = refl
steps-copies b (acquiring memory ∷ ss) p =
    steps-copies b ss (acquire memory p).0 ∙ acquire-copies b memory p
steps-copies b (releasing c ∷ ss) p = steps-copies b ss (release c p) ∙ release-copies b c p

count-fill : (b n : ℕ) → count b (fill n) ≡ (if ltb b n then 1 else 0)
unfolding fill
count-fill b zero = ground arith
count-fill b (suc n) = ground (arith, count-fill b n)

-- However buffers are acquired and released, each of the pool's buffers stays in it or out, once in all, and no
-- other buffer comes in: two references never share one.
pub steps_conserve :
    (b capacity n : ℕ) (memory : Bool) (ss : List Step) (p : Pool)
    → create capacity n memory ≡ some p
    → copies b (steps ss p) ≡ (if ltb b n then 1 else 0)
unfolding create
steps_conserve b capacity n memory ss p h =
    let full : p ≡ record { available = fill n; out = [] } = ground arith in
    steps-copies b ss p ∙ ap (copies b) full ∙ omega (arith, count-fill b n)
