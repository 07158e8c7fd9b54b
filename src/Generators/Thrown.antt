-- ===== src/Generators/Thrown.antt =====
-- Socket/Generator.hpp: a generator whose coroutine has thrown.
use mux.Prelude.{◌≡◌, refl, ap, inl, inr, true, false, Bool-cases}
use mux.Generators.{
  Body, yields, returns, throws, Generator, Result, ok, thrown, undefined, resume, fill, with_test,
  has_next, with_value, next,
}

module _ {T : Type 0} where
  -- Not filled, and at its end.
  abbrev IsSpent : Generator T → Type 0
  IsSpent g = (g.full ≡ false) × (g.is_done ≡ true)

  thrown-inj : {A : Type 0} {g h : Generator T} → Path (Result T A) (thrown g) (thrown h) → g ≡ h
  thrown-inj {g = g} e = ap (λ r. elim r [ ok x ↦ g | thrown x ↦ x | undefined ↦ g ]) e

  not_ok : {A : Type 0} (a : A) (g : Generator T) → Path (Result T A) (ok a) (thrown g) → ⊥
  not_ok a g e = cc

  not_undefined_thrown : {A : Type 0} (g : Generator T) → Path (Result T A) undefined (thrown g) → ⊥
  not_undefined_thrown g e = cc

  resume-IsSpent :
      (body : Body T) (g g' : Generator T) → g.full ≡ false → resume body g ≡ thrown g' → IsSpent g'
  unfolding resume
  resume-IsSpent (yields v rest) g g' f h = elim (not_ok _ g' h) [ ]
  resume-IsSpent returns g g' f h = elim (not_ok _ g' h) [ ]
  resume-IsSpent throws g g' f h = rw (← thrown-inj h) (f, refl)

  fill-IsSpent : (g g' : Generator T) → fill g ≡ thrown g' → IsSpent g'
  unfolding fill
  fill-IsSpent g g' h = elim (Bool-cases g.full) [
    | inl e ↦ elim (not_ok _ g' (rw e at h)) [ ]
    | inr e ↦ elim (Bool-cases g.is_done) [
      | inl d ↦ elim (not_undefined_thrown g' (rw (e, d) at h)) [ ]
      | inr d ↦
          resume-IsSpent g.body (record g { full = false; is_done = false }) g' refl
            (rw (e, d) at h)
    ]
  ]

  with_value-thrown :
      (r : Result T (Generator T)) (g' : Generator T) → with_value r ≡ thrown g' → r ≡ thrown g'
  unfolding with_value
  with_value-thrown (ok g) g' h = elim (not_ok _ g' h) [ ]
  with_value-thrown (thrown g) g' h = ap thrown (thrown-inj h)
  with_value-thrown undefined g' h = elim (not_undefined_thrown g' h) [ ]

  -- A generator that has thrown cannot be used again: to test it or to ask it for a value resumes a
  -- coroutine that is at its end.
  next-thrown :
      (g g' : Generator T) → next g ≡ thrown g' → (next g' ≡ undefined) × (has_next g' ≡ undefined)
  unfolding next has_next fill with_value with_test
  next-thrown g g' h =
      let (f, d) = fill-IsSpent g g' (with_value-thrown (fill g) g' h) in rw (f, d) (refl, refl)
