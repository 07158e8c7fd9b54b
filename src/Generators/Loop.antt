-- ===== src/Generators/Loop.antt =====
-- Socket/Generator.hpp: the loop `while (g) { use(g()); }` over a generator.
use mux.Prelude.{
  ℕ, zero, suc, ◌≡◌, refl, sym, ap, ◌∙◌, inl, inr, Bool, true, false, not, Option, none, some, List,
  [], ◌∷◌, if◌then◌else◌, Bool-cases, length, nat_eq, bytes_eq,
}
use mux.Prelude.Int.{int_eq}
use mux.Generators.{
  Body, yields, returns, throws, Generator, Result, ok, thrown, undefined, start, resume, fill,
  with_test, has_next, with_value, next,
}

ok-inj : {T A : Type 0} {a b : A} → Path (Result T A) (ok a) (ok b) → a ≡ b
ok-inj {a = a} e = ap (λ r. elim r [ ok x ↦ x | thrown g ↦ a | undefined ↦ a ]) e

not_thrown : {T A : Type 0} (g : Generator T) (a : A) → Path (Result T A) (thrown g) (ok a) → ⊥
not_thrown g a e = cc

not_undefined : {T A : Type 0} (a : A) → Path (Result T A) undefined (ok a) → ⊥
not_undefined a e = cc

module _ {T : Type 0} where
  -- The body that yields these values and ends.
  unfoldable pub of_list : List T → Body T
  of_list [] = returns
  of_list (x ∷ xs) = yields x (of_list xs)

  consed : Option T → Result T (List T) → Result T (List T)
  consed (some v) (ok xs) = ok (v ∷ xs)
  consed (some v) r = r
  consed none r = undefined

  taken : (Generator T → Result T (List T)) → Result T (Option T × Generator T) → Result T (List T)
  unfolding consed
  taken rest (ok (v, g)) = consed v (rest g)
  taken rest (thrown g) = thrown g
  taken rest undefined = undefined

  tested : (Generator T → Result T (List T)) → Result T (Bool × Generator T) → Result T (List T)
  unfolding next taken
  tested rest (ok (more, g)) = if more then taken rest (next g) else ok []
  tested rest (thrown g) = thrown g
  tested rest undefined = undefined

  -- The values that the loop sees, `rounds` tests at most; a loop cut short is `undefined`.
  pub collect : ℕ → Generator T → Result T (List T)
  unfolding has_next tested
  collect zero g = undefined
  collect (suc rounds) g = tested (collect rounds) (has_next g)

  collect-yields :
      (rounds : ℕ) (v : T) (rest : Body T) (value : Option T)
      → collect
          (suc rounds)
          (record { body = yields v rest; is_done = false; value = value; full = false })
        ≡ consed
            (some v)
            (collect rounds (record { body = rest; is_done = false; value = some v; full = false }))
  unfolding collect has_next tested next taken fill resume with_test with_value
  collect-yields rounds v rest value = refl

  collect-of_list :
      (xs : List T) (value : Option T)
      → collect
          (suc (length xs))
          (record { body = of_list xs; is_done = false; value = value; full = false })
        ≡ ok xs
  unfolding of_list consed
  collect-of_list [] value = unfold collect has_next tested fill resume with_test in refl
  collect-of_list (x ∷ xs) value =
      collect-yields (suc (length xs)) x (of_list xs) value
      ∙ ap (consed (some x)) (collect-of_list xs (some x))

  -- The loop `while (g) { use(g()); }` over a coroutine that yields some values and returns sees
  -- each value once and in order, ends by itself, and never resumes a coroutine at its end.
  pub collect-start : (xs : List T) → collect (suc (length xs)) (start (of_list xs)) ≡ ok xs
  unfolding start
  collect-start xs = collect-of_list xs none

  resume-full : (body : Body T) (g g' : Generator T) → resume body g ≡ ok g' → g'.full ≡ true
  unfolding resume
  resume-full (yields v rest) g g' h = ap (λ (x : Generator T). x.full) (sym (ok-inj h))
  resume-full returns g g' h = ap (λ (x : Generator T). x.full) (sym (ok-inj h))
  resume-full throws g g' h = elim (not_thrown _ g' h) [ ]

  fill-full : (g g' : Generator T) → fill g ≡ ok g' → g'.full ≡ true
  unfolding fill
  fill-full g g' h = elim (Bool-cases g.full) [
    | inl e ↦ ap (λ (x : Generator T). x.full) (sym (ok-inj (rw e at h)))
    | inr e ↦ elim (Bool-cases g.is_done) [
      | inl d ↦ elim (not_undefined g' (rw (e, d) at h)) [ ]
      | inr d ↦ resume-full g.body (record g { full = false; is_done = false }) g' (rw (e, d) at h)
    ]
  ]

  with_test-ok :
      (r : Result T (Generator T)) (b : Bool) (g : Generator T)
      → with_test r ≡ ok (b, g)
      → (r ≡ ok g) × (not g.is_done ≡ b)
  unfolding with_test
  with_test-ok (ok x) b g h =
      let e = ok-inj h in
      let same : x ≡ g = ap (λ (p : Bool × Generator T). p.1) e in
      (ap ok same, rw (← same) (ap (λ (p : Bool × Generator T). p.0) e))
  with_test-ok (thrown x) b g h = elim (not_thrown x (b, g) h) [ ]
  with_test-ok undefined b g h = elim (not_undefined (b, g) h) [ ]

  has_next-full :
      (g : Generator T) (b : Bool) → g.full ≡ true → not g.is_done ≡ b → has_next g ≡ ok (b, g)
  unfolding has_next fill with_test
  has_next-full g b f e = rw (f, e) refl

  -- Testing a generator again changes nothing: the value that the first test fetched is kept.
  pub has_next-has_next :
      (g g' : Generator T) (b : Bool) → has_next g ≡ ok (b, g') → has_next g' ≡ ok (b, g')
  unfolding has_next
  has_next-has_next g g' b h =
      let (filled, tested) = with_test-ok (fill g) b g' h in
      has_next-full g' b (fill-full g g' filled) tested
