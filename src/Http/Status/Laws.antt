-- ===== src/Http/Status/Laws.antt =====
-- mux/HTTPStatus.hpp: the table of phrases against the enumeration.
use mux.Prelude.{
  ℕ, ◌<◌, ◌≡◌, refl, sym, ap, ◌∙◌, ◌≢◌, ◌↔◌, ◌⊎◌, inl, inr, Bool, true, false, not, ◌&&◌, Option,
  none, some, List, [], ◌∷◌, arith, nat_beq, nat_beq_iff, if◌then◌else◌, Bool-cases, Option-cases,
  All, nat_eq, bytes_eq,
}
use mux.Prelude.Int.{ℤ, pos, negsuc, int_eq}
use mux.Prelude.Map.{Map, find}
use mux.Prelude.Bytes.{Bytes, Lacks}
use mathlib.Core.Bool.{false≢true}
use mux.Http.Status.{Code, value, all_codes, phrases, or_empty, reason_phrase, continue, xxx_max}

-- The enumerators that stand for a status: all but the bound of the enumeration.
abbrev pub IsStatus : ℤ → Type 0
IsStatus n = (c : Code) × (n ≡ pos (value c)) × (c ≢ xxx_max)

find-All {κ} :
    (P : ℕ → Type κ) (m : Map ℕ Bytes) (n : ℕ)
    → All (λ (e : ℕ × Bytes). P e.0) m
    → (find n m ≡ none) ⊎ P n
unfolding find
find-All P [] n h = inl refl
find-All P ((k, v) ∷ m) n (p, h) = elim (Bool-cases (nat_beq k n)) [
  | inl hit ↦ inr (rw (← (nat_beq_iff k n).0 hit) p)
  | inr miss ↦ rw miss (find-All P m n h)
]

is_bound : Code → Bool
is_bound xxx_max = true
is_bound _ = false

passes : ℕ → Code → Bool
passes n c = nat_beq n (value c) && not (is_bound c)

and_not_split : (a b : Bool) → a && not b ≡ true → (a ≡ true) × (b ≡ false)
and_not_split a b h = ground arith

passes_sound : (n : ℕ) (c : Code) → passes n c ≡ true → (n ≡ value c) × (is_bound c ≡ false)
unfolding passes
passes_sound n c h =
    let (same, low) = and_not_split (nat_beq n (value c)) (is_bound c) h in
    ((nat_beq_iff n (value c)).0 same, low)

-- The enumerator with a given value, by trial.
search_code : ℕ → List Code → Option Code
search_code n [] = none
search_code n (c ∷ cs) = if passes n c then some c else search_code n cs

rest :
    (n : ℕ) (c : Code) (cs : List Code)
    → passes n c ≡ false
    → search_code n (c ∷ cs) ≡ search_code n cs
unfolding search_code
rest n c cs miss = rw miss

first_code :
    (n : ℕ) (x c : Code) (cs : List Code)
    → passes n x ≡ true
    → search_code n (x ∷ cs) ≡ some c
    → x ≡ c
unfolding search_code
first_code n x c cs hit h = let h' : some x ≡ some c = rw hit at h in cc

search_code_sound :
    (n : ℕ) (cs : List Code) (c : Code)
    → search_code n cs ≡ some c
    → (n ≡ value c) × (is_bound c ≡ false)
unfolding search_code
search_code_sound n [] c h = cc
search_code_sound n (x ∷ cs) c h = elim (Bool-cases (passes n x)) [
  | inl hit ↦
      let same = first_code n x c cs hit h in
      let both = passes_sound n x hit in (both.0 ∙ ap value same, ap is_bound (sym same) ∙ both.1)
  | inr miss ↦ search_code_sound n cs c (sym (rest n x cs miss) ∙ h)
]

is_known : ℕ → Bool
is_known n = elim (search_code n all_codes) [ some c ↦ true | none ↦ false ]

not_known : (n : ℕ) → search_code n all_codes ≡ none → is_known n ≢ true
unfolding is_known
not_known n e = rw (e, is_known) λ h. cc

xxx_max-ne : (c : Code) → is_bound c ≡ false → c ≢ xxx_max
unfolding is_bound
xxx_max-ne c low e = false≢true (sym low ∙ ap is_bound e)

is_known-IsStatus : (n : ℕ) → is_known n ≡ true → IsStatus (pos n)
unfolding is_known is_bound
is_known-IsStatus n h = elim (Option-cases (search_code n all_codes)) [
  | inl e ↦ absurd (not_known n e h)
  | inr (c, e) ↦
      let (same, low) = search_code_sound n all_codes c e in (c, ap pos same, xxx_max-ne c low)
]

all_known : Map ℕ Bytes → Bool
all_known [] = true
all_known ((k, v) ∷ m) = is_known k && all_known m

all_known-All :
    (m : Map ℕ Bytes) → all_known m ≡ true → All (λ (e : ℕ × Bytes). IsStatus (pos e.0)) m
unfolding all_known
all_known-All [] h = tt
all_known-All ((k, v) ∷ m) h = (is_known-IsStatus k (ground arith), all_known-All m (ground arith))

phrases-All : All (λ (e : ℕ × Bytes). IsStatus (pos e.0)) phrases
unfolding all_known is_known search_code passes value is_bound
phrases-All = all_known-All phrases refl

reason_phrase-IsStatus : (n : ℤ) → reason_phrase n ≢ [] → IsStatus n
unfolding reason_phrase
reason_phrase-IsStatus (negsuc n) h = absurd (h refl)
reason_phrase-IsStatus (pos n) h = elim (find-All (λ k. IsStatus (pos k)) phrases n phrases-All) [
  | inl missing ↦ absurd (h (rw missing refl))
  | inr p ↦ p
]

value-phrase : (c : Code) → c ≢ xxx_max → reason_phrase (pos (value c)) ≢ []
unfolding reason_phrase value
value-phrase continue h = cc
value-phrase xxx_max h = absurd (h refl)
value-phrase _ h = cc

-- `reasonPhrase` has a phrase for a number exactly if the number is a status of the enumeration;
-- for every other number, negative ones included, it returns the empty string.
pub reason_phrase_iff : (n : ℤ) → (reason_phrase n ≢ []) ↔ IsStatus n
reason_phrase_iff n = (reason_phrase-IsStatus n, λ (c, e, h). rw e (value-phrase c h))

-- No phrase holds a control character, so none ends its line.
phrases-Lacks : (k : ℕ) → k < 32 → All (λ (e : ℕ × Bytes). Lacks k e.1) phrases
phrases-Lacks k h = omega arith

or_empty-find-All {κ} :
    (P : Bytes → Type κ) (m : Map ℕ Bytes) (n : ℕ)
    → P []
    → All (λ (e : ℕ × Bytes). P e.1) m
    → P (or_empty (find n m))
unfolding find or_empty
or_empty-find-All P [] n z h = z
or_empty-find-All P ((k, v) ∷ m) n z (p, h) = elim (Bool-cases (nat_beq k n)) [
  | inl hit ↦ rw hit p
  | inr miss ↦ rw miss (or_empty-find-All P m n z h)
]

pub reason_phrase-Lacks : (k : ℕ) (n : ℤ) → k < 32 → Lacks k (reason_phrase n)
unfolding reason_phrase
reason_phrase-Lacks k (pos n) h = or_empty-find-All (Lacks k) phrases n tt (phrases-Lacks k h)
reason_phrase-Lacks k (negsuc n) h = tt
