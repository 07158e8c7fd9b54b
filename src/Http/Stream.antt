-- ===== src/Http/Stream.antt =====
-- `std::istringstream`, `std::getline`, `operator>>` into a string, `find` and `substr`, as
-- mux/Request.hpp uses them.
use mux.Prelude.{
  ℕ, suc, ◌<◌, ◌≡◌, refl, ap, ◌≢◌, inl, inr, Bool, true, false, not, ◌&&◌, ◌||◌, Option, none, some,
  [], ◌∷◌, ◌++◌, arith, ltb, leb, if◌then◌else◌, Bool-cases, length, drop, ◌==◌, nat_eq, bytes_eq,
}
use mux.Prelude.Int.{int_eq}
use mux.Prelude.Bytes.{Bytes, lf, Lacks}
use mathlib.Core.Path.{subst}

pub record Stream : Type 0 where
  pub rest : Bytes
  pub eof : Bool
  pub fail : Bool

abbrev pub open_stream : Bytes → Stream
open_stream text = record { rest = text; eof = false; fail = false }

abbrev push : ℕ → Bytes × Option Bytes → Bytes × Option Bytes
push c (line, rest) = (c ∷ line, rest)

-- The text up to a line feed, and what is behind it; `none` where the text ended first.
pub take_line : Bytes → Bytes × Option Bytes
take_line [] = ([], none)
take_line (c ∷ s) = let longer = push c (take_line s) in if c == lf then ([], some s) else longer

after_line : Bytes × Option Bytes → Bytes × Stream
after_line (line, none) = (line, record { rest = []; eof = true; fail = false })
after_line (line, some rest) = (line, record { rest = rest; eof = false; fail = false })

-- The round on a stream in a good state.
pull : Bytes → Option Bytes × Stream
pull [] = (none, record { rest = []; eof = true; fail = true })
pull (c ∷ s) = let (line, s') = after_line (take_line (c ∷ s)) in (some line, s')

-- The line, if one was read, and the stream after the call.
pub getline : Stream → Option Bytes × Stream
unfolding pull after_line
getline s = if s.eof || s.fail then (none, record s { fail = true }) else pull s.rest

is_space : ℕ → Bool
is_space c = c == 32 || leb 9 c && leb c 13

-- The text behind the next word; `none` if there is no word.
skip_word : Bool → Bytes → Option Bytes
skip_word false [] = none
skip_word true [] = some []
skip_word inside (c ∷ s) =
    let next = skip_word (not (is_space c)) s in if inside && is_space c then some (c ∷ s) else next

-- `stream >> a >> b >> c` succeeds.
unfoldable pub has_three_words : Bytes → Bool
unfolding skip_word is_space
has_three_words s = elim (skip_word false s) [
  | none ↦ false
  | some s' ↦ elim (skip_word false s') [
    | none ↦ false
    | some s'' ↦ elim (skip_word false s'') [ none ↦ false | some t ↦ true ]
  ]
]

-- `s.find(c)`
unfoldable pub find_byte : ℕ → Bytes → Option ℕ
find_byte c [] = none
find_byte c (d ∷ s) =
    let later = elim (find_byte c s) as (λ _. Option ℕ) [ none ↦ none | some i ↦ some (suc i) ] in
    if d == c then some 0 else later

-- `s.substr(i)`; `none` is the exception `std::out_of_range`.
unfoldable pub substr_from : Bytes → ℕ → Option Bytes
substr_from s i = if ltb (length s) i then none else some (drop i s)

pub take_line-lf :
    (line rest : Bytes) → Lacks lf line → take_line (line ++ lf ∷ rest) ≡ (line, some rest)
unfolding take_line
take_line-lf [] rest h = refl
take_line-lf (c ∷ line) rest (d, h) = ground (arith, take_line-lf line rest h)

-- A line that a line feed ends is read off the stream.
pub getline-lf :
    (line rest : Bytes)
    → Lacks lf line
    → getline (open_stream (line ++ lf ∷ rest)) ≡ (some line, open_stream rest)
unfolding getline after_line
getline-lf [] rest h = unfold take_line in refl
getline-lf (c ∷ line) rest h = rw (take_line-lf (c ∷ line) rest h) refl

-- A line read from a stream takes at least one byte off it.
take_line-shorter :
    (c : ℕ) (s rest : Bytes) → (take_line (c ∷ s)).1 ≡ some rest → length rest < length (c ∷ s)
unfolding take_line
take_line-shorter c [] rest h = ground arith
take_line-shorter c (d ∷ s) rest h = ground (arith, take_line-shorter d s rest)

after_line-shorter :
    (p : Bytes × Option Bytes) (n : ℕ)
    → ((rest : Bytes) → p.1 ≡ some rest → length rest < suc n)
    → length (after_line p).1.rest < suc n
unfolding after_line
after_line-shorter (line, none) n h = omega arith
after_line-shorter (line, some rest) n h = h rest refl

pull-shorter :
    (s : Bytes) (line : Bytes) (s' : Stream) → pull s ≡ (some line, s') → length s'.rest < length s
unfolding pull
pull-shorter [] line s' h = cc
pull-shorter (c ∷ s) line s' h =
    subst (λ (t : Stream). length t.rest < length (c ∷ s))
      (ap (λ (p : Option Bytes × Stream). p.1) h)
      (after_line-shorter (take_line (c ∷ s)) (length s) (take_line-shorter c s))

no_line : (s s' : Stream) (line : Bytes) → s.eof || s.fail ≡ true → getline s ≢ (some line, s')
unfolding getline
no_line s s' line bad h =
    let e : ◌≡◌ {A = Option Bytes} none (some line) =
      ap (λ (p : Option Bytes × Stream). p.0) (rw bad at h) in
    cc

pub getline-shorter :
    (s s' : Stream) (line : Bytes) → getline s ≡ (some line, s') → length s'.rest < length s.rest
unfolding getline
getline-shorter s s' line h = elim (Bool-cases (s.eof || s.fail)) [
  | inl bad ↦ absurd (no_line s s' line bad h)
  | inr good ↦ pull-shorter s.rest line s' (rw good at h)
]
