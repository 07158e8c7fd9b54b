-- ===== src/Programs/Matcher/Regex.antt =====
-- src/dynamic.cc: how a part of the regular expression that ends at a slash matches one segment.
use mux.Prelude.{
  ℕ, ◌≡◌, refl, ◌≢◌, none, List, [], ◌∷◌, ◌++◌, map, arith, if◌then◌else◌, nat_eq, bytes_eq,
  bytes_beq,
}
use mux.Prelude.Int.{int_eq}
use mux.Prelude.Bytes.{Bytes, Lacks}
use mux.Programs.Matcher.{slash, Item, byte, group, catch, grab, regex_match}

-- The items are at their end, or go on with a slash.
abbrev pub AtSlash : List Item → Type 0
AtSlash [] = Unit
AtSlash (byte c ∷ items) = c ≡ slash
AtSlash (group ∷ items) = ⊥

-- The text is at its end, or goes on with a slash.
abbrev pub IsCut : Bytes → Type 0
IsCut [] = Unit
IsCut (c ∷ s) = c ≡ slash

-- Such items match no text that goes on with something else.
stuck :
    (items : List Item) (c : ℕ) (s : Bytes)
    → AtSlash items
    → c ≢ slash
    → regex_match items (c ∷ s) ≡ none
unfolding regex_match
stuck [] c s a n = refl
stuck (byte d ∷ items) c s a n = ground arith
stuck (group ∷ items) c s a n = elim a [ ]

module _ (items : List Item) (rest : Bytes) (a : AtSlash items) (r : IsCut rest) where
  fixed_end :
      (c : ℕ) (s : Bytes) → c ≢ slash → regex_match (byte c ∷ (map byte s ++ items)) rest ≡ none
  unfolding regex_match
  fixed_end c s n = go rest r
    where
      go : (rest : Bytes) → IsCut rest → regex_match (byte c ∷ (map byte s ++ items)) rest ≡ none
      go [] h = refl
      go (d ∷ more) h = ground arith

  pub fixed-match :
      (s segment : Bytes)
      → Lacks slash s
      → Lacks slash segment
      → regex_match (map byte s ++ items) (segment ++ rest)
        ≡ (if bytes_beq s segment then regex_match items rest else none)
  unfolding regex_match
  fixed-match [] [] l m = refl
  fixed-match [] (d ∷ segment) l m = stuck items d (segment ++ rest) a m.0
  fixed-match (c ∷ s) [] l m = fixed_end c s l.0
  fixed-match (c ∷ s) (d ∷ segment) l m = ground (arith, fixed-match s segment l.1 m.1)

  -- A group takes nothing of a text that is at its cut.
  pub group_end : regex_match (group ∷ items) rest ≡ none
  unfolding regex_match grab
  group_end = go rest r
    where
      go : (rest : Bytes) → IsCut rest → grab (regex_match items) rest ≡ none
      go [] h = refl
      go (d ∷ more) h = ground arith

  -- A group takes one segment, which is not empty.
  pub group-match :
      (c : ℕ) (segment : Bytes)
      → Lacks slash (c ∷ segment)
      → regex_match (group ∷ items) ((c ∷ segment) ++ rest)
        ≡ catch (c ∷ segment) (regex_match items rest)
  unfolding regex_match grab catch
  group-match c [] l = ground (arith, group_end)
  group-match c (d ∷ segment) l =
      ground (arith, group-match d segment l.1, stuck items d (segment ++ rest) a l.1.0)
