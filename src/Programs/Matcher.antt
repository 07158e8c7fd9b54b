-- ===== src/Programs/Matcher.antt =====
-- src/dynamic.cc: `match`, which turns a template such as `/users/{id}` into a regular expression
-- and reads the parameters of a URL out of its groups. A template whose fixed text has a character
-- that is an operator of regular expressions is outside the model.
pub mod Regex
pub mod Segments
pub mod Routes
pub mod Main
mod Tests
use mux.Prelude.{
  ℕ, zero, suc, ◌+◌, ◌-◌, ◌*◌, ◌/◌, ◌%◌, ◌^◌, ◌≤◌, ◌<◌, ◌≡◌, refl, sym, ap, ◌∙◌, ◌≡⟨◌⟩◌, ◌∎, ◌≢◌,
  ◌↔◌, ◌⊎◌, inl, inr, Bool, true, false, not, ◌&&◌, ◌||◌, Option, none, some, List, [], ◌∷◌, ◌++◌,
  map, append_assoc, append-nil, arith, ltb, leb, nat_beq, nat_beq_iff, if◌then◌else◌, Bool-cases,
  Option-cases, eq-false_of_ne_true, length, take, drop, length-append, take-length,
  drop-length-append, All, All-append, HasEq, ◌==◌, nat_eq, bytes_eq, bytes_beq, bytes_beq_iff,
  eq_self, ne_of_beq,
}
use mux.Prelude.Int.{ℤ, pos, negsuc, minus_one, int_beq, int_beq_iff, int_eq, is_neg, is_pos}
use mux.Prelude.Map.{
  Map, find, contains, insert, erase, subscript, find-insert, find-erase, contains-find, map_laws,
}
use mux.Prelude.Bytes.{Bytes, codes, cr, lf, crlf, Lacks}
use mux.Prelude.Decimal.{
  print_nat, print_int, read_nat, IsDigit, read_nat-print_nat, print_nat-Lacks, print_int-Lacks,
}

abbrev pub slash : ℕ
slash = b'/'

-- What the expression is made of: a byte of the template, or `([^/]+)` for a placeholder.
pub data Item : Type 0 where
  byte : ℕ → Item
  group : Item

-- `regex_replace` with `\{([^}]+)\}`. The first argument is what was read behind a brace that may
-- open a placeholder.
pub scan : Option Bytes → Bytes → List Item
scan none [] = []
scan (some name) [] = byte b'{' ∷ map byte name
scan none (c ∷ s) =
    let opened = scan (some []) s in
    let fixed = byte c ∷ scan none s in if c == b'{' then opened else fixed
scan (some []) (c ∷ s) =
    let empty = byte b'{' ∷ (byte c ∷ scan none s) in
    let longer = scan (some (c ∷ [])) s in if c == b'}' then empty else longer
scan (some (d ∷ name)) (c ∷ s) =
    let closed = group ∷ scan none s in
    let longer = scan (some ((d ∷ name) ++ (c ∷ []))) s in if c == b'}' then closed else longer

-- The operators of ECMAScript's regular expressions: $ ( ) * + . ? [ \ ] ^ { | }
pub is_operator : ℕ → Bool
is_operator c =
    (c == 36)
    || ((c == 40)
        || ((c == 41)
            || ((c == 42)
                || ((c == 43)
                    || ((c == 46)
                        || ((c == 63)
                            || ((c == 91)
                                || ((c == 92)
                                    || ((c == 93)
                                        || ((c == 94)
                                            || ((c == 123) || ((c == 124) || (c == 125)))))))))))))

-- Whether all fixed text stands for itself.
pub is_plain : List Item → Bool
unfolding is_operator
is_plain [] = true
is_plain (byte c ∷ items) = not (is_operator c) && is_plain items
is_plain (group ∷ items) = is_plain items

-- The bytes that a group has taken, in front of its first one.
pub widen : ℕ → Option (List Bytes) → Option (List Bytes)
widen c none = none
widen c (some []) = some []
widen c (some (s ∷ caught)) = some ((c ∷ s) ∷ caught)

pub catch : Bytes → Option (List Bytes) → Option (List Bytes)
catch s none = none
catch s (some caught) = some (s ∷ caught)

pub or_else : Option (List Bytes) → Option (List Bytes) → Option (List Bytes)
or_else none b = b
or_else (some a) b = some a

-- `[^/]+`, the longest choice first; `rest` matches what follows.
pub grab : (Bytes → Option (List Bytes)) → Bytes → Option (List Bytes)
unfolding widen catch or_else
grab rest [] = none
grab rest (c ∷ s) =
    if c == slash then none else or_else (widen c (grab rest s)) (catch (c ∷ []) (rest s))

-- `regex_match`: the groups of the whole text.
pub regex_match : List Item → Bytes → Option (List Bytes)
unfolding grab
regex_match [] [] = some []
regex_match [] (c ∷ s) = none
regex_match (byte c ∷ items) [] = none
regex_match (byte c ∷ items) (d ∷ s) = if d == c then regex_match items s else none
regex_match (group ∷ items) s = grab (regex_match items) s

-- The segments that `getline` reads; the first argument is the one that is being read.
pub split : Bytes → Bytes → List Bytes
split [] [] = []
split (d ∷ segment) [] = (d ∷ segment) ∷ []
split segment (c ∷ s) =
    let ended = segment ∷ split [] s in
    let longer = split (segment ++ (c ∷ [])) s in if c == slash then ended else longer

-- `segment[0] == '{'`
pub opens : Bytes → Bool
opens [] = false
opens (c ∷ s) = c == b'{'

-- `segment.substr(1, segment.size() - 2)`, of a segment that is not empty. For a size of 1 the
-- difference wraps round, to a length that takes all that is left.
pub param_name : Bytes → Bytes
param_name s = take (if ltb (length s) 2 then length s else length s - 2) (drop 1 s)

-- `match[i]`; a group that there is none of is empty.
pub first_group : List Bytes → Bytes
first_group [] = []
first_group (s ∷ caught) = s

pub later_groups : List Bytes → List Bytes
later_groups [] = []
later_groups (s ∷ caught) = caught

-- The loop over the segments, with the groups that are left.
pub bind_params : List Bytes → List Bytes → Map Bytes Bytes → Map Bytes Bytes
unfolding opens param_name first_group later_groups
bind_params [] caught params = params
bind_params (s ∷ segments) caught params =
    bind_params segments (if opens s then later_groups caught else caught)
      (if opens s then insert (param_name s) (first_group caught) params else params)

bound_by : Bytes → Option (List Bytes) → Map Bytes Bytes → Bool × Map Bytes Bytes
unfolding split bind_params
bound_by template none params = (false, params)
bound_by template (some caught) params = (true, bind_params (split [] template) caught params)

-- `match`, or none if the template is outside the model
pub match_url : Bytes → Bytes → Map Bytes Bytes → Option (Bool × Map Bytes Bytes)
unfolding scan is_plain regex_match bound_by
match_url template url params =
    let items = scan none template in
    if is_plain items then some (bound_by template (regex_match items url) params) else none
