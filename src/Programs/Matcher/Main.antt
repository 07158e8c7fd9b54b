-- ===== src/Programs/Matcher/Main.antt =====
-- src/dynamic.cc: what `main` prints.
use mux.Prelude.{◌≡◌, refl, Option, none, some, [], ◌∷◌, ◌++◌, Bool, true, false, nat_eq, bytes_eq}
use mux.Prelude.Int.{int_eq}
use mux.Prelude.Map.{Map}
use mux.Prelude.Bytes.{Bytes, codes}
use mux.Programs.Matcher.{match_url}

module _ (order : Map Bytes Bytes → Map Bytes Bytes) where
  -- The loop over the parameters, in the order of the map's iteration.
  param_lines : Map Bytes Bytes → Bytes
  param_lines [] = []
  param_lines ((name, value) ∷ rest) =
      name ++ (codes ": " ++ (value ++ (codes "\n" ++ param_lines rest)))

  outcome_text : Bool × Map Bytes Bytes → Bytes
  unfolding param_lines
  outcome_text (true, params) = codes "Route matched!\n" ++ param_lines (order params)
  outcome_text (false, params) = codes "Route not found!\n"

  -- `main`, or none if its template were outside the model
  pub matcher_main : Option Bytes
  unfolding outcome_text
  matcher_main = elim (match_url (codes "/users/{id}") (codes "/users/123/ada") []) [
    | none ↦ none
    | some outcome ↦ some (outcome_text outcome)
  ]

  -- A placeholder takes no more than one segment, so the URL of `main` does not match its template.
  matcher_main_lem : matcher_main ≡ some (codes "Route not found!\n")
  unfolding matcher_main match_url
  matcher_main_lem = refl
