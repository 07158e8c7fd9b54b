-- ===== src/Programs/Matcher/Tests.antt =====
-- Runs of the matcher of src/dynamic.cc.
use mux.Prelude.{◌≡◌, refl, true, false, some, [], ◌∷◌, arith, nat_eq, bytes_eq}
use mux.Prelude.Int.{int_eq}
use mux.Prelude.Map.{insert}
use mux.Prelude.Bytes.{codes}
use mux.Programs.Matcher.{is_operator, match_url}
use mux.Programs.Matcher.Segments.{fixed, param, template, path}
use mux.Programs.Matcher.Routes.{route, outcome, match_url-route}

-- The calls of `main`, on a URL that matches and on its own.
match_users :
    match_url (codes "/users/{id}") (codes "/users/123") []
    ≡ some (true, (codes "id", codes "123") ∷ [])
unfolding match_url insert
match_users = refl

match_longer : match_url (codes "/users/{id}") (codes "/users/123/ada") [] ≡ some (false, [])
unfolding match_url insert
match_longer = refl

-- A placeholder behind fixed text is matched, but not bound, and what it caught goes to the next
-- one.
match_shifted :
    match_url (codes "/v{major}/{name}") (codes "/v2/ada") []
    ≡ some (true, (codes "name", codes "2") ∷ [])
unfolding match_url insert
match_shifted = refl

match_url-route_example :
    match_url
      (template (fixed (codes "users") ∷ (param (codes "id") ∷ [])))
      (path (codes "users" ∷ (codes "123" ∷ [])))
      []
    ≡ some (
        outcome [] (
          route
            (fixed (codes "users") ∷ (param (codes "id") ∷ []))
            (codes "users" ∷ (codes "123" ∷ []))
            []))
unfolding is_operator
match_url-route_example =
    match_url-route (fixed (codes "users")) (param (codes "id") ∷ [])
      (codes "users" ∷ (codes "123" ∷ [])) [] (ground arith) (omega arith)
