-- ===== src/Routing/Tests.antt =====
-- Runs of the routers of mux/Router.hpp on a small application.
use mux.Prelude.{ℕ, ◌≡◌, refl, ◌≢◌, none, some, List, [], ◌∷◌, ◌++◌, nat_eq, bytes_eq}
use mux.Prelude.Int.{int_eq}
use mux.Prelude.Bytes.{codes}
use mux.Routing.App.{new_app, print_all_routes}
use mux.Routing.Router.{Store, Router, ok, new_router}
use mux.Routing.Router.History.{gets, posts, sockets, Call, routes_of, lines, run, run-registers}

abbrev apps : Store ℕ ℕ
apps p = new_app (codes "80") (codes "localhost") (codes "http") none

abbrev api : Router ℕ
api = new_router (some 1) (codes "/api")

abbrev two_calls : List (Call ℕ)
two_calls =
    record { verb = gets; path = codes "/a"; handler = 7 }
    ∷ (record { verb = sockets; path = codes "/b"; handler = 8 }
        ∷ (record { verb = posts; path = codes "/c"; handler = 9 } ∷ []))

run-registers_example :
    (after : Store ℕ ℕ) × (run api two_calls apps ≡ ok (api, after))
    × ((after 1).routes ≡ (apps 1).routes ++ routes_of (codes "/api") two_calls)
    × (print_all_routes (after 1)
        ≡ print_all_routes (apps 1) ++ lines (routes_of (codes "/api") two_calls))
    × ((q : ℕ) → q ≢ 1 → after q ≡ apps q)
unfolding new_router
run-registers_example = run-registers api 1 two_calls apps refl
