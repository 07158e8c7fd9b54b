-- ===== src/Programs/Routes.antt =====
-- src/http.cc: the routes that `main` registers before it starts its server.
pub mod Printed
use mux.Prelude.{ℕ, Option, none, some, List, [], ◌∷◌}
use mux.Prelude.Bytes.{Bytes, codes}
use mux.Routing.App.{App, new_app, print_all_routes}
use mux.Routing.Router.{Store, Router, Result, ok, thrown, new_router, group, get}

-- The router of `main`, over the one application.
abbrev pub main_router : {M : Type 0} → Router M
main_router = new_router (some 0) []

module _ {H M : Type 0} where
  -- `.Get(path, handler)` on the router that the call before it returned.
  unfoldable pub then_get :
      Result (Router M × Store H M) → Bytes → H → Result (Router M × Store H M)
  then_get (ok (r, store)) path handler = get r path handler store
  then_get (thrown e) path handler = thrown e

  unfoldable pub main_store : Store H M
  main_store p = new_app (codes "3736") (codes "localhost") (codes "HTTP/1.1") none

  -- `router.Get("/", …).Get("/about", …).Get("/contact", …)`
  unfoldable pub first_routes : H → H → H → Result (Router M × Store H M)
  unfolding then_get main_store
  first_routes home about contact =
      let first = get main_router (codes "/") home main_store in
      then_get (then_get first (codes "/about") about) (codes "/contact") contact

  -- `router.Group("/api/v1", nullptr).Get("/about", …).Get("/contact", …)`
  unfoldable pub api_routes : H → H → Result (Router M × Store H M) → Result (Router M × Store H M)
  unfolding then_get
  api_routes about contact (ok (_, store)) =
      let api = group main_router (codes "/api/v1") none in
      then_get (get api (codes "/about") about store) (codes "/contact") contact
  api_routes about contact (thrown e) = thrown e

  -- `App.printAllRoutes()`
  unfoldable pub printed_routes : Result (Router M × Store H M) → Option Bytes
  printed_routes (ok (_, store)) = some (print_all_routes (store 0))
  printed_routes (thrown e) = none
