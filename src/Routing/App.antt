-- ===== src/Routing/App.antt =====
-- mux/Route.hpp and mux/App.hpp: `struct Route` and `class App`, over any type of handlers and of
-- middlewares.
use mux.Prelude.{◌≡◌, refl, Option, none, some, List, [], ◌∷◌, ◌++◌, nat_eq, bytes_eq}
use mux.Prelude.Int.{int_eq}
use mux.Prelude.Map.{Map}
use mux.Prelude.Bytes.{Bytes, codes}

-- enum class HTTPMethod, which no code uses: routes hold the method's name.
pub data HttpMethod : Type 0 where
  get post put delete options patch head any : HttpMethod

-- `parent` is never anything but null.
pub record Route (H : Type 0) : Type 0 where
  pub path : Bytes
  pub method : Bytes
  pub handler : H
  pub parent : Option (Unit {0})

pub record App (H M : Type 0) : Type 0 where
  pub routes : List (Route H)
  pub host : Bytes
  pub port : Bytes
  pub protocol : Bytes
  pub base_path : Bytes
  pub middlewares : List M
  pub certificates : Map Bytes Bytes

unfoldable pub certificates_of : Option (Map Bytes Bytes) → Map Bytes Bytes
certificates_of none = []
certificates_of (some m) = m

module _ {H M : Type 0} where
  unfoldable pub new_app : Bytes → Bytes → Bytes → Option (Map Bytes Bytes) → App H M
  unfolding certificates_of
  new_app port host protocol certificates = record {
    routes = [];
    host = host;
    port = port;
    protocol = protocol;
    base_path = [];
    middlewares = [];
    certificates = certificates_of certificates;
  }

  -- The app that `Use` returns is a copy of the one that it changed.
  unfoldable pub use_middleware : App H M → M → App H M
  use_middleware a handler = record a { middlewares = a.middlewares ++ handler ∷ [] }

  unfoldable pub add_handler : App H M → Route H → App H M
  add_handler a route = record a { routes = a.routes ++ route ∷ [] }

  -- App::createNewRoute, which is private and has no caller.
  unfoldable pub create_new_route : App H M → Bytes → Bytes → H → App H M
  create_new_route a path method handler = record a {
    routes =
        a.routes ++ record { path = path; method = method; handler = handler; parent = none } ∷ [];
  }

module _ {H : Type 0} where
  abbrev pub route_line : Route H → Bytes
  route_line route = route.method ++ (codes " " ++ (route.path ++ codes "\n"))

  unfoldable pub print_from : Bytes → List (Route H) → Bytes
  print_from result [] = result
  print_from result (route ∷ routes) = print_from (result ++ route_line route) routes

  pub print_from-append :
      (result : Bytes) (routes more : List (Route H))
      → print_from result (routes ++ more) ≡ print_from (print_from result routes) more
  unfolding print_from
  print_from-append result [] more = refl
  print_from-append result (route ∷ routes) more =
      print_from-append (result ++ route_line route) routes more

module _ {H M : Type 0} where
  unfoldable pub print_all_routes : App H M → Bytes
  unfolding print_from
  print_all_routes a = print_from [] a.routes

  -- What `Listen` writes; it opens no socket.
  unfoldable pub listen : App H M → Bytes
  listen a = codes "Listening on " ++ (a.host ++ (codes ":" ++ (a.port ++ codes "\n")))

  pub print_all_routes-add :
      (a : App H M) (routes : List (Route H))
      → print_all_routes (record a { routes = a.routes ++ routes })
        ≡ print_from (print_all_routes a) routes
  unfolding print_all_routes
  print_all_routes-add a routes = print_from-append [] a.routes routes
