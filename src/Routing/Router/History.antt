-- ===== src/Routing/Router/History.antt =====
-- mux/Router.hpp: chains of registrations on one router, and the routes that they stand for.
use mux.Prelude.{
  ℕ, ◌≡◌, refl, sym, ap, ◌∙◌, ◌≢◌, Option, none, some, List, [], ◌∷◌, ◌++◌, append_assoc,
  append-nil, arith, nat_eq, bytes_eq, eq_self,
}
use mux.Prelude.Int.{int_eq}
use mux.Prelude.Bytes.{Bytes, codes}
use mux.Routing.App.{
  Route, App, route_line, print_from, print_all_routes, print_all_routes-add, add_handler,
}
use mux.Routing.Router.{
  Store, update, Router, app_not_initialized, Result, ok, thrown, use_middleware, group,
  create_new_route, returning, Method, get, post, put, delete, options, patch, head, web_socket,
}

pub data Verb : Type 0 where
  gets posts puts deletes has_options patches heads sockets : Verb

-- `router.Get(path, handler)` and its like.
pub record Call (H : Type 0) : Type 0 where
  pub verb : Verb
  pub path : Bytes
  pub handler : H

-- The method name that a verb registers under; `WebSocket` registers nothing.
abbrev pub verb_name : Verb → Option Bytes
verb_name gets = some (codes "GET")
verb_name posts = some (codes "POST")
verb_name puts = some (codes "PUT")
verb_name deletes = some (codes "DELETE")
verb_name has_options = some (codes "OPTIONS")
verb_name patches = some (codes "PATCH")
verb_name heads = some (codes "HEAD")
verb_name sockets = none

module _ {H : Type 0} where
  abbrev entry : Bytes → Bytes → H → Option Bytes → List (Route H)
  entry base path handler none = []
  entry base path handler (some method) =
      record { path = base ++ path; method = method; handler = handler; parent = none } ∷ []

  -- The routes that calls stand for, under the base path of their router.
  pub routes_of : Bytes → List (Call H) → List (Route H)
  routes_of base [] = []
  routes_of base (c ∷ calls) =
      entry base c.path c.handler (verb_name c.verb) ++ routes_of base calls

  pub lines : List (Route H) → Bytes
  lines [] = []
  lines (route ∷ routes) = route_line route ++ lines routes

  print_from-lines :
      (result : Bytes) (routes : List (Route H)) → print_from result routes ≡ result ++ lines routes
  unfolding print_from lines
  print_from-lines result [] = sym (append-nil result)
  print_from-lines result (route ∷ routes) =
      print_from-lines (result ++ route_line route) routes ∙ append_assoc result _ _

module _ {H M : Type 0} where
  pub method_of : Verb → Method H M
  method_of gets = get
  method_of posts = post
  method_of puts = put
  method_of deletes = delete
  method_of has_options = options
  method_of patches = patch
  method_of heads = head
  method_of sockets = web_socket

  -- A chain of calls, each on the router that the one before returned.
  pub run : Router M → List (Call H) → Store H M → Result (Router M × Store H M)
  run r [] store = ok (r, store)
  run r (c ∷ calls) store = elim (method_of c.verb r c.path c.handler store) [
    | ok (r', store') ↦ run r' calls store'
    | thrown e ↦ thrown e
  ]

  with_routes : App H M → List (Route H) → App H M
  with_routes a routes = record a { routes = a.routes ++ routes }

  Step : Router M → ℕ → Store H M → List (Route H) → Result (Router M × Store H M) → Type 0
  Step r p store routes result =
      (after : Store H M) × (result ≡ ok (r, after))
      × (after p ≡ with_routes (store p) routes)
      × ((q : ℕ) → q ≢ p → after q ≡ store q)

  create-Step :
      (r : Router M) (p : ℕ) (store : Store H M) (path method : Bytes) (handler : H)
      → r.app ≡ some p
      → Step r p store
          (entry r.base_path path handler (some method))
          (returning r (create_new_route r path method handler store))
  unfolding create_new_route returning Step with_routes
  create-Step r p store path method handler e = (
    update store p (
        add_handler (store p) (record {
          path = r.base_path ++ path;
          method = method;
          handler = handler;
          parent = none;
        })),
    rw (e, create_new_route) refl,
    rw (eq_self p) refl,
    λ q h. ground arith,
  )

  method-Step :
      (r : Router M) (p : ℕ) (store : Store H M) (v : Verb) (path : Bytes) (handler : H)
      → r.app ≡ some p
      → Step r p store
          (entry r.base_path path handler (verb_name v))
          (method_of v r path handler store)
  unfolding method_of get post put delete options patch head web_socket
  method-Step r p store gets path handler e = create-Step r p store path _ handler e
  method-Step r p store posts path handler e = create-Step r p store path _ handler e
  method-Step r p store puts path handler e = create-Step r p store path _ handler e
  method-Step r p store deletes path handler e = create-Step r p store path _ handler e
  method-Step r p store has_options path handler e = create-Step r p store path _ handler e
  method-Step r p store patches path handler e = create-Step r p store path _ handler e
  method-Step r p store heads path handler e = create-Step r p store path _ handler e
  method-Step r p store sockets path handler e =
      unfold Step with_routes in
      (
        store,
        refl,
        λ i. record (store p) { routes = sym (append-nil (store p).routes) i },
        λ q h. refl,
      )

  run-Step :
      (r : Router M) (p : ℕ) (calls : List (Call H)) (store : Store H M)
      → r.app ≡ some p
      → Step r p store (routes_of r.base_path calls) (run r calls store)
  unfolding run routes_of Step with_routes
  run-Step r p [] store e = (
    store,
    refl,
    λ i. record (store p) { routes = sym (append-nil (store p).routes) i },
    λ q h. refl,
  )
  run-Step r p (c ∷ calls) store e =
      let (one, called, here, there) = method-Step r p store c.verb c.path c.handler e in
      let (two, ran, here', there') = run-Step r p calls one e in
      (
        two,
        rw (called, run) ran,
        here' ∙ ap (λ (a : App H M). with_routes a (routes_of r.base_path calls)) here ∙ (λ i.
            record (store p) {
              routes =
                  append_assoc (store p).routes
                    (entry r.base_path c.path c.handler (verb_name c.verb))
                    (routes_of r.base_path calls) i;
            }),
        λ q h. there' q h ∙ there q h,
      )

  -- A chain of calls on a router with an application returns the router and appends to the routes
  -- of that application, in the order of the calls, a route for every call but `WebSocket`, under
  -- the router's base path and the method of the call. The listing grows by their lines, and no
  -- other application changes.
  pub run-registers :
      (r : Router M) (p : ℕ) (calls : List (Call H)) (store : Store H M)
      → r.app ≡ some p
      → (after : Store H M) × (run r calls store ≡ ok (r, after))
        × ((after p).routes ≡ (store p).routes ++ routes_of r.base_path calls)
        × (print_all_routes (after p)
            ≡ print_all_routes (store p) ++ lines (routes_of r.base_path calls))
        × ((q : ℕ) → q ≢ p → after q ≡ store q)
  unfolding Step with_routes
  run-registers r p calls store e =
      let (after, ran, here, there) = run-Step r p calls store e in
      (
        after,
        ran,
        ap (λ (a : App H M). a.routes) here,
        ap print_all_routes here
            ∙ print_all_routes-add (store p) (routes_of r.base_path calls)
            ∙ print_from-lines (print_all_routes (store p)) (routes_of r.base_path calls),
        there,
      )

  -- On a router with no application every method throws, but for `WebSocket`, which returns the
  -- router and leaves all applications as they are.
  pub method_of-null :
      (r : Router M) (store : Store H M) (v : Verb) (path : Bytes) (handler : H)
      → r.app ≡ none
      → method_of v r path handler store
        ≡ (elim (verb_name v) as (λ _. Result (Router M × Store H M)) [
          | some method ↦ thrown app_not_initialized
          | none ↦ ok (r, store)
        ])
  unfolding method_of get post put delete options patch head web_socket create_new_route returning
  method_of-null r store gets path handler e = ground arith
  method_of-null r store _ path handler e = ground arith

module _ {M : Type 0} where
  -- A group in a group is the group of the joined path: it keeps the application, has no middleware
  -- of the routers above it, and has its own handler's if there is one.
  pub group-group :
      (r : Router M) (outer inner : Bytes) (h k : Option M)
      → group (group r outer h) inner k ≡ group r (outer ++ inner) k
  unfolding group use_middleware
  group-group r outer inner none none = ground (arith, append_assoc r.base_path outer inner)
  group-group r outer inner h k = ground (arith, append_assoc r.base_path outer inner)
