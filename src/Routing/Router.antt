-- ===== src/Routing/Router.antt =====
-- mux/Router.hpp: `class Router`. Routers share their application through a pointer, so the
-- applications stand in a store. A router has no move constructor (its destructor is its own), so
-- `std::move(*this)` returns a copy and leaves the router as it is.
pub mod History
use mux.Routing.App.{Route, App, add_handler}
use mux.Prelude.{
  ℕ, zero, suc, ◌+◌, ◌-◌, ◌*◌, ◌/◌, ◌%◌, ◌^◌, ◌≤◌, ◌<◌, ◌≡◌, refl, sym, ap, ◌∙◌, ◌≡⟨◌⟩◌, ◌∎, ◌≢◌,
  ◌↔◌, ◌⊎◌, inl, inr, Bool, true, false, not, ◌&&◌, ◌||◌, Option, none, some, List, [], ◌∷◌, ◌++◌,
  map, append_assoc, append-nil, arith, ltb, leb, nat_beq, nat_beq_iff, if◌then◌else◌, Bool-cases,
  Option-cases, eq-false_of_ne_true, length, take, drop, length-append, take-length,
  drop-length-append, All, All-append, HasEq, ◌==◌, nat_eq, bytes_eq, bytes_beq, bytes_beq_iff,
  eq_self,
}
use mux.Prelude.Int.{ℤ, pos, negsuc, minus_one, int_beq, int_beq_iff, int_eq, is_neg, is_pos}
use mux.Prelude.Map.{
  Map, find, contains, insert, erase, subscript, find-insert, find-erase, contains-find, map_laws,
}
use mux.Prelude.Bytes.{Bytes, codes, cr, lf, crlf, Lacks}
use mux.Prelude.Decimal.{
  print_nat, print_int, read_nat, IsDigit, read_nat-print_nat, print_nat-Lacks, print_int-Lacks,
}

-- The applications behind the pointers.
abbrev pub Store : Type 0 → Type 0 → Type 0
Store H M = ℕ → App H M

abbrev pub update : {H M : Type 0} → Store H M → ℕ → App H M → Store H M
update store p a q = if p == q then a else store q

pub record Router (M : Type 0) : Type 0 where
  pub app : Option ℕ
  pub base_path : Bytes
  pub middlewares : List M
  pub certificates : Map Bytes Bytes

pub data Error : Type 0 where
  app_not_initialized : Error

-- The store is written by a call that returns, and left alone by one that throws.
pub data Result (A : Type 0) : Type 0 where
  ok : A → Result A
  thrown : Error → Result A

module _ {M : Type 0} where
  -- `none` is the null pointer.
  unfoldable pub new_router : Option ℕ → Bytes → Router M
  new_router app base_path = record {
    app = app;
    base_path = base_path;
    middlewares = [];
    certificates = [];
  }

  pub use_middleware : Router M → M → Router M
  use_middleware r handler = record r { middlewares = r.middlewares ++ handler ∷ [] }

  unfoldable pub with_handler : Option M → Router M → Router M
  unfolding use_middleware
  with_handler none r = r
  with_handler (some handler) r = use_middleware r handler

  unfoldable pub group : Router M → Bytes → Option M → Router M
  unfolding new_router with_handler
  group r path handler = with_handler handler (new_router r.app (r.base_path ++ path))

-- The shape of a method that registers a handler under a path.
abbrev pub Method : Type 0 → Type 0 → Type 0
Method H M = Router M → Bytes → H → Store H M → Result (Router M × Store H M)

module _ {H M : Type 0} where
  unfoldable pub create_new_route : Router M → Bytes → Bytes → H → Store H M → Result (Store H M)
  unfolding add_handler
  create_new_route r path method handler store = elim r.app [
    | none ↦ thrown app_not_initialized
    | some p ↦ ok (
        update store p (
          add_handler (store p) (record {
            path = r.base_path ++ path;
            method = method;
            handler = handler;
            parent = none;
          })))
  ]

  -- A method that registers returns a copy of its router.
  unfoldable pub returning : Router M → Result (Store H M) → Result (Router M × Store H M)
  returning r (ok store) = ok (r, store)
  returning r (thrown e) = thrown e

  unfoldable pub get : Method H M
  unfolding create_new_route returning
  get r path handler store = returning r (create_new_route r path (codes "GET") handler store)

  pub post : Method H M
  unfolding create_new_route returning
  post r path handler store = returning r (create_new_route r path (codes "POST") handler store)

  unfoldable pub put : Method H M
  unfolding create_new_route returning
  put r path handler store = returning r (create_new_route r path (codes "PUT") handler store)

  pub delete : Method H M
  unfolding create_new_route returning
  delete r path handler store = returning r (create_new_route r path (codes "DELETE") handler store)

  pub options : Method H M
  unfolding create_new_route returning
  options r path handler store =
      returning r (create_new_route r path (codes "OPTIONS") handler store)

  pub patch : Method H M
  unfolding create_new_route returning
  patch r path handler store = returning r (create_new_route r path (codes "PATCH") handler store)

  pub head : Method H M
  unfolding create_new_route returning
  head r path handler store = returning r (create_new_route r path (codes "HEAD") handler store)

  -- WebSocket only prints that it is not implemented.
  pub web_socket : Method H M
  web_socket r path handler store = ok (r, store)
