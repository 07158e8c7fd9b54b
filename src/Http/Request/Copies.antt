-- ===== src/Http/Request/Copies.antt =====
-- mux/Request.hpp: the copy constructor and toString.
use mux.Prelude.{◌≡◌, refl, ◌↔◌, inl, inr, none, some, [], Option-cases, nat_eq, bytes_eq}
use mux.Prelude.Int.{int_eq}
use mux.Prelude.Bytes.{Bytes}
use mux.Http.Header.{Order}
use mux.Http.Request.{
  View, over, null, dangling, Request, new_request, copy_request, view_data, to_string,
}

-- A copy prints as its original does, and is the original but for the parameters and the cookies,
-- which are dropped.
pub to_string-copy_request :
    (order : Order) (r : Request)
    → (to_string order (copy_request r) ≡ to_string order r)
      × (copy_request r ≡ record r { params = []; cookie = [] })
unfolding copy_request new_request to_string
to_string-copy_request order r = (refl, refl)

path-over : (v : View) {text : Bytes} → view_data v ≡ some text → (path : Bytes) × (v ≡ over path)
unfolding view_data
path-over (over path) h = (path, refl)
path-over null h = cc
path-over dangling h = cc

to_string-none : (order : Order) (r : Request) → view_data r.path ≡ none → to_string order r ≡ none
unfolding to_string
to_string-none order r e = rw (e, to_string) refl

to_string-data :
    (order : Order) (r : Request) {text : Bytes}
    → to_string order r ≡ some text
    → (path : Bytes) × (view_data r.path ≡ some path)
to_string-data order r {text} h = elim (Option-cases (view_data r.path)) [
  | inl e ↦ absurd (clash (to_string-none order r e))
  | inr (path, e) ↦ (path, e)
]
  where
    clash : to_string order r ≡ none → ⊥
    clash e = cc

-- A request can be printed exactly if its path is a view on text that is alive.
pub to_string_iff :
    (order : Order) (r : Request)
    → ((text : Bytes) × (to_string order r ≡ some text)) ↔ ((path : Bytes) × (r.path ≡ over path))
to_string_iff order r = (
  λ (text, e). path-over r.path (to_string-data order r e).1,
  λ (path, e). unfold to_string in rw e (_, refl),
)
