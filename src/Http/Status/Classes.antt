-- ===== src/Http/Status/Classes.antt =====
-- The class tests of mux/HTTPStatus.hpp against the enumeration.
use mux.Prelude.{
  ℕ, suc, ◌≤◌, ◌<◌, ◌≡◌, refl, ◌≢◌, Bool, true, false, ◌||◌, List, [], ◌∷◌, arith, nat_eq, bytes_eq,
}
use mux.Prelude.Int.{ℤ, pos, int_eq}
use mux.Http.Status.{
  Code, continue, xxx_max, value, is_informational, is_successful, is_redirection, is_client_error,
  is_server_error, is_error,
}
use mux.Http.Status.Laws.{IsStatus}

value_range : (c : Code) → c ≢ xxx_max → (100 ≤ value c) × (value c < 600)
unfolding value
value_range continue h = omega arith
value_range xxx_max h = absurd (h refl)
value_range _ h = omega arith

abbrev pub count : List Bool → ℕ
count [] = 0
count (true ∷ bs) = suc (count bs)
count (false ∷ bs) = count bs

-- The five class tests of the source, in its order.
abbrev pub classes : ℤ → List Bool
classes n =
    is_informational n
    ∷ is_successful n
    ∷ is_redirection n
    ∷ is_client_error n
    ∷ is_server_error n
    ∷ []

one_class :
    (n : ℕ)
    → 100 ≤ n
    → n < 600
    → (count (classes (pos n)) ≡ 1)
      × (is_error (pos n) ≡ is_client_error (pos n) || is_server_error (pos n))
unfolding is_informational is_successful is_redirection is_client_error is_server_error is_error
one_class n lo hi = ground arith

-- Every status of the enumeration passes exactly one of the five class tests, and counts as an
-- error exactly if it is a client error or a server error.
pub status-one_class :
    (n : ℤ)
    → IsStatus n
    → (count (classes n) ≡ 1) × (is_error n ≡ is_client_error n || is_server_error n)
status-one_class n (c, e, h) = let (lo, hi) = value_range c h in rw e (one_class (value c) lo hi)

-- The bound of the enumeration is an error that belongs to no class.
bound_has_no_class :
    (count (classes (pos (value xxx_max))) ≡ 0) × (is_error (pos (value xxx_max)) ≡ true)
unfolding value is_informational is_successful is_redirection is_client_error is_server_error
    is_error
bound_has_no_class = (refl, refl)
