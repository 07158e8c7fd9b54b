-- ===== src/Http/Header/Built.antt =====
-- mux/Header.hpp: what `toString` prints of a header that was built by calls.
use mux.Prelude.{◌≡◌, sym, ap, ◌∙◌, none, List, [], ◌∷◌, Option-cases, inl, inr, nat_eq, bytes_eq}
use mux.Prelude.Map.{Map, find, subscript}
use mux.Prelude.Map.Distinct.{Distinct, insert-Distinct, erase-Distinct, same-perm}
use mux.Prelude.Bytes.{Bytes}
use mux.Http.Message.{field_lines}
use mux.Http.Header.{
  HttpHeader, Order, new_header, set_header, get_header, remove_header, clear_header, to_string,
}
use mux.Http.Header.Printing.{IsOrder, to_string-lines}
use mux.Http.Header.Abstract.{
  Operation, sets, gets, removes, clears, apply, run, Fields, spec_run, run-fields,
}
use mathlib.Core.List.{Perm}
use mathlib.Core.List.Perm

apply-Distinct :
    (op : Operation) (h : HttpHeader) → Distinct h.headers → Distinct (apply op h).headers
unfolding apply set_header get_header remove_header clear_header subscript
apply-Distinct (sets key value) h d = insert-Distinct key value h.headers d
apply-Distinct (gets key) h d = elim (Option-cases (find key h.headers)) [
  | inl e ↦ rw (e, subscript) (insert-Distinct key [] h.headers d)
  | inr e ↦ rw (e.1, subscript) d
]
apply-Distinct (removes key) h d = erase-Distinct key h.headers d
apply-Distinct clears h d = tt

run-Distinct :
    (ops : List Operation) (h : HttpHeader) → Distinct h.headers → Distinct (run ops h).headers
unfolding run
run-Distinct [] h d = d
run-Distinct (op ∷ ops) h d = run-Distinct ops (apply op h) (apply-Distinct op h d)

abbrev pub no_fields : Fields
no_fields name = none

-- Two headers that were built by calls, in whatever order, with the same fields at the end, print
-- the same lines, equally often, though perhaps in another order: whatever the orders are in which
-- the two maps are iterated.
pub to_string-run :
    (ops ops' : List Operation) (order order' : Order)
    → IsOrder order
    → IsOrder order'
    → spec_run ops no_fields ≡ spec_run ops' no_fields
    → (m m' : Map Bytes Bytes) × (to_string order (run ops new_header) ≡ field_lines m)
      × (to_string order' (run ops' new_header) ≡ field_lines m')
      × Perm m m'
unfolding new_header find
to_string-run ops ops' order order' o o' same =
    let h = run ops new_header in
    let h' = run ops' new_header in
    let agree = run-fields ops new_header ∙ same ∙ sym (run-fields ops' new_header) in
    let entries =
      same-perm h.headers h'.headers (run-Distinct ops new_header tt)
        (run-Distinct ops' new_header tt) (λ name. ap (λ (f : Fields). f name) agree) in
    (
      order h.headers,
      order' h'.headers,
      to_string-lines order h,
      to_string-lines order' h',
      Perm.trans (o _) (Perm.trans entries (Perm.symm (o' _))),
    )
