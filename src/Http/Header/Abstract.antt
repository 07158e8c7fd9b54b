-- ===== src/Http/Header/Abstract.antt =====
-- mux/Header.hpp: the header as a partial function on names, which forgets how it was built.
use mux.Prelude.{
  ◌≡◌, refl, sym, ap, ◌∙◌, Option, none, some, List, [], ◌∷◌, arith, if◌then◌else◌, ◌==◌, nat_eq,
  bytes_eq, bytes_beq_iff, ℕ_discrete, ◌↔◌,
}
use mux.Prelude.Map.{find, subscript, find-insert, find-erase}
use mux.Prelude.Bytes.{Bytes}
use mux.Http.Header.{HttpHeader, new_header, set_header, get_header, remove_header, clear_header}
use mux.Http.Header.Laws.{get_header-value, get_header-inserts}
use mathlib.Core.Path.{fun_ext}
use mathlib.Core.Quot.{Setoid, Quotient}
use mathlib.Core.Quot.Quotient

-- A call of a method that writes to the map; `getHeader` does, where it finds nothing.
pub data Operation : Type 0 where
  sets : Bytes → Bytes → Operation
  gets removes : Bytes → Operation
  clears : Operation

unfoldable pub apply : Operation → HttpHeader → HttpHeader
apply (sets key value) h = set_header h key value
apply (gets key) h = (get_header h key).1
apply (removes key) h = remove_header h key
apply clears h = clear_header h

unfoldable pub run : List Operation → HttpHeader → HttpHeader
run [] h = h
run (op ∷ ops) h = run ops (apply op h)

-- What a header is to its reader: a value for some names.
abbrev pub Fields : Type 0
Fields = Bytes → Option Bytes

unfoldable pub or_empty : Option Bytes → Option Bytes
or_empty none = some []
or_empty (some value) = some value

unfoldable pub spec_apply : Operation → Fields → Fields
spec_apply (sets key value) f = λ name. if key == name then some value else f name
spec_apply (gets key) f = λ name. if key == name then or_empty (f name) else f name
spec_apply (removes key) f = λ name. if key == name then none else f name
spec_apply clears f = λ name. none

unfoldable pub spec_run : List Operation → Fields → Fields
spec_run [] f = f
spec_run (op ∷ ops) f = spec_run ops (spec_apply op f)

abbrev pub fields_of : HttpHeader → Fields
fields_of h name = find name h.headers

apply-fields :
    (op : Operation) (h : HttpHeader) → fields_of (apply op h) ≡ spec_apply op (fields_of h)
unfolding apply spec_apply set_header get_header remove_header clear_header subscript or_empty find
apply-fields (sets key value) h = fun_ext (λ name. find-insert key name value h.headers)
apply-fields (gets key) h = fun_ext (λ name.
    ground (arith, get_header-inserts h key name, get_header-value h key, bytes_beq_iff key name))
apply-fields (removes key) h = fun_ext (λ name. find-erase key name h.headers)
apply-fields clears h = refl

pub run-fields :
    (ops : List Operation) (h : HttpHeader) → fields_of (run ops h) ≡ spec_run ops (fields_of h)
unfolding run spec_run
run-fields [] h = refl
run-fields (op ∷ ops) h = run-fields ops (apply op h) ∙ ap (spec_run ops) (apply-fields op h)

-- Headers up to the fields that they have.
abbrev same_fields : Setoid {0, 0} HttpHeader
same_fields = record {
  r = λ h h'. fields_of h ≡ fields_of h';
  iseqv = record { refl = λ h. refl; symm = λ h h' p. sym p; trans = λ a b c p q. p ∙ q };
}

abbrev pub AbstractHeader : Type 0
AbstractHeader = Quotient same_fields

abbrev pub abstract : HttpHeader → AbstractHeader
abstract h = Quotient.mk same_fields h

Fields-set : IsSet Fields
Fields-set = hlevel ℕ_discrete

-- What a reader of an abstract header finds.
pub view : AbstractHeader → Fields
view = Quotient.lift same_fields Fields-set fields_of (λ h h' p. p)

-- A header that was built by calls is the abstract header of what the calls mean, and is so for no
-- other meaning.
pub abstract-run :
    (ops ops' : List Operation) (h h' : HttpHeader)
    → (view (abstract (run ops h)) ≡ spec_run ops (fields_of h))
      × ((abstract (run ops h) ≡ abstract (run ops' h'))
          ↔ (spec_run ops (fields_of h) ≡ spec_run ops' (fields_of h')))
unfolding view Quotient.lift
abstract-run ops ops' h h' = (
  run-fields ops h,
  (
    λ p.
        sym (run-fields ops h)
        ∙ Quotient.exact same_fields (λ a b. Fields-set _ _) p
        ∙ run-fields ops' h',
    λ p. Quotient.sound same_fields (run-fields ops h ∙ p ∙ sym (run-fields ops' h')),
  ),
)

-- The fields that some calls on a new header mean.
abbrev pub IsBuilt : Fields → Type 0
IsBuilt f = ∥ ((ops : List Operation) × (spec_run ops (fields_of new_header) ≡ f)) ∥₁

-- The abstract header that calls on a new header give, if they mean `f`, whichever they are.
abbrev pub IsMeaning : Fields → AbstractHeader → Type 0
IsMeaning f q =
    (view q ≡ f)
    × ((ops : List Operation)
        → spec_run ops (fields_of new_header) ≡ f
        → abstract (run ops new_header) ≡ q)
