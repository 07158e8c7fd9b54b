-- ===== src/Http/Header.antt =====
-- mux/Header.hpp: the header map of a request or a response.
pub mod Laws
pub mod Printing
pub mod Abstract
pub mod Built
mod Tests
use mux.Prelude.{
  ℕ, zero, suc, ◌+◌, ◌-◌, ◌*◌, ◌/◌, ◌%◌, ◌^◌, ◌≤◌, ◌<◌, ◌≡◌, refl, sym, ap, ◌∙◌, ◌≡⟨◌⟩◌, ◌∎, ◌≢◌,
  ◌↔◌, ◌⊎◌, inl, inr, Bool, true, false, not, ◌&&◌, ◌||◌, Option, none, some, List, [], ◌∷◌, ◌++◌,
  map, append_assoc, append-nil, arith, ltb, leb, nat_beq, nat_beq_iff, if◌then◌else◌, Bool-cases,
  Option-cases, eq-false_of_ne_true, length, take, drop, length-append, take-length,
  drop-length-append, All, All-append, HasEq, ◌==◌, nat_eq, bytes_eq, bytes_beq, bytes_beq_iff,
  eq_self,
}
use mux.Prelude.Int.{ℤ, pos, negsuc, minus_one, int_beq, int_beq_iff, int_eq, is_neg, is_pos}
use mux.Prelude.Map.{
  Map, find, contains, insert, erase, subscript, find-insert, find-erase, contains-find, map_laws,
}
use mux.Prelude.Bytes.{Bytes, codes, cr, lf, crlf, Lacks}
use mux.Prelude.Decimal.{
  print_nat, print_int, read_nat, IsDigit, read_nat-print_nat, print_nat-Lacks, print_int-Lacks,
}
use mathlib.Core.List.{flat_map}

-- The order in which a `for` over an `unordered_map` meets its entries.
abbrev pub Order : Type 0
Order = Map Bytes Bytes → Map Bytes Bytes

-- class HTTPHeader
pub record HttpHeader : Type 0 where
  pub headers : Map Bytes Bytes

unfoldable pub new_header : HttpHeader
new_header = record { headers = [] }

unfoldable pub set_header : HttpHeader → Bytes → Bytes → HttpHeader
set_header h key value = record h { headers = insert key value h.headers }

-- `return headers[key]`: the value, and the map that the subscript leaves.
unfoldable pub get_header : HttpHeader → Bytes → Bytes × HttpHeader
unfolding subscript
get_header h key =
    let (value, headers) = subscript key [] h.headers in (value, record { headers = headers })

unfoldable pub remove_header : HttpHeader → Bytes → HttpHeader
remove_header h key = record h { headers = erase key h.headers }

pub clear_header : HttpHeader → HttpHeader
clear_header h = record h { headers = [] }

-- One round of the loop of `toString`.
abbrev pub header_line : Bytes × Bytes → Bytes
header_line (key, value) = key ++ (codes ": " ++ (value ++ crlf))

print_from : Bytes → Map Bytes Bytes → Bytes
print_from result [] = result
print_from result (header ∷ rest) = print_from (result ++ header_line header) rest

unfoldable pub to_string : Order → HttpHeader → Bytes
unfolding print_from
to_string order h = print_from [] (order h.headers)
