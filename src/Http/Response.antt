-- ===== src/Http/Response.antt =====
-- mux/Response.hpp: class Response.
pub mod Wire
pub mod Laws
mod Tests
use mux.Prelude.{
  ℕ, zero, suc, ◌+◌, ◌-◌, ◌*◌, ◌/◌, ◌%◌, ◌^◌, ◌≤◌, ◌<◌, ◌≡◌, refl, sym, ap, ◌∙◌, ◌≡⟨◌⟩◌, ◌∎, ◌≢◌,
  ◌↔◌, ◌⊎◌, inl, inr, Bool, true, false, not, ◌&&◌, ◌||◌, Option, none, some, List, [], ◌∷◌, ◌++◌,
  map, append_assoc, append-nil, arith, ltb, leb, nat_beq, nat_beq_iff, if◌then◌else◌, Bool-cases,
  Option-cases, eq-false_of_ne_true, length, take, drop, length-append, take-length,
  drop-length-append, All, All-append, HasEq, ◌==◌, nat_eq, bytes_eq, bytes_beq, bytes_beq_iff,
  eq_self,
}
use mux.Prelude.Int.{ℤ, pos, negsuc, minus_one, int_beq, int_beq_iff, int_eq, is_neg, is_pos}
use mux.Prelude.Map.{
  Map, find, contains, insert, erase, subscript, find-insert, find-erase, contains-find, map_laws,
}
use mux.Prelude.Bytes.{Bytes, codes, cr, lf, crlf, Lacks}
use mux.Prelude.Decimal.{
  print_nat, print_int, read_nat, IsDigit, read_nat-print_nat, print_nat-Lacks, print_int-Lacks,
}
use mux.Http.Header.{Order, HttpHeader, new_header}
use mux.Http.Header
use mux.Http.Status.{reason_phrase}
use mux.Http.Helpers.{map_to_header_str}

pub record Response : Type 0 where
  pub status_code : ℤ
  pub protocol : Bytes
  pub body : Bytes
  pub headers : HttpHeader
  pub cookies : Map Bytes Bytes

-- `Response()` leaves the status code unset: `unset` is what the memory holds.
pub new_response : ℤ → Response
unfolding new_header
new_response unset = record {
  status_code = unset;
  protocol = codes "HTTP/1.1";
  body = [];
  headers = new_header;
  cookies = [];
}

pub make_response : ℤ → Bytes → HttpHeader → Response
make_response status_code body headers = record {
  status_code = status_code;
  protocol = codes "HTTP/1.1";
  body = body;
  headers = headers;
  cookies = [];
}

pub add_header : Response → Bytes → Bytes → Response
add_header r name value = record r { headers = Header.set_header r.headers name value }

unfoldable pub remove_header : Response → Bytes → Response
remove_header r name = record r { headers = Header.remove_header r.headers name }

pub set_content_type : Response → Bytes → Response
unfolding add_header
set_content_type r type = add_header r (codes "Content-Type") type

pub set_status : Response → ℤ → Response
set_status r status = record r { status_code = status }

pub set_cookie : Response → Bytes → Bytes → Response
set_cookie r name value = record r { cookies = insert name value r.cookies }

pub remove_cookie : Response → Bytes → Response
remove_cookie r name = record r { cookies = erase name r.cookies }

-- The phrase of the status line, "Unknown" for a code that has none.
abbrev pub status_phrase : ℤ → Bytes
status_phrase code =
    let phrase = reason_phrase code in elim phrase [ [] ↦ codes "Unknown" | c ∷ s ↦ c ∷ s ]

unfoldable pub to_string : Order → Response → Bytes
to_string order r =
    r.protocol
    ++ (codes " "
        ++ (print_int r.status_code
            ++ (codes " "
                ++ (status_phrase r.status_code
                    ++ (crlf
                        ++ (crlf
                            ++ (Header.to_string order r.headers
                                ++ (crlf
                                    ++ (crlf
                                        ++ (r.body
                                            ++ (codes "Set-Cookie: "
                                                ++ (map_to_header_str order r.cookies (codes "=")
                                                      (codes "; ")
                                                    ++ crlf))))))))))))
