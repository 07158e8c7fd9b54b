-- ===== src/Http/Response/Wire.antt =====
-- mux/Response.hpp: `Response::to_string` against the reader of messages.
use mux.Prelude.{◌≡◌, some, [], ◌++◌, append_assoc, arith, All-append, nat_eq, bytes_eq}
use mux.Prelude.Int.{ℤ, int_eq}
use mux.Prelude.Bytes.{Bytes, codes, cr, crlf, Lacks}
use mux.Prelude.Decimal.{print_int, print_int-Lacks}
use mux.Http.Message.{field_lines, read_message, read_message-lines}
use mux.Http.Header
use mux.Http.Header.{Order, HttpHeader}
use mux.Http.Status.Laws.{reason_phrase-Lacks}
use mux.Http.Helpers.{map_to_header_str}
use mux.Http.Response.{Response, to_string, status_phrase}

-- protocol, code and phrase, each apart by a blank
abbrev pub status_line : Response → Bytes
status_line r =
    r.protocol
    ++ (codes " " ++ (print_int r.status_code ++ (codes " " ++ status_phrase r.status_code)))

-- The header lines, the body and the cookies, as the code appends them behind the empty line.
abbrev pub tail_text : Order → Response → Bytes
tail_text order r =
    Header.to_string order r.headers
    ++ (crlf
        ++ (crlf
            ++ (r.body
                ++ (codes "Set-Cookie: "
                    ++ (map_to_header_str order r.cookies (codes "=") (codes "; ") ++ crlf)))))

Lacks-status_phrase : (n : ℤ) → Lacks cr (status_phrase n)
Lacks-status_phrase n = ground (arith, reason_phrase-Lacks cr n)

status_line-Lacks : (r : Response) → Lacks cr r.protocol → Lacks cr (status_line r)
status_line-Lacks r h = All-append _ r.protocol _ h (
  omega arith,
  All-append _ (print_int r.status_code) _ (print_int-Lacks cr r.status_code (omega arith))
      (omega arith, Lacks-status_phrase r.status_code),
)

to_string-shape :
    (order : Order) (r : Response)
    → to_string order r ≡ status_line r ++ (crlf ++ (field_lines [] ++ (crlf ++ tail_text order r)))
unfolding to_string field_lines
to_string-shape order r = simp append_assoc

-- A client reads a serialised response as its status line, no field at all, and a body that
-- begins with the header lines: the empty line stands before the headers.
pub read_message-response_string :
    (order : Order) (r : Response)
    → Lacks cr r.protocol
    → read_message (to_string order r)
      ≡ some (record { start = status_line r; fields = []; body = tail_text order r })
read_message-response_string order r h =
    rw to_string-shape
      (read_message-lines (status_line r) [] (tail_text order r) (status_line-Lacks r h) tt)
