-- ===== src/Http/Header/Tests.antt =====
-- Witnesses for mux/Header.hpp.
use mux.Prelude.{◌↔◌, bytes_beq_iff, List, ◌≡◌, refl, some, [], ◌∷◌, ◌++◌, arith, nat_eq, bytes_eq}
use mux.Prelude.Int.{int_eq}
use mux.Prelude.Map.{Map, find, insert}
use mux.Prelude.Bytes.{Bytes, codes, crlf}
use mathlib.Core.List.{Perm}
use mathlib.Core.List.Perm
use mathlib.Core.Path.{fun_ext}
use mux.Http.Header.Abstract.{
  Operation, sets, gets, removes, run, spec_apply, or_empty, spec_run, fields_of, view, abstract,
  abstract-run,
}
use mux.Http.Header.Built.{no_fields, to_string-run}
use mux.Http.Message.{read_message, field_lines}
use mux.Http.Header.{Order, HttpHeader, new_header, get_header, to_string}
use mux.Http.Header.Printing.{IsOrder, read_message-header_string}

abbrev accept_html : HttpHeader
accept_html = record { headers = (codes "Accept", codes "text/html") ∷ [] }

abbrev as_kept : Order
as_kept m = m

as_kept-IsOrder : IsOrder as_kept
as_kept-IsOrder m = Perm.refl m

read_message-header_string_example :
    read_message
      (codes "HTTP/1.1 200 OK" ++ (crlf ++ (to_string as_kept accept_html ++ (crlf ++ codes "hi"))))
    ≡ some (record {
      start = codes "HTTP/1.1 200 OK";
      fields = accept_html.headers;
      body = codes "hi";
    })
read_message-header_string_example =
    read_message-header_string as_kept accept_html (codes "HTTP/1.1 200 OK") (codes "hi")
      (omega arith) (omega arith)

-- A read of an absent header prints a line with no value.
printed_after_a_read :
    to_string as_kept (get_header accept_html (codes "Host")).1
    ≡ codes "Accept: text/html\r\nHost: \r\n"
unfolding to_string get_header find insert
printed_after_a_read = refl

abbrev accept : Operation
accept = sets (codes "Accept") (codes "text/html")

abbrev host : Operation
host = sets (codes "Host") (codes "localhost")

-- The same two headers, one of them after a value that is overwritten and one that is removed.
abbrev direct : List Operation
direct = accept ∷ (host ∷ [])

abbrev roundabout : List Operation
roundabout =
    sets (codes "Host") (codes "example.org")
    ∷ (gets (codes "Cookie") ∷ (removes (codes "Cookie") ∷ (host ∷ (accept ∷ []))))

same_meaning : spec_run direct no_fields ≡ spec_run roundabout no_fields
unfolding spec_run spec_apply or_empty
same_meaning = fun_ext (λ name. ground (
  arith,
  bytes_beq_iff (codes "Accept") name,
  bytes_beq_iff (codes "Host") name,
  bytes_beq_iff (codes "Cookie") name,
))

to_string-run_example :
    (m m' : Map Bytes Bytes) × (to_string as_kept (run direct new_header) ≡ field_lines m)
    × (to_string as_kept (run roundabout new_header) ≡ field_lines m')
    × Perm m m'
to_string-run_example =
    to_string-run direct roundabout as_kept as_kept as_kept-IsOrder as_kept-IsOrder same_meaning

abstract-run_example :
    (view (abstract (run direct new_header)) ≡ spec_run direct (fields_of new_header))
    × ((abstract (run direct new_header) ≡ abstract (run roundabout accept_html))
        ↔ (spec_run direct (fields_of new_header) ≡ spec_run roundabout (fields_of accept_html)))
abstract-run_example = abstract-run direct roundabout new_header accept_html
