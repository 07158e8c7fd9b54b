-- ===== src/Http/Header/Printing.antt =====
-- mux/Header.hpp: `HTTPHeader::toString` against the reader of messages.
use mux.Prelude.{
  ◌≡◌, refl, sym, ◌∙◌, none, some, [], ◌∷◌, ◌++◌, append_assoc, append-nil, arith, All, nat_eq,
  bytes_eq,
}
use mux.Prelude.Int.{int_eq}
use mux.Prelude.Map.{Map, find, insert, subscript}
use mux.Prelude.Bytes.{Bytes, cr, crlf, Lacks}
use mathlib.Core.List.{Perm, perm_append_comm}
use mathlib.Core.List.Perm
use mux.Http.Message.{IsField, field_lines, read_message, read_message-lines}
use mux.Http.Header.{Order, HttpHeader, get_header, header_line, print_from, to_string}

-- An iteration meets every entry once.
abbrev pub IsOrder : Order → Type 0
IsOrder order = (m : Map Bytes Bytes) → Perm (order m) m

print_from-lines :
    (result : Bytes) (m : Map Bytes Bytes) → print_from result m ≡ result ++ field_lines m
unfolding print_from field_lines
print_from-lines result [] = sym (append-nil result)
print_from-lines result ((key, value) ∷ rest) =
    print_from-lines (result ++ header_line (key, value)) rest ∙ simp append_assoc

pub to_string-lines :
    (order : Order) (h : HttpHeader) → to_string order h ≡ field_lines (order h.headers)
unfolding to_string
to_string-lines order h = print_from-lines [] (order h.headers)

-- Header lines that stand between a start line and a body are read back as the fields of the map,
-- in the order of the iteration, if no name holds a colon or a CR, and no value and not the start
-- line a CR.
pub read_message-header_string :
    (order : Order) (h : HttpHeader) (start body : Bytes)
    → Lacks cr start
    → All IsField (order h.headers)
    → read_message (start ++ (crlf ++ (to_string order h ++ (crlf ++ body))))
      ≡ some (record { start = start; fields = order h.headers; body = body })
read_message-header_string order h start body s ok =
    rw to_string-lines (read_message-lines start (order h.headers) body s ok)

insert-missing :
    (k v : Bytes) (m : Map Bytes Bytes) → find k m ≡ none → insert k v m ≡ m ++ ((k, v) ∷ [])
unfolding find insert
insert-missing k v [] h = refl
insert-missing k v ((j, w) ∷ m) h = ground (arith, insert-missing k v m)

-- Reading a header that is not there adds a line with an empty value to what is printed next.
pub get_header-prints :
    (order : Order) (h : HttpHeader) (key : Bytes)
    → IsOrder order
    → find key h.headers ≡ none
    → (fields : Map Bytes Bytes) × (to_string order (get_header h key).1 ≡ field_lines fields)
      × Perm fields ((key, []) ∷ h.headers)
unfolding get_header subscript
get_header-prints order h key any missing = (
  order (insert key [] h.headers),
  rw (missing, get_header, subscript)
      (to_string-lines order (record { headers = insert key [] h.headers })),
  Perm.trans (any _)
      (rw (insert-missing key [] h.headers missing) (perm_append_comm h.headers ((key, []) ∷ []))),
)
