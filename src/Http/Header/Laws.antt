-- ===== src/Http/Header/Laws.antt =====
-- mux/Header.hpp: the operations of a header map against each other.
use mux.Prelude.{◌≡◌, none, some, [], arith, if◌then◌else◌, ◌==◌, nat_eq, bytes_eq, bytes_beq_iff}
use mux.Prelude.Int.{int_eq}
use mux.Prelude.Map.{find, subscript, find-insert, find-erase}
use mux.Prelude.Bytes.{Bytes}
use mux.Http.Header.{HttpHeader, set_header, get_header, remove_header}

-- The value that a read of a key gives.
abbrev pub value_at : HttpHeader → Bytes → Bytes
value_at h key = elim (find key h.headers) [ some v ↦ v | none ↦ [] ]

pub get_header-value : (h : HttpHeader) (key : Bytes) → (get_header h key).0 ≡ value_at h key
unfolding get_header subscript
get_header-value h key = ground arith

-- A read after a write gives the value written, and other keys read as before.
pub get_header-set_header :
    (h : HttpHeader) (key other value : Bytes)
    → (get_header (set_header h key value) other).0
      ≡ (if key == other then value else (get_header h other).0)
unfolding get_header set_header subscript
get_header-set_header h key other value = ground (arith, find-insert key other value h.headers)

-- A removed key reads as empty, and other keys read as before.
pub get_header-remove_header :
    (h : HttpHeader) (key other : Bytes)
    → (get_header (remove_header h key) other).0
      ≡ (if key == other then [] else (get_header h other).0)
unfolding get_header remove_header subscript
get_header-remove_header h key other = ground (arith, find-erase key other h.headers)

-- A read leaves its key present, bound to the value read, and binds no other key anew.
pub get_header-inserts :
    (h : HttpHeader) (key other : Bytes)
    → find other (get_header h key).1.headers
      ≡ (if key == other then some (get_header h key).0 else find other h.headers)
unfolding get_header subscript
get_header-inserts h key other =
    ground (arith, find-insert key other [] h.headers, bytes_beq_iff key other)
