-- ===== src/Http/Helpers.antt =====
-- mux/helpers.hpp: a map as text.
use mux.Prelude.{[], ◌∷◌, ◌++◌, nat_eq, bytes_eq}
use mux.Prelude.Int.{int_eq}
use mux.Prelude.Map.{Map}
use mux.Prelude.Bytes.{Bytes, crlf}
use mux.Http.Header.{Order}

print_pairs : Bytes → Bytes → Map Bytes Bytes → Bytes
print_pairs colon splitter [] = []
print_pairs colon splitter ((key, value) ∷ rest) =
    key ++ (colon ++ (value ++ (splitter ++ print_pairs colon splitter rest)))

unfoldable pub map_to_header_str : Order → Map Bytes Bytes → Bytes → Bytes → Bytes
unfolding print_pairs
map_to_header_str order headers colon splitter = print_pairs colon splitter (order headers) ++ crlf
