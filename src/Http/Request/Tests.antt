-- ===== src/Http/Request/Tests.antt =====
-- Witnesses for mux/Request.hpp.
use mux.Prelude.{◌≡◌, refl, ◌≢◌, none, some, [], ◌∷◌, ◌++◌, arith, nat_eq, bytes_eq}
use mux.Prelude.Int.{pos, int_eq}
use mux.Prelude.Map.{Map, find, insert, subscript}
use mux.Prelude.Bytes.{Bytes, codes, crlf}
use mux.Http.Stream.{has_three_words}
use mux.Http.Header.{Order, HttpHeader}
use mux.Http.Header
use mux.Http.Request.{over, Request, new_request, set_path, get_header, set_header, to_string}
use mux.Http.Request.Parse.{Ada, no_fuel, ok, stop, parse}
use mux.Http.Request.Parse.Refusal.{parse-crlf}
use mux.Http.Request.Parse.Effects.{Same, parse-effects}
use mux.Http.Request.Parse.Fuel.{parse-Ends}
use mux.Http.Request.Parse.Lines.{store}
use mux.Http.Request.Parse.Accept.{request_text, parse-accepts}

abbrev as_kept : Order
as_kept m = m

-- A URL parser that takes every text for a path.
abbrev any_path : Ada
any_path text = some (record { pathname = text; search = codes "?q"; hash = codes "#h" })

abbrev fresh : Request
fresh = new_request (pos 4)

-- A request on which a path and a host are set before it parses.
abbrev hosted : Request
hosted = set_header (set_path fresh (over (codes "/a"))) (codes "Host") (codes "h:80")

abbrev crlf_text : Bytes
crlf_text = codes "GET / HTTP/1.1" ++ (crlf ++ (codes "Host: h" ++ (crlf ++ crlf)))

abbrev fields : Map Bytes Bytes
fields = (codes "A", codes "1") ∷ []

abbrev lf_text : Bytes
lf_text = request_text (codes "GET / HTTP/1.1") fields (codes "body")

parse-crlf_example : (parse any_path crlf_text hosted).0 ≢ ok tt
parse-crlf_example =
    parse-crlf any_path (codes "GET / HTTP/1.1") (codes "Host: h") crlf hosted (omega arith)
      (omega arith)

parse-Ends_example : (parse any_path lf_text hosted).0 ≢ stop no_fuel
parse-Ends_example = parse-Ends any_path lf_text hosted

parse-accepts_example :
    ((parse any_path lf_text hosted).0 ≡ ok tt)
    × ((parse any_path lf_text hosted).1.headers ≡ store fields hosted.headers)
    × ((parse any_path lf_text hosted).1.query ≡ codes "?q")
    × ((parse any_path lf_text hosted).1.hash_fragment ≡ codes "#h")
    × ((parse any_path lf_text hosted).1.body ≡ lf_text)
unfolding new_request set_header set_path get_header subscript Header.get_header Header.set_header
    find insert has_three_words
parse-accepts_example =
    parse-accepts any_path hosted (codes "GET / HTTP/1.1") (codes "body") fields (codes "/a")
      (record { pathname = codes "/a"; search = codes "?q"; hash = codes "#h" }) b'h' (codes ":80")
      (omega arith) refl (omega arith) refl refl refl

parse-effects_example :
    Same hosted (parse any_path lf_text hosted).1
    × (to_string as_kept (parse any_path lf_text hosted).1 ≡ none)
parse-effects_example = parse-effects any_path lf_text hosted as_kept parse-accepts_example.0
