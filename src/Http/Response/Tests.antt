-- ===== src/Http/Response/Tests.antt =====
-- Witnesses for mux/Response.hpp and the page builder of mux/HTTP.hpp.
use mux.Prelude.{◌≡◌, refl, some, [], ◌∷◌, arith, nat_eq, bytes_eq}
use mux.Prelude.Int.{pos, int_eq}
use mux.Prelude.Bytes.{codes}
use mux.Prelude.Decimal.{print_nat, print_int, read_nat}
use mux.Http.Message.{read_message}
use mux.Http.Header.{Order, HttpHeader, get_header}
use mux.Http.Status.{reason_phrase}
use mux.Http.Response.{Response, make_response, to_string}
use mux.Http.Response.Wire.{status_line, tail_text, read_message-response_string}
use mux.Http.Page.{create_http_response, default_content_type, read-create_http_response}

abbrev as_kept : Order
as_kept m = m

abbrev hello : Response
hello =
    make_response (pos 200) (codes "hi") (record { headers = (codes "Server", codes "mux") ∷ [] })

read_message-response_string_example :
    read_message (to_string as_kept hello)
    ≡ some (record { start = status_line hello; fields = []; body = tail_text as_kept hello })
unfolding make_response
read_message-response_string_example = read_message-response_string as_kept hello (omega arith)

hello_text :
    to_string as_kept hello
    ≡ codes "HTTP/1.1 200 OK\r\n\r\nServer: mux\r\n\r\n\r\nhiSet-Cookie: \r\n\r\n"
unfolding to_string make_response reason_phrase print_int mux.Http.Header.to_string
    mux.Http.Helpers.map_to_header_str
hello_text = refl

read-create_http_response_example :
    (read_message (create_http_response (codes "hello, world") default_content_type)
      ≡ some (record {
        start = codes "HTTP/1.1 200 OK";
        fields =
            (codes "Content-Type", default_content_type)
            ∷ (codes "Content-Length", print_nat 12)
            ∷ [];
        body = codes "hello, world";
      }))
    × (read_nat (print_nat 12) ≡ some 12)
read-create_http_response_example =
    read-create_http_response (codes "hello, world") default_content_type (omega arith)
