-- ===== src/Http/Page.antt =====
-- mux/HTTP.hpp: `createHttpResponse`.
use mux.Prelude.{◌≡◌, some, [], ◌∷◌, ◌++◌, append_assoc, arith, length, nat_eq, bytes_eq}
use mux.Prelude.Int.{int_eq}
use mux.Prelude.Map.{Map}
use mux.Prelude.Bytes.{Bytes, codes, cr, crlf, Lacks}
use mux.Prelude.Decimal.{print_nat, read_nat, read_nat-print_nat, print_nat-Lacks}
use mux.Http.Message.{field_lines, read_message, read_message-lines}

-- The default of the second parameter.
abbrev pub default_content_type : Bytes
default_content_type = codes "text/plain"

pub create_http_response : Bytes → Bytes → Bytes
create_http_response content content_type =
    codes "HTTP/1.1 200 OK\r\n"
    ++ (codes "Content-Type: "
        ++ (content_type
            ++ (crlf
                ++ (codes "Content-Length: "
                    ++ (print_nat (length content) ++ (crlf ++ (crlf ++ content)))))))

abbrev page_fields : Bytes → Bytes → Map Bytes Bytes
page_fields content content_type =
    (codes "Content-Type", content_type) ∷ (codes "Content-Length", print_nat (length content)) ∷ []

create-shape :
    (content content_type : Bytes)
    → create_http_response content content_type
      ≡ codes "HTTP/1.1 200 OK"
        ++ (crlf ++ (field_lines (page_fields content content_type) ++ (crlf ++ content)))
unfolding create_http_response field_lines
create-shape content content_type = simp append_assoc

-- A client reads from the text that the builder makes the status line, the content type, and the
-- content as the body; the length field reads as the number of the body's bytes. The content type
-- must hold no CR.
pub read-create_http_response :
    (content content_type : Bytes)
    → Lacks cr content_type
    → (read_message (create_http_response content content_type)
        ≡ some (record {
          start = codes "HTTP/1.1 200 OK";
          fields =
              (codes "Content-Type", content_type)
              ∷ (codes "Content-Length", print_nat (length content))
              ∷ [];
          body = content;
        }))
      × (read_nat (print_nat (length content)) ≡ some (length content))
read-create_http_response content content_type h = (
  rw create-shape (
      read_message-lines (codes "HTTP/1.1 200 OK") (page_fields content content_type) content
        (omega arith)
        (
          (omega arith, omega arith, h),
          ((omega arith, omega arith, print_nat-Lacks cr (length content) (omega arith)), tt),
        )),
  read_nat-print_nat (length content),
)
