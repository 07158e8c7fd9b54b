-- ===== src/Http/Request.antt =====
-- mux/Request.hpp: class Request. `path_` is a view on text that something else owns.
pub mod Copies
pub mod Parse
mod Tests
use mux.Http.Header.{Order, HttpHeader, new_header}
use mux.Http.Header
use mux.Prelude.{
  ℕ, zero, suc, ◌+◌, ◌-◌, ◌*◌, ◌/◌, ◌%◌, ◌^◌, ◌≤◌, ◌<◌, ◌≡◌, refl, sym, ap, ◌∙◌, ◌≡⟨◌⟩◌, ◌∎, ◌≢◌,
  ◌↔◌, ◌⊎◌, inl, inr, Bool, true, false, not, ◌&&◌, ◌||◌, Option, none, some, List, [], ◌∷◌, ◌++◌,
  map, append_assoc, append-nil, arith, ltb, leb, nat_beq, nat_beq_iff, if◌then◌else◌, Bool-cases,
  Option-cases, eq-false_of_ne_true, length, take, drop, length-append, take-length,
  drop-length-append, All, All-append, HasEq, ◌==◌, nat_eq, bytes_eq, bytes_beq, bytes_beq_iff,
  eq_self,
}
use mux.Prelude.Int.{ℤ, pos, negsuc, minus_one, int_beq, int_beq_iff, int_eq, is_neg, is_pos}
use mux.Prelude.Map.{
  Map, find, contains, insert, erase, subscript, find-insert, find-erase, contains-find, map_laws,
}
use mux.Prelude.Bytes.{Bytes, codes, cr, lf, crlf, Lacks}
use mux.Prelude.Decimal.{
  print_nat, print_int, read_nat, IsDigit, read_nat-print_nat, print_nat-Lacks, print_int-Lacks,
}

-- What a `std::string_view` member refers to: text that is alive, nothing (a view by default), or
-- text whose owner is gone.
pub data View : Type 0 where
  over : Bytes → View
  null dangling : View

-- struct ParsedRequest
pub record ParsedRequest : Type 0 where
  pub client_fd : ℤ
  pub path : Bytes
  pub protocol : Bytes
  pub host : Bytes
  pub port : Bytes
  pub query : Bytes
  pub body : Bytes

pub record Request : Type 0 where
  pub client_fd : ℤ
  pub method : Bytes
  pub path : View
  pub protocol : Bytes
  pub host : Bytes
  pub port : Bytes
  pub params : Map Bytes Bytes
  pub cookie : Map Bytes Bytes
  pub query : Bytes
  pub body : Bytes
  pub hash_fragment : Bytes
  pub headers : HttpHeader

-- `Request(int)`
pub new_request : ℤ → Request
unfolding new_header
new_request fd = record {
  client_fd = fd;
  method = [];
  path = null;
  protocol = [];
  host = [];
  port = [];
  params = [];
  cookie = [];
  query = [];
  body = [];
  hash_fragment = [];
  headers = new_header;
}

-- `Request(const ParsedRequest&)`: the view is on the argument's path, which the caller keeps
-- alive.
pub from_parsed : ParsedRequest → Request
unfolding new_request
from_parsed p = record (new_request p.client_fd) {
  path = over p.path;
  protocol = p.protocol;
  host = p.host;
  port = p.port;
  query = p.query;
  body = p.body;
}

-- `Request(const Request&)`
pub copy_request : Request → Request
unfolding new_request
copy_request r = record (new_request r.client_fd) {
  method = r.method;
  path = r.path;
  protocol = r.protocol;
  host = r.host;
  port = r.port;
  query = r.query;
  body = r.body;
  hash_fragment = r.hash_fragment;
  headers = r.headers;
}

pub set_method : Request → Bytes → Request
set_method r method = record r { method = method }

pub set_path : Request → View → Request
set_path r path = record r { path = path }

pub set_protocol : Request → Bytes → Request
set_protocol r protocol = record r { protocol = protocol }

pub set_host : Request → Bytes → Request
set_host r host = record r { host = host }

pub set_port : Request → Bytes → Request
set_port r port = record r { port = port }

pub set_query : Request → Bytes → Request
set_query r query = record r { query = query }

pub set_body : Request → Bytes → Request
set_body r body = record r { body = body }

pub set_hash_fragment : Request → Bytes → Request
set_hash_fragment r hash_fragment = record r { hash_fragment = hash_fragment }

unfoldable pub set_header : Request → Bytes → Bytes → Request
set_header r key value = record r { headers = Header.set_header r.headers key value }

unfoldable pub get_header : Request → Bytes → Bytes × Request
get_header r key =
    let (value, headers) = Header.get_header r.headers key in
    (value, record r { headers = headers })

unfoldable pub remove_header : Request → Bytes → Request
remove_header r key = record r { headers = Header.remove_header r.headers key }

pub clear_header : Request → Request
clear_header r = record r { headers = Header.clear_header r.headers }

-- The text before the first NUL, which a `const char*` stands for.
until_nul : Bytes → Bytes
until_nul [] = []
until_nul (c ∷ s) = let rest = until_nul s in if c == 0 then [] else c ∷ rest

-- `std::string + view.data()`: undefined for a null pointer and for a view on nothing alive.
view_data : View → Option Bytes
unfolding until_nul
view_data (over text) = some (until_nul text)
view_data null = none
view_data dangling = none

-- `none` is undefined behaviour.
unfoldable pub to_string : Order → Request → Option Bytes
unfolding view_data
to_string order r = elim (view_data r.path) [
  | none ↦ none
  | some path ↦ some (
      r.method
      ++ (codes " "
          ++ (path
              ++ (codes " "
                  ++ (r.protocol
                      ++ (codes "\n"
                          ++ (codes "Host: "
                              ++ (r.host
                                  ++ (codes "\n"
                                      ++ (codes "Port: "
                                          ++ (r.port
                                              ++ (codes "\n"
                                                  ++ (codes "Query: "
                                                      ++ (r.query
                                                          ++ (codes "\n"
                                                            ++ (codes "Body: "
                                                            ++ (r.body
                                                            ++ (codes "\n"
                                                            ++ Header.to_string order
                                                            r.headers))))))))))))))))))
]
