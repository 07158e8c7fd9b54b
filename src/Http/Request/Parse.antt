-- ===== src/Http/Request/Parse.antt =====
-- mux/Request.hpp: `Request::parse`, with the URL parser of ada as an argument.
mod Steps
pub mod Refusal
pub mod Effects
pub mod Fuel
pub mod Lines
pub mod Accept
use mux.Prelude.{
  ℕ, zero, suc, ◌+◌, ◌-◌, ◌*◌, ◌/◌, ◌%◌, ◌^◌, ◌≤◌, ◌<◌, ◌≡◌, refl, sym, ap, ◌∙◌, ◌≡⟨◌⟩◌, ◌∎, ◌≢◌,
  ◌↔◌, ◌⊎◌, inl, inr, Bool, true, false, not, ◌&&◌, ◌||◌, Option, none, some, List, [], ◌∷◌, ◌++◌,
  map, append_assoc, append-nil, arith, ltb, leb, nat_beq, nat_beq_iff, if◌then◌else◌, Bool-cases,
  Option-cases, eq-false_of_ne_true, length, take, drop, length-append, take-length,
  drop-length-append, All, All-append, HasEq, ◌==◌, nat_eq, bytes_eq, bytes_beq, bytes_beq_iff,
  eq_self,
}
use mux.Prelude.Int.{ℤ, pos, negsuc, minus_one, int_beq, int_beq_iff, int_eq, is_neg, is_pos}
use mux.Prelude.Map.{
  Map, find, contains, insert, erase, subscript, find-insert, find-erase, contains-find, map_laws,
}
use mux.Prelude.Bytes.{Bytes, codes, cr, lf, crlf, Lacks}
use mux.Prelude.Decimal.{
  print_nat, print_int, read_nat, IsDigit, read_nat-print_nat, print_nat-Lacks, print_int-Lacks,
}
use mux.Http.Stream.{Stream, open_stream, getline, has_three_words, find_byte, substr_from}
use mux.Http.Header
use mux.Http.Header.{HttpHeader}
use mux.Http.Request.{
  View, over, null, dangling, Request, set_path, set_query, set_hash_fragment, set_host, set_port,
  set_header, get_header, set_body,
}

-- What the code reads of an `ada::url`.
pub record Url : Type 0 where
  pub pathname : Bytes
  pub search : Bytes
  pub hash : Bytes

-- `ada::parse<ada::url>`; `none` is a failed parse.
abbrev pub Ada : Type 0
Ada = Bytes → Option Url

pub data Error : Type 0 where
  missing_request_line malformed_request_line malformed_url missing_host missing_blank_line
        malformed_header_line out_of_range :
      Error

-- How a call can end other than by returning: an exception, undefined behaviour, and in the model
-- alone the end of the fuel.
pub data Stop : Type 0 where
  thrown : Error → Stop
  undefined no_fuel : Stop

pub data Result {ℓ} (A : Type ℓ) : Type ℓ where
  ok : A → Result A
  stop : Stop → Result A

-- What was written to the request before an exception stays written.
abbrev pub Act : Type 0 → Type 0
Act A = Request → Result A × Request

abbrev continue : {A B : Type 0} → Result A → (A → Act B) → Act B
continue (ok a) f r = f a r
continue (stop e) f r = (stop e, r)

infixl 5 ◌>>=◌ ◌>>◌
abbrev pub ◌>>=◌ : {A B : Type 0} → Act A → (A → Act B) → Act B
◌>>=◌ m f r = let (a, r') = m r in continue a f r'

abbrev pub ◌>>◌ : {B : Type 0} → Act (Unit {0}) → Act B → Act B
m >> k = m >>= λ _. k

abbrev pub raise : {A : Type 0} → Error → Act A
raise e r = (stop (thrown e), r)

abbrev pub modify : (Request → Request) → Act (Unit {0})
modify f r = (ok tt, f r)

abbrev pub require : {A : Type 0} → Option A → Error → Act A
require none e r = (stop (thrown e), r)
require (some a) e r = (ok a, r)

-- `ada::parse<ada::url>(this->path_)`
pub parse_url : Ada → View → Act Url
parse_url ada (over text) r = require (ada text) malformed_url r
parse_url ada null r = require (ada []) malformed_url r
parse_url ada dangling r = (stop undefined, r)

-- The request line is read into locals, which are dropped.
pub request_line : Stream → Act Stream
request_line stream =
    let (line, stream') = getline stream in
    do
      text ← require line missing_request_line
      if has_three_words text then (λ r. (ok stream', r)) else raise malformed_request_line

-- `parsedUrl` is alive in the rest of the function, and the view on it until then.
pub set_url : Url → Act (Unit {0})
set_url url =
    modify (λ r. set_hash_fragment (set_query (set_path r (over url.pathname)) url.search) url.hash)

pub default_port : Request → Bytes
default_port r = if r.protocol == codes "HTTP/1.1" then codes "80" else codes "443"

pub set_address : Bytes → Option ℕ → Request → Request
unfolding default_port
set_address host (some colon) r = set_port (set_host r (take colon host)) (drop (suc colon) host)
set_address host none r = let r' = set_host r host in set_port r' (default_port r')

-- Host and port come from the headers that the request holds before this text's are read.
pub host_header : Act (Unit {0})
unfolding set_address
host_header = do
  host ← (λ r. let (value, r') = get_header r (codes "Host") in (ok value, r'))
  elim host [
    | [] ↦ raise missing_host
    | c ∷ s ↦ modify (set_address (c ∷ s) (find_byte b':' (c ∷ s)))
  ]

-- The line behind the request line must be there and empty.
pub blank_line : Stream → Act Stream
blank_line stream =
    let (line, stream') = getline stream in
    do
      text ← require line missing_blank_line
      elim text [ [] ↦ (λ r. (ok stream', r)) | c ∷ s ↦ raise missing_blank_line ]

pub header_line : Bytes → Act (Unit {0})
header_line line = do
  colon ← require (find_byte b':' line) malformed_header_line
  value ← require (substr_from line (colon + 2)) out_of_range
  modify (λ r. set_header r (take colon line) value)

-- A round of the loop over the header lines: it ends at the end of the stream or an empty line.
pub header_round : Option Bytes → Stream → Act Stream → Act Stream
header_round none stream rounds r = (ok stream, r)
header_round (some []) stream rounds r = (ok stream, r)
header_round (some (c ∷ s)) stream rounds r =
    let (a, r') = header_line (c ∷ s) r in continue a (λ _. rounds) r'

-- One unit of fuel for each line.
pub header_lines : ℕ → Stream → Act Stream
header_lines zero stream r = (stop no_fuel, r)
header_lines (suc f) stream r =
    let (line, stream') = getline stream in header_round line stream' (header_lines f stream') r

-- `requestStream.str()` is the whole text.
pub read_body : Bytes → Stream → Act (Unit {0})
read_body raw stream = if stream.fail then (λ r. (ok tt, r)) else modify (λ r. set_body r raw)

pub with_url : Bytes → Stream → Url → Act (Unit {0})
with_url raw stream url = do
  set_url url
  host_header
  stream' ← blank_line stream
  stream'' ← header_lines (suc (length raw)) stream'
  read_body raw stream''

-- When the scope of `parsedUrl` ends, by a return or by an exception, the view dangles.
pub end_of_scope : {A : Type 0} → Act A → Act A
end_of_scope m r = let (a, r') = m r in (a, record r' { path = dangling })

pub parse : Ada → Bytes → Act (Unit {0})
parse ada raw = do
  stream ← request_line (open_stream raw)
  url ← (λ r. parse_url ada r.path r)
  end_of_scope (with_url raw stream url)
