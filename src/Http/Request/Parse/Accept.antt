-- ===== src/Http/Request/Parse/Accept.antt =====
-- mux/Request.hpp: `Request::parse` on texts whose lines end in a line feed alone.
use mux.Prelude.{
  ℕ, suc, ◌<◌, ◌≡◌, refl, ap, ◌∙◌, true, Option, none, some, [], ◌∷◌, ◌++◌, arith, length,
  length-append, All, nat_eq, bytes_eq,
}
use mux.Prelude.Int.{int_eq}
use mux.Prelude.Map.{Map, subscript}
use mux.Prelude.Bytes.{Bytes, codes, lf, Lacks}
use mux.Http.Stream.{Stream, open_stream, getline, getline-lf, has_three_words, find_byte}
use mux.Http.Header.{Order, HttpHeader}
use mux.Http.Header
use mux.Http.Request.{
  View, over, dangling, Request, set_path, set_query, set_hash_fragment, get_header, set_host,
  set_port, set_body,
}
use mux.Http.Request.Parse.{
  Url, Ada, Result, ok, Act, continue, ◌>>=◌, parse_url, request_line, set_url, set_address,
  host_header, blank_line, header_lines, read_body, with_url, end_of_scope, parse,
}
use mux.Http.Request.Parse.Steps.{located_request, located_request-host}
use mux.Http.Request.Parse.Lines.{
  IsLine, lf_lines, store, header_lines-lines, getline_blank, length-lf_lines,
}

run :
    {A B : Type 0} (m : Act A) (f : A → Act B) (r q : Request) (x : A)
    → m r ≡ (ok x, q)
    → (m >>= f) r ≡ f x q
run m f r q x e i = continue (e i).0 f (e i).1

host_header-found :
    (r : Request) (c : ℕ) (s : Bytes)
    → (get_header r (codes "Host")).0 ≡ c ∷ s
    → host_header r
      ≡ (ok tt, set_address (c ∷ s) (find_byte b':' (c ∷ s)) (get_header r (codes "Host")).1)
unfolding host_header
host_header-found r c s h = rw (h, host_header) refl

blank_line-read :
    (s t : Stream) (r : Request) → getline s ≡ (some [], t) → blank_line s r ≡ (ok t, r)
unfolding blank_line
blank_line-read s t r e = ground arith

blank_line-blank :
    (rest : Bytes) (r : Request)
    → blank_line (open_stream (lf ∷ rest)) r ≡ (ok (open_stream rest), r)
blank_line-blank rest r = blank_line-read _ _ r (getline_blank rest)

request_line-three :
    (first rest : Bytes) (r : Request)
    → Lacks lf first
    → has_three_words first ≡ true
    → request_line (open_stream (first ++ lf ∷ rest)) r ≡ (ok (open_stream rest), r)
unfolding request_line
request_line-three first rest r h three = rw (getline-lf first rest h, three)

parse_url-over :
    (ada : Ada) (text : Bytes) (url : Url) (v : View) (r : Request)
    → v ≡ over text
    → ada text ≡ some url
    → parse_url ada v r ≡ (ok url, r)
unfolding parse_url
parse_url-over ada text url v r e a = rw (e, a)

present-header :
    (h : HttpHeader) (key : Bytes) (c : ℕ) (s : Bytes)
    → (Header.get_header h key).0 ≡ c ∷ s
    → (Header.get_header h key).1 ≡ h
unfolding Header.get_header subscript
present-header h key c s e = ground arith

set_address-headers :
    (host : Bytes) (colon : Option ℕ) (r : Request) → (set_address host colon r).headers ≡ r.headers
unfolding set_address set_host set_port
set_address-headers host none r = refl
set_address-headers host (some i) r = refl

set_address-query :
    (host : Bytes) (colon : Option ℕ) (r : Request)
    → ((set_address host colon r).query ≡ r.query)
      × ((set_address host colon r).hash_fragment ≡ r.hash_fragment)
unfolding set_address set_host set_port
set_address-query host none r = (refl, refl)
set_address-query host (some i) r = (refl, refl)

-- The request at the empty line.
abbrev addressed : Url → Request → Bytes → Request
addressed url r host =
    set_address host (find_byte b':' host) (get_header (located_request url r) (codes "Host")).1

-- The request at the end.
final : Url → Request → Bytes → Map Bytes Bytes → Bytes → Request
final url r host fields raw =
    set_body
      (record (addressed url r host) { headers = store fields (addressed url r host).headers }) raw

final_lem :
    (url : Url) (r : Request) (c : ℕ) (s : Bytes) (fields : Map Bytes Bytes) (raw : Bytes)
    → (get_header r (codes "Host")).0 ≡ c ∷ s
    → let q = final url r (c ∷ s) fields raw in
      (q.headers ≡ store fields r.headers)
      × (q.query ≡ url.search)
      × (q.hash_fragment ≡ url.hash)
      × (q.body ≡ raw)
unfolding final set_body get_header set_path set_query set_hash_fragment
final_lem url r c s fields raw host =
    let q = (get_header (located_request url r) (codes "Host")).1 in
    let colon = find_byte b':' (c ∷ s) in
    let (query, fragment) = set_address-query (c ∷ s) colon q in
    (
      ap (store fields)
          (set_address-headers (c ∷ s) colon q ∙ present-header r.headers (codes "Host") c s host),
      query,
      fragment,
      refl,
    )

with_url-accepts :
    (url : Url) (r : Request) (c : ℕ) (s : Bytes) (raw rest : Bytes) (fields : Map Bytes Bytes)
    → (get_header r (codes "Host")).0 ≡ c ∷ s
    → length fields < suc (length raw)
    → All IsLine fields
    → with_url raw (open_stream (lf ∷ (lf_lines fields ++ lf ∷ rest))) url r
      ≡ (ok tt, final url r (c ∷ s) fields raw)
unfolding with_url set_url read_body final
with_url-accepts url r c s raw rest fields host fits lines =
    let q = located_request url r in
    let a = addressed url r (c ∷ s) in
    run host_header _ q a tt (host_header-found q c s (located_request-host url r ∙ host))
    ∙ run (blank_line (open_stream (lf ∷ (lf_lines fields ++ lf ∷ rest)))) _ a a _
        (blank_line-blank (lf_lines fields ++ lf ∷ rest) a)
    ∙ run (header_lines (suc (length raw)) (open_stream (lf_lines fields ++ lf ∷ rest)))
        (read_body raw) a _ _ (header_lines-lines (suc (length raw)) fields rest a fits lines)

-- A text of LF lines: the request line, an empty line, header lines, an empty line, and the rest.
abbrev pub request_text : Bytes → Map Bytes Bytes → Bytes → Bytes
request_text first fields rest = first ++ lf ∷ lf ∷ (lf_lines fields ++ lf ∷ rest)

module _ (ada : Ada) (r : Request) (first rest : Bytes) (fields : Map Bytes Bytes) where
  abbrev raw : Bytes
  raw = request_text first fields rest

  -- A text of a request line, an empty line, header lines, an empty line and a rest, all ended by
  -- a line feed alone, is parsed if the request line has three words, the path that the object had
  -- before is a URL and the object held a Host header. The header lines are stored in their order
  -- over the headers that were there, query and fragment are the URL's, and the body is the whole
  -- text.
  pub parse-accepts :
      (text : Bytes) (url : Url) (c : ℕ) (s : Bytes)
      → Lacks lf first
      → has_three_words first ≡ true
      → All IsLine fields
      → r.path ≡ over text
      → ada text ≡ some url
      → (get_header r (codes "Host")).0 ≡ c ∷ s
      → ((parse ada raw r).0 ≡ ok tt)
        × ((parse ada raw r).1.headers ≡ store fields r.headers)
        × ((parse ada raw r).1.query ≡ url.search)
        × ((parse ada raw r).1.hash_fragment ≡ url.hash)
        × ((parse ada raw r).1.body ≡ raw)
  unfolding parse end_of_scope
  parse-accepts text url c s h three lines e a host =
      let (headers, query, fragment, body) = final_lem url r c s fields raw host in
      rw whole (refl, headers, query, fragment, body)
    where
      end : Result (Unit {0}) × Request → Result (Unit {0}) × Request
      end (x, q) = (x, record q { path = dangling })

      behind : Bytes
      behind = lf_lines fields ++ lf ∷ rest

      fits : length fields < suc (length raw)
      fits = omega (
        arith,
        length-append {0} first (lf ∷ lf ∷ behind),
        length-append {0} (lf_lines fields) (lf ∷ rest),
        length-lf_lines fields,
      )

      whole : parse ada raw r ≡ end_of_scope (λ q. (ok tt, final url q (c ∷ s) fields raw)) r
      whole =
          run (request_line (open_stream raw)) _ r r (open_stream (lf ∷ behind))
            (request_line-three first (lf ∷ behind) r h three)
          ∙ run (λ q. parse_url ada q.path q) _ r r url (parse_url-over ada text url r.path r e a)
          ∙ ap end (with_url-accepts url r c s raw rest fields host fits lines)
