-- ===== src/Http/Request/Parse/Steps.antt =====
-- mux/Request.hpp: a successful run of `Request::parse`, step by step.
use mux.Prelude.{suc, ◌≡◌, refl, ◌∙◌, arith, length, nat_eq, bytes_eq}
use mux.Prelude.Int.{int_eq}
use mux.Prelude.Bytes.{Bytes, codes}
use mathlib.Core.Path.{subst}
use mux.Http.Stream.{Stream, open_stream}
use mux.Http.Request.{View, over, Request, set_path, set_query, set_hash_fragment, get_header}
use mux.Http.Request.Parse.{
  Url, Ada, Result, ok, stop, Act, continue, ◌>>=◌, parse_url, request_line, set_url, host_header,
  blank_line, header_lines, read_body, with_url, end_of_scope, parse,
}

continue-ok :
    {A B : Type 0} (a : Result A) (f : A → Act B) (r : Request) (b : B)
    → (continue a f r).0 ≡ ok b
    → (x : A) × (a ≡ ok x) × ((f x r).0 ≡ ok b)
continue-ok (ok x) f r b h = (x, refl, h)
continue-ok (stop e) f r b h = cc

bind-ok :
    {A B : Type 0} (m : Act A) (f : A → Act B) (r : Request) (b : B)
    → ((m >>= f) r).0 ≡ ok b
    → (x : A) × ((m r).0 ≡ ok x) × ((f x (m r).1).0 ≡ ok b)
bind-ok m f r b h = continue-ok (m r).0 f (m r).1 b h

-- The same for a step that leaves the request alone.
bind-ok-keeps :
    {A B : Type 0} (m : Act A) (f : A → Act B) (r : Request) (b : B)
    → (m r).1 ≡ r
    → ((m >>= f) r).0 ≡ ok b
    → (x : A) × ((m r).0 ≡ ok x) × ((f x r).0 ≡ ok b)
bind-ok-keeps m f r b same h =
    let (x, e, h') = bind-ok m f r b h in (x, e, subst (λ q. (f x q).0 ≡ ok b) same h')

pub request_line-keeps : (s : Stream) (r : Request) → (request_line s r).1 ≡ r
unfolding request_line
request_line-keeps s r = ground arith

pub parse_url-keeps : (ada : Ada) (v : View) (r : Request) → (parse_url ada v r).1 ≡ r
unfolding parse_url
parse_url-keeps ada v r = ground arith

-- What a successful run has been through.
pub record Done (ada : Ada) (raw : Bytes) (r : Request) : Type 0 where
  pub stream : Stream
  pub url : Url
  pub lined : (request_line (open_stream raw) r).0 ≡ ok stream
  pub located : (parse_url ada r.path r).0 ≡ ok url
  pub finished : (with_url raw stream url r).0 ≡ ok tt

pub parse-Done :
    (ada : Ada) (raw : Bytes) (r : Request) → (parse ada raw r).0 ≡ ok tt → Done ada raw r
unfolding parse end_of_scope
parse-Done ada raw r h =
    let (stream, lined, h₁) =
      bind-ok-keeps (request_line (open_stream raw))
        (λ stream. do url ← (λ q. parse_url ada q.path q); end_of_scope (with_url raw stream url)) r
        tt (request_line-keeps _ r) h in
    let (url, located, h₂) =
      bind-ok-keeps (λ q. parse_url ada q.path q) (λ url. end_of_scope (with_url raw stream url)) r
        tt (parse_url-keeps ada r.path r) h₁ in
    record { stream = stream; url = url; lined = lined; located = located; finished = h₂ }

-- The request when the URL has been taken apart.
abbrev pub located_request : Url → Request → Request
located_request url r =
    set_hash_fragment (set_query (set_path r (over url.pathname)) url.search) url.hash

pub located_request-host :
    (url : Url) (r : Request)
    → (get_header (located_request url r) (codes "Host")).0 ≡ (get_header r (codes "Host")).0
unfolding get_header set_path set_query set_hash_fragment
located_request-host url r = refl

-- The rest of a successful run: the address, the empty line, the headers, the body.
pub record Finished (raw : Bytes) (s : Stream) (url : Url) (r : Request) : Type 0 where
  pub addressed : (host_header (located_request url r)).0 ≡ ok tt
  pub blank : Stream
  pub blanked : (blank_line s r).0 ≡ ok blank
  pub last : Stream
  pub read :
      (header_lines (suc (length raw)) blank (host_header (located_request url r)).1).0 ≡ ok last

blank_line-result : (s : Stream) (r q : Request) → (blank_line s r).0 ≡ (blank_line s q).0
unfolding blank_line
blank_line-result s r q = ground arith

blank_line-keeps : (s : Stream) (r : Request) → (blank_line s r).1 ≡ r
unfolding blank_line
blank_line-keeps s r = ground arith

pub with_url-Finished :
    (raw : Bytes) (s : Stream) (url : Url) (r : Request)
    → (with_url raw s url r).0 ≡ ok tt
    → Finished raw s url r
unfolding with_url set_url
with_url-Finished raw s url r h =
    let q = located_request url r in
    let (_, addressed, h₁) =
      bind-ok host_header
        (λ _. do
          blank ← blank_line s
          last ← header_lines (suc (length raw)) blank
          read_body raw last)
        q tt h in
    let (blank, blanked, h₂) =
      bind-ok-keeps (blank_line s)
        (λ blank. do last ← header_lines (suc (length raw)) blank; read_body raw last)
        (host_header q).1 tt (blank_line-keeps s _) h₁ in
    let (last, read, h₃) =
      bind-ok (header_lines (suc (length raw)) blank) (read_body raw) (host_header q).1 tt h₂ in
    record {
      addressed = addressed;
      blank = blank;
      blanked = blank_line-result s r (host_header q).1 ∙ blanked;
      last = last;
      read = read;
    }
