-- ===== src/Http/Request/Parse/Effects.antt =====
-- mux/Request.hpp: what a run of `Request::parse` leaves in the request.
use mux.Prelude.{
  ℕ, zero, suc, ◌≡◌, refl, ◌∙◌, Option, none, some, [], ◌∷◌, arith, length, nat_eq, bytes_eq,
}
use mux.Prelude.Int.{int_eq}
use mux.Prelude.Bytes.{Bytes, codes}
use mux.Http.Stream.{Stream, open_stream, getline, find_byte}
use mux.Http.Header.{Order, HttpHeader}
use mux.Http.Header
use mux.Http.Request.{
  Request, set_path, set_query, set_hash_fragment, get_header, set_host, set_port, set_body,
  set_header, to_string,
}
use mux.Http.Request.Parse.{
  Url, Ada, missing_host, Result, ok, stop, Act, continue, ◌>>=◌, modify, raise, parse_url,
  request_line, set_url, set_address, host_header, blank_line, header_line, header_round,
  header_lines, read_body, with_url, end_of_scope, parse,
}
use mux.Http.Request.Parse.Steps.{request_line-keeps, parse_url-keeps, Done, parse-Done}

-- `q` has the method, the protocol, the descriptor, the parameters and the cookies of `r`.
abbrev pub Same : Request → Request → Type 0
Same r q =
    (q.method ≡ r.method)
    × (q.protocol ≡ r.protocol)
    × (q.client_fd ≡ r.client_fd)
    × (q.params ≡ r.params)
    × (q.cookie ≡ r.cookie)

Same-refl : (r : Request) → Same r r
Same-refl r = (refl, refl, refl, refl, refl)

Same-trans : (r q s : Request) → Same r q → Same q s → Same r s
Same-trans r q s (a, b, c, d, e) (a', b', c', d', e') = (a' ∙ a, b' ∙ b, c' ∙ c, d' ∙ d, e' ∙ e)

KeepsSame : {A : Type 0} → Act A → Type 0
KeepsSame m = (r : Request) → Same r (m r).1

continue-Same :
    {A B : Type 0} (a : Result A) (f : A → Act B) (r : Request)
    → ((x : A) → Same r (f x r).1)
    → Same r (continue a f r).1
continue-Same (ok x) f r h = h x
continue-Same (stop e) f r h = Same-refl r

bind-Same :
    {A B : Type 0} (m : Act A) (f : A → Act B)
    → KeepsSame m
    → ((x : A) → KeepsSame (f x))
    → KeepsSame (m >>= f)
unfolding KeepsSame
bind-Same m f hm hf r =
    Same-trans r (m r).1 ((m >>= f) r).1 (hm r)
      (continue-Same (m r).0 f (m r).1 (λ x. hf x (m r).1))

set_url-Same : (url : Url) → KeepsSame (set_url url)
unfolding KeepsSame set_url set_path set_query set_hash_fragment
set_url-Same url r = Same-refl r

set_address-Same :
    (host : Bytes) (colon : Option ℕ) (r : Request) → Same r (set_address host colon r)
unfolding set_address set_host set_port
set_address-Same host none r = Same-refl r
set_address-Same host (some i) r = Same-refl r

address-Same :
    (host : Bytes) (r : Request)
    → Same r
        ((elim host as (λ _. Act (Unit {0})) [
          | [] ↦ raise missing_host
          | c ∷ s ↦ modify (set_address (c ∷ s) (find_byte b':' (c ∷ s)))
        ])
          r).1
address-Same [] r = Same-refl r
address-Same (c ∷ s) r = set_address-Same (c ∷ s) (find_byte b':' (c ∷ s)) r

host_header-Same : KeepsSame host_header
unfolding KeepsSame host_header get_header
host_header-Same r =
    let (value, headers) = Header.get_header r.headers (codes "Host") in
    address-Same value (record r { headers = headers })

blank_line-Same : (s : Stream) → KeepsSame (blank_line s)
unfolding KeepsSame blank_line
blank_line-Same s r = ground arith

header_line-Same : (line : Bytes) → KeepsSame (header_line line)
unfolding KeepsSame header_line set_header
header_line-Same line r = ground arith

header_round-Same :
    (line : Option Bytes) (s : Stream) (rounds : Act Stream)
    → KeepsSame rounds
    → KeepsSame (header_round line s rounds)
unfolding KeepsSame header_round
header_round-Same none s rounds h r = Same-refl r
header_round-Same (some []) s rounds h r = Same-refl r
header_round-Same (some (c ∷ l)) s rounds h r =
    bind-Same (header_line (c ∷ l)) (λ _. rounds) (header_line-Same (c ∷ l)) (λ _. h) r

header_lines-Same : (f : ℕ) (s : Stream) → KeepsSame (header_lines f s)
unfolding KeepsSame header_lines
header_lines-Same zero s r = Same-refl r
header_lines-Same (suc f) s r =
    header_round-Same (getline s).0 (getline s).1 (header_lines f (getline s).1)
      (header_lines-Same f (getline s).1) r

read_body-Same : (raw : Bytes) (s : Stream) → KeepsSame (read_body raw s)
unfolding KeepsSame read_body set_body
read_body-Same raw s r = ground arith

with_url-Same : (raw : Bytes) (s : Stream) (url : Url) → KeepsSame (with_url raw s url)
unfolding with_url
with_url-Same raw s url = bind-Same (set_url url) _ (set_url-Same url) λ _.
    bind-Same host_header _ host_header-Same λ _.
      bind-Same (blank_line s) _ (blank_line-Same s) λ t.
        bind-Same (header_lines (suc (length raw)) t) _ (header_lines-Same _ t) (read_body-Same raw)

run-ok :
    {A B : Type 0} (m : Act A) (f : A → Act B) (r : Request) (x : A)
    → (m r).0 ≡ ok x
    → (m r).1 ≡ r
    → (m >>= f) r ≡ f x r
run-ok m f r x e same i = continue (e i) f (same i)

parse-run :
    (ada : Ada) (raw : Bytes) (r : Request) (d : Done ada raw r)
    → parse ada raw r ≡ end_of_scope (with_url raw d.stream d.url) r
unfolding parse
parse-run ada raw r d =
    run-ok (request_line (open_stream raw)) _ r d.stream d.lined (request_line-keeps _ r)
    ∙ run-ok (λ q. parse_url ada q.path q) _ r d.url d.located (parse_url-keeps ada r.path r)

-- A successful parse takes nothing from the request line: method and protocol stay what they were,
-- and so do the descriptor, the parameters and the cookies. The path it leaves is a view on text
-- that is gone, so printing the request is undefined.
pub parse-effects :
    (ada : Ada) (raw : Bytes) (r : Request) (order : Order)
    → (parse ada raw r).0 ≡ ok tt
    → Same r (parse ada raw r).1 × (to_string order (parse ada raw r).1 ≡ none)
unfolding KeepsSame
parse-effects ada raw r order e =
    let d = parse-Done ada raw r e in
    rw (parse-run ada raw r d)
      (unfold end_of_scope to_string in (with_url-Same raw d.stream d.url r, refl))
