-- ===== src/Http/Request/Parse/Fuel.antt =====
-- mux/Request.hpp: the fuel of the loop over header lines in `Request::parse`.
use mux.Prelude.{
  ℕ, zero, suc, ◌<◌, ◌≡◌, refl, ◌≢◌, Option, none, some, [], ◌∷◌, arith, if◌then◌else◌, length,
  nat_eq, bytes_eq,
}
use mux.Prelude.Int.{int_eq}
use mux.Prelude.Bytes.{Bytes}
use mathlib.Core.Path.{subst}
use mux.Http.Stream.{Stream, open_stream, getline, has_three_words}
use mux.Http.Request.{View, Request}
use mux.Http.Request.Parse.{
  Url, Ada, missing_request_line, malformed_request_line, missing_blank_line, no_fuel, Result, ok,
  stop, Act, continue, ◌>>=◌, require, raise, parse_url, request_line, set_url, host_header,
  blank_line, header_line, header_round, header_lines, read_body, with_url, end_of_scope, parse,
}
use mux.Http.Request.Parse.Steps.{located_request}
use mux.Http.Stream.{getline-shorter}

-- The step ends, with a result, an exception or undefined behaviour.
abbrev Ends : {A : Type 0} → Result A × Request → Type 0
Ends p = p.0 ≢ stop no_fuel

continue-Ends :
    {A B : Type 0} (a : Result A) (f : A → Act B) (r : Request)
    → a ≢ stop no_fuel
    → ((x : A) → a ≡ ok x → Ends (f x r))
    → Ends (continue a f r)
continue-Ends (ok x) f r h k = k x refl
continue-Ends {A} {B} (stop e) f r h k = λ e'. h (stop_cong e')
  where
    stop_cong :
        ◌≡◌ {A = Result B} (stop e) (stop no_fuel) → ◌≡◌ {A = Result A} (stop e) (stop no_fuel)
    stop_cong p = ground arith

bind-Ends :
    {A B : Type 0} (m : Act A) (f : A → Act B) (r : Request)
    → Ends (m r)
    → ((x : A) → (m r).0 ≡ ok x → Ends (f x (m r).1))
    → Ends ((m >>= f) r)
bind-Ends m f r h k = continue-Ends (m r).0 f (m r).1 h k

request_line-Ends : (s : Stream) (r : Request) → Ends (request_line s r)
unfolding request_line
request_line-Ends s r = ground arith

blank_line-Ends : (s : Stream) (r : Request) → Ends (blank_line s r)
unfolding blank_line
blank_line-Ends s r = ground arith

header_line-Ends : (line : Bytes) (r : Request) → Ends (header_line line r)
unfolding header_line
header_line-Ends line r = ground arith

parse_url-Ends : (ada : Ada) (v : View) (r : Request) → Ends (parse_url ada v r)
unfolding parse_url
parse_url-Ends ada v r = ground arith

host_header-Ends : (r : Request) → Ends (host_header r)
unfolding host_header
host_header-Ends r = ground arith

read_body-Ends : (raw : Bytes) (s : Stream) (r : Request) → Ends (read_body raw s r)
unfolding read_body
read_body-Ends raw s r = ground arith

header_round-Ends :
    (line : Option Bytes) (s : Stream) (rounds : Act Stream) (r : Request)
    → ((text : Bytes) (q : Request) → line ≡ some text → Ends (rounds q))
    → Ends (header_round line s rounds r)
unfolding header_round
header_round-Ends none s rounds r h = λ p. cc
header_round-Ends (some []) s rounds r h = λ p. cc
header_round-Ends (some (c ∷ l)) s rounds r h =
    continue-Ends (header_line (c ∷ l) r).0 (λ _. rounds) (header_line (c ∷ l) r).1
      (header_line-Ends (c ∷ l) r) (λ _ _. h (c ∷ l) (header_line (c ∷ l) r).1 refl)

header_lines-Ends :
    (f : ℕ) (s : Stream) (r : Request) → length s.rest < f → Ends (header_lines f s r)
unfolding header_lines
header_lines-Ends zero s r h = absurd (omega arith)
header_lines-Ends (suc f) s r h =
    header_round-Ends (getline s).0 (getline s).1 (header_lines f (getline s).1) r (λ line q e.
      header_lines-Ends f (getline s).1 q
        (omega (arith, getline-shorter s (getline s).1 line (λ i. (e i, (getline s).1)))))

request_line-shorter :
    (s t : Stream) (r : Request) → (request_line s r).0 ≡ ok t → length t.rest < length s.rest
unfolding request_line
request_line-shorter s t r h = go (getline s).0 (getline s).1 refl h
  where
    go :
        (line : Option Bytes) (u : Stream)
        → getline s ≡ (line, u)
        → ((require line missing_request_line >>= λ text.
              if has_three_words text then (λ r. (ok u, r)) else raise malformed_request_line)
            r).0
          ≡ ok t
        → length t.rest < length s.rest
    go none u e h = cc
    go (some text) u e h =
        let same : u ≡ t = ground arith in
        subst (λ (v : Stream). length v.rest < length s.rest) same (getline-shorter s u text e)

blank_line-shorter :
    (s t : Stream) (r : Request) → (blank_line s r).0 ≡ ok t → length t.rest < length s.rest
unfolding blank_line
blank_line-shorter s t r h = go (getline s).0 (getline s).1 refl h
  where
    go :
        (line : Option Bytes) (u : Stream)
        → getline s ≡ (line, u)
        → ((require line missing_blank_line >>= λ text. elim text as (λ _. Act Stream) [
          | [] ↦ (λ r. (ok u, r))
          | c ∷ l ↦ raise missing_blank_line
        ])
            r).0
          ≡ ok t
        → length t.rest < length s.rest
    go none u e h = cc
    go (some (c ∷ l)) u e h = cc
    go (some []) u e h =
        let same : u ≡ t = ground arith in
        subst (λ (v : Stream). length v.rest < length s.rest) same (getline-shorter s u [] e)

with_url-Ends :
    (raw : Bytes) (s : Stream) (url : Url) (r : Request)
    → length s.rest < length raw
    → Ends (with_url raw s url r)
unfolding with_url set_url
with_url-Ends raw s url r h =
    let q = located_request url r in
    bind-Ends host_header _ q (host_header-Ends q) λ _ _.
      let q' = (host_header q).1 in
      bind-Ends (blank_line s) _ q' (blank_line-Ends s q') λ t e.
        let q'' = (blank_line s q').1 in
        bind-Ends (header_lines (suc (length raw)) t) (read_body raw) q''
          (header_lines-Ends (suc (length raw)) t q'' (omega (arith, blank_line-shorter s t q' e)))
          (λ u _. read_body-Ends raw u _)

-- On every text, request and URL parser, `parse` returns, throws or meets undefined behaviour: the
-- fuel, one unit for each byte and one more, never runs out.
pub parse-Ends : (ada : Ada) (raw : Bytes) (r : Request) → (parse ada raw r).0 ≢ stop no_fuel
unfolding parse end_of_scope
parse-Ends ada raw r =
    bind-Ends (request_line (open_stream raw))
      (λ s. do url ← (λ q. parse_url ada q.path q); end_of_scope (with_url raw s url)) r
      (request_line-Ends _ r)
      λ s e.
        let q = (request_line (open_stream raw) r).1 in
        bind-Ends (λ p. parse_url ada p.path p) (λ url. end_of_scope (with_url raw s url)) q
          (parse_url-Ends ada q.path q)
          λ url _. with_url-Ends raw s url _ (request_line-shorter _ s r e)
