-- ===== src/Http/Request/Parse/Refusal.antt =====
-- mux/Request.hpp: texts and requests that `Request::parse` refuses.
use mux.Prelude.{
  ℕ, ◌≡◌, refl, sym, ap, ◌∙◌, ◌≢◌, some, [], ◌∷◌, ◌++◌, append_assoc, arith, All-append, nat_eq,
  bytes_eq,
}
use mux.Prelude.Int.{int_eq}
use mux.Prelude.Bytes.{Bytes, codes, cr, lf, crlf, Lacks}
use mux.Http.Stream.{Stream, open_stream, getline, getline-lf}
use mux.Http.Request.{Request, get_header}
use mux.Http.Request.Parse.{
  Ada, missing_host, thrown, Result, ok, stop, request_line, host_header, blank_line, parse,
}
use mux.Http.Request.Parse.Steps.{
  parse-Done, located_request, with_url-Finished, located_request-host,
}

host_header-missing :
    (r : Request)
    → (get_header r (codes "Host")).0 ≡ []
    → (host_header r).0 ≡ stop (thrown missing_host)
unfolding host_header
host_header-missing r h = rw (h, host_header) refl

-- A request with no Host header, or an empty one, is never parsed, whatever the text says: the
-- header is looked up before the header lines of the text are read.
pub parse-no_host :
    (ada : Ada) (raw : Bytes) (r : Request)
    → (get_header r (codes "Host")).0 ≡ []
    → (parse ada raw r).0 ≢ ok tt
parse-no_host ada raw r h e =
    let d = parse-Done ada raw r e in
    let f = with_url-Finished raw d.stream d.url r d.finished in
    let missing =
      host_header-missing (located_request d.url r) (located_request-host d.url r ∙ h) in
    not_both _ missing f.addressed
  where
    not_both : (x : Result (Unit {0})) → x ≡ stop (thrown missing_host) → x ≡ ok tt → ⊥
    not_both x p q = cc

request_line-stream :
    (s s' t : Stream) (text : Bytes) (r : Request)
    → getline s ≡ (some text, t)
    → (request_line s r).0 ≡ ok s'
    → s' ≡ t
unfolding request_line
request_line-stream s s' t text r e h = ground arith

blank_line-nonempty :
    (s t s' : Stream) (c : ℕ) (text : Bytes) (r : Request)
    → getline s ≡ (some (c ∷ text), t)
    → (blank_line s r).0 ≢ ok s'
unfolding blank_line
blank_line-nonempty s t s' c text r e h = ground arith

Lacks-concat : (line : Bytes) → Lacks lf line → Lacks lf (line ++ cr ∷ [])
Lacks-concat line h = All-append _ line (cr ∷ []) h (omega arith)

getline-crlf :
    (line rest : Bytes)
    → Lacks lf line
    → getline (open_stream (line ++ (crlf ++ rest))) ≡ (some (line ++ cr ∷ []), open_stream rest)
getline-crlf line rest h =
    ap (λ (s : Bytes). getline (open_stream s)) (sym (append_assoc line (cr ∷ []) (lf ∷ rest)))
    ∙ getline-lf (line ++ cr ∷ []) rest (Lacks-concat line h)

concat-cons : (line : Bytes) → (c : ℕ) × (l : Bytes) × (line ++ cr ∷ [] ≡ c ∷ l)
concat-cons [] = (cr, [], refl)
concat-cons (c ∷ line) = (c, line ++ cr ∷ [], refl)

-- A text whose first two lines end in CRLF, as HTTP/1.1 has them, is never parsed: the CR stays on
-- the second line, which is required to be empty.
pub parse-crlf :
    (ada : Ada) (first second rest : Bytes) (r : Request)
    → Lacks lf first
    → Lacks lf second
    → (parse ada (first ++ (crlf ++ (second ++ (crlf ++ rest)))) r).0 ≢ ok tt
parse-crlf ada first second rest r p q e =
    let d = parse-Done ada _ r e in
    let f = with_url-Finished _ d.stream d.url r d.finished in
    let behind = second ++ (crlf ++ rest) in
    let at : d.stream ≡ open_stream behind =
      request_line-stream _ d.stream _ _ r (getline-crlf first behind p) d.lined in
    let (c, l, shape) = concat-cons second in
    let line : getline d.stream ≡ (some (c ∷ l), open_stream rest) =
      ap getline at
      ∙ getline-crlf second rest q
      ∙ ap (λ (x : Bytes). (some x, open_stream rest)) shape in
    blank_line-nonempty d.stream _ f.blank c l r line f.blanked
