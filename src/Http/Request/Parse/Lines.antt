-- ===== src/Http/Request/Parse/Lines.antt =====
-- mux/Request.hpp: the header lines of `Request::parse`.
use mux.Prelude.{
  ℕ, zero, suc, ◌+◌, ◌≤◌, ◌<◌, ◌≡◌, refl, sym, ap, ◌∙◌, some, [], ◌∷◌, ◌++◌, append_assoc, arith,
  length, take, drop, length-append, All, All-append, nat_eq, bytes_eq,
}
use mux.Prelude.Int.{int_eq}
use mux.Prelude.Map.{Map}
use mux.Prelude.Bytes.{Bytes, codes, lf, Lacks}
use mux.Http.Stream.{Stream, open_stream, getline, getline-lf, find_byte, substr_from}
use mux.Http.Header.{Order, HttpHeader}
use mux.Http.Header
use mux.Http.Request.{Request, set_header}
use mux.Http.Request.Parse.{ok, continue, header_line, header_round, header_lines}

-- A header whose line spells it.
abbrev pub IsLine : Bytes × Bytes → Type 0
IsLine (key, value) = Lacks b':' key × Lacks lf key × Lacks lf value

abbrev pub lf_line : Bytes × Bytes → Bytes
lf_line (key, value) = key ++ (codes ": " ++ value)

pub lf_lines : Map Bytes Bytes → Bytes
lf_lines [] = []
lf_lines (field ∷ fields) = lf_line field ++ lf ∷ lf_lines fields

-- The headers that are set one after the other.
pub store : Map Bytes Bytes → HttpHeader → HttpHeader
store [] h = h
store ((key, value) ∷ fields) h = store fields (Header.set_header h key value)

find_byte-Lacks : (c : ℕ) (s t : Bytes) → Lacks c s → find_byte c (s ++ c ∷ t) ≡ some (length s)
unfolding find_byte
find_byte-Lacks c [] t h = ground arith
find_byte-Lacks c (d ∷ s) t (p, h) = ground (arith, find_byte-Lacks c s t h)

take-append : (s t : Bytes) → take (length s) (s ++ t) ≡ s
take-append [] t = refl
take-append (c ∷ s) t = ap (◌∷◌ c) (take-append s t)

drop_two : (key value : Bytes) → drop (length key + 2) (key ++ (codes ": " ++ value)) ≡ value
drop_two [] value = refl
drop_two (c ∷ key) value =
    let e : suc (length key) + 2 ≡ suc (length key + 2) = omega arith in rw e (drop_two key value)

substr_value :
    (key value : Bytes) → substr_from (key ++ (codes ": " ++ value)) (length key + 2) ≡ some value
unfolding substr_from
substr_value key value =
    ground (arith, drop_two key value, length-append {0} key (codes ": " ++ value))

header_line-stores :
    (key value : Bytes) (r : Request)
    → Lacks b':' key
    → header_line (lf_line (key, value)) r
      ≡ (ok tt, record r { headers = Header.set_header r.headers key value })
unfolding header_line set_header
header_line-stores key value r h =
    rw (find_byte-Lacks b':' key (codes " " ++ value) h, substr_value key value, take-append) refl

lf_line-cons : (f : Bytes × Bytes) → (c : ℕ) × (l : Bytes) × (lf_line f ≡ c ∷ l)
lf_line-cons ([], value) = (b':', codes " " ++ value, refl)
lf_line-cons (c ∷ key, value) = (c, key ++ (codes ": " ++ value), refl)

Lacks-lf_line : (f : Bytes × Bytes) → IsLine f → Lacks lf (lf_line f)
Lacks-lf_line (key, value) (p, q, r) =
    All-append _ key (codes ": " ++ value) q (omega arith, (omega arith, r))

header_lines-read :
    (f : ℕ) (s t : Stream) (line : Bytes) (r : Request)
    → getline s ≡ (some line, t)
    → header_lines (suc f) s r ≡ header_round (some line) t (header_lines f t) r
unfolding header_lines
header_lines-read f s t line r e i = header_round (e i).0 (e i).1 (header_lines f (e i).1) r

header_lines-step :
    (f : ℕ) (key value rest : Bytes) (r : Request)
    → IsLine (key, value)
    → header_lines (suc f) (open_stream (lf_line (key, value) ++ lf ∷ rest)) r
      ≡ header_lines f
          (open_stream rest)
          (record r { headers = Header.set_header r.headers key value })
unfolding header_round
header_lines-step f key value rest r fine =
    let (c, l, shape) = lf_line-cons (key, value) in
    let stored : header_line (c ∷ l) r
        ≡ (ok tt, record r { headers = Header.set_header r.headers key value }) =
      ap (λ (s : Bytes). header_line s r) (sym shape) ∙ header_line-stores key value r fine.0 in
    let read : getline (open_stream (lf_line (key, value) ++ lf ∷ rest))
        ≡ (some (c ∷ l), open_stream rest) =
      getline-lf (lf_line (key, value)) rest (Lacks-lf_line (key, value) fine)
      ∙ ap (λ (s : Bytes). (some s, open_stream rest)) shape in
    header_lines-read f _ _ (c ∷ l) r read
    ∙ (λ i. continue (stored i).0 (λ _. header_lines f (open_stream rest)) (stored i).1)

pub getline_blank : (rest : Bytes) → getline (open_stream (lf ∷ rest)) ≡ (some [], open_stream rest)
getline_blank rest = getline-lf [] rest tt

pub header_lines-lines :
    (f : ℕ) (fields : Map Bytes Bytes) (rest : Bytes) (r : Request)
    → length fields < f
    → All IsLine fields
    → header_lines f (open_stream (lf_lines fields ++ lf ∷ rest)) r
      ≡ (ok (open_stream rest), record r { headers = store fields r.headers })
unfolding lf_lines store
header_lines-lines zero fields rest r h fine = absurd (omega arith)
header_lines-lines (suc f) [] rest r h fine =
    unfold header_round in header_lines-read f _ _ [] r (getline_blank rest)
header_lines-lines (suc f) ((key, value) ∷ fields) rest r h (p, ps) = rw append_assoc (
    header_lines-step f key value (lf_lines fields ++ lf ∷ rest) r p
    ∙ header_lines-lines f fields rest _ (omega arith) ps)

pub length-lf_lines : (fields : Map Bytes Bytes) → length fields ≤ length (lf_lines fields)
unfolding lf_lines
length-lf_lines [] = omega arith
length-lf_lines (field ∷ fields) =
    omega (arith, length-append {0} (lf_line field) (lf ∷ lf_lines fields), length-lf_lines fields)
