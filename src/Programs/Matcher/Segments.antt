-- ===== src/Programs/Matcher/Segments.antt =====
-- src/dynamic.cc: templates that are made of segments, and what becomes of them.
use mux.Prelude.{
  ℕ, suc, ◌-◌, ◌≡◌, refl, ap, ◌∙◌, ◌≢◌, true, false, none, some, List, [], ◌∷◌, ◌++◌, map,
  append_assoc, append-nil, arith, ltb, if◌then◌else◌, length, take, length-append, All, All-append,
  nat_eq, bytes_eq,
}
use mux.Prelude.Int.{int_eq}
use mux.Prelude.Bytes.{Bytes, Lacks}
use mux.Programs.Matcher.{slash, Item, byte, group, scan, is_operator, is_plain, split, param_name}
use mux.Programs.Matcher.Regex.{AtSlash, IsCut}

-- A segment is fixed text or a placeholder.
pub data Segment : Type 0 where
  fixed : Bytes → Segment
  param : Bytes → Segment

abbrev pub text : Segment → Bytes
text (fixed s) = s
text (param name) = b'{' ∷ (name ++ b'}' ∷ [])

-- The template that has these segments, and the path of a URL.
abbrev pub template : List Segment → Bytes
template [] = []
template (p ∷ ps) = slash ∷ (text p ++ template ps)

abbrev pub path : List Bytes → Bytes
path [] = []
path (u ∷ us) = slash ∷ (u ++ path us)

abbrev IsFixed : ℕ → Type 0
IsFixed c = (c ≢ slash) × (is_operator c ≡ false)

abbrev IsNamed : ℕ → Type 0
IsNamed c = (c ≢ slash) × (c ≢ b'}')

-- Fixed text has no slash and no operator of regular expressions, a name no slash and no closing
-- brace; neither is empty.
abbrev pub IsSegment : Segment → Type 0
IsSegment (fixed s) = All IsFixed s × (s ≢ [])
IsSegment (param name) = All IsNamed name × (name ≢ [])

abbrev pub items_of : List Segment → List Item
items_of [] = []
items_of (fixed s ∷ ps) = byte slash ∷ (map byte s ++ items_of ps)
items_of (param name ∷ ps) = byte slash ∷ (group ∷ items_of ps)

pub items_of-AtSlash : (ps : List Segment) → AtSlash (items_of ps)
items_of-AtSlash [] = tt
items_of-AtSlash (fixed s ∷ ps) = refl
items_of-AtSlash (param name ∷ ps) = refl

pub path-IsCut : (us : List Bytes) → IsCut (path us)
path-IsCut [] = tt
path-IsCut (u ∷ us) = refl

scan-fixed : (s rest : Bytes) → All IsFixed s → scan none (s ++ rest) ≡ map byte s ++ scan none rest
unfolding scan is_operator
scan-fixed [] rest h = refl
scan-fixed (c ∷ s) rest h = ground (arith, scan-fixed s rest h.1)

scan-name :
    (name : Bytes) (d : ℕ) (s rest : Bytes)
    → All IsNamed name
    → scan (some (d ∷ s)) (name ++ b'}' ∷ rest) ≡ group ∷ scan none rest
unfolding scan
scan-name [] d s rest h = refl
scan-name (c ∷ name) d s rest h = ground (arith, scan-name name d (s ++ (c ∷ [])) rest h.1)

scan-param :
    (name rest : Bytes)
    → All IsNamed name
    → name ≢ []
    → scan none (b'{' ∷ (name ++ b'}' ∷ rest)) ≡ group ∷ scan none rest
unfolding scan
scan-param [] rest h n = elim (n refl) [ ]
scan-param (c ∷ name) rest h n = ground (arith, scan-name name c [] rest h.1)

-- The regular expression of a template has the template's segments.
pub scan-template : (ps : List Segment) → All IsSegment ps → scan none (template ps) ≡ items_of ps
unfolding scan
scan-template [] h = refl
scan-template (fixed s ∷ ps) h =
    ap (◌∷◌ (byte slash))
      (scan-fixed s (template ps) h.0.0 ∙ ap (◌++◌ (map byte s)) (scan-template ps h.1))
scan-template (param name ∷ ps) h = ap (◌∷◌ (byte slash)) (
    ap (λ x. scan none (b'{' ∷ x)) (append_assoc name (b'}' ∷ []) (template ps))
    ∙ scan-param name (template ps) h.0.0 h.0.1
    ∙ ap (◌∷◌ group) (scan-template ps h.1))

is_plain-fixed :
    (s : Bytes) (items : List Item)
    → All IsFixed s
    → is_plain (map byte s ++ items) ≡ is_plain items
unfolding is_plain
is_plain-fixed [] items h = refl
is_plain-fixed (c ∷ s) items h = rw h.0.1 (is_plain-fixed s items h.1)

pub is_plain-items_of : (ps : List Segment) → All IsSegment ps → is_plain (items_of ps) ≡ true
unfolding is_plain is_operator
is_plain-items_of [] h = refl
is_plain-items_of (fixed s ∷ ps) h = is_plain-fixed s (items_of ps) h.0.0 ∙ is_plain-items_of ps h.1
is_plain-items_of (param name ∷ ps) h = is_plain-items_of ps h.1

split-over :
    (s segment rest : Bytes) → Lacks slash s → split segment (s ++ rest) ≡ split (segment ++ s) rest
unfolding split
split-over [] segment rest h = rw (append-nil segment) refl
split-over (c ∷ s) segment rest h =
    split_step segment
    ∙ split-over s (segment ++ (c ∷ [])) rest h.1
    ∙ ap (λ x. split x rest) (append_assoc segment (c ∷ []) s)
  where
    split_step : (x : Bytes) → split x (c ∷ (s ++ rest)) ≡ split (x ++ (c ∷ [])) (s ++ rest)
    split_step [] = ground arith
    split_step (d ∷ x) = ground arith

split_end : (s : Bytes) → s ≢ [] → split s [] ≡ s ∷ []
unfolding split
split_end [] h = elim (h refl) [ ]
split_end (c ∷ s) h = refl

split_next : (s rest : Bytes) → split s (slash ∷ rest) ≡ s ∷ split [] rest
unfolding split
split_next [] rest = refl
split_next (c ∷ s) rest = refl

All-Lacks : {P : ℕ → Type 0} (c : ℕ) (s : Bytes) → ((d : ℕ) → P d → d ≢ c) → All P s → Lacks c s
All-Lacks c [] k h = tt
All-Lacks c (d ∷ s) k h = (k d h.0, All-Lacks c s k h.1)

pub text-Lacks : (p : Segment) → IsSegment p → Lacks slash (text p)
text-Lacks (fixed s) h = All-Lacks slash s (λ d q. q.0) h.0
text-Lacks (param name) h = (
  λ e. ground arith,
  All-append _ name (b'}' ∷ []) (All-Lacks slash name (λ d q. q.0) h.0) ((λ e. ground arith), tt),
)

text_ne : (p : Segment) → IsSegment p → text p ≢ []
text_ne (fixed s) h = h.1
text_ne (param name) h = λ e. cc

split_segment :
    (p : Segment) (ps : List Segment)
    → All IsSegment (p ∷ ps)
    → split [] (text p ++ template ps) ≡ map text (p ∷ ps)
split_segment p [] h =
    split-over (text p) [] [] (text-Lacks p h.0) ∙ split_end (text p) (text_ne p h.0)
split_segment p (q ∷ ps) h =
    split-over (text p) [] (template (q ∷ ps)) (text-Lacks p h.0)
    ∙ split_next (text p) (text q ++ template ps)
    ∙ ap (◌∷◌ (text p)) (split_segment q ps h.1)

-- `getline` reads the segments back, behind an empty one before the first slash.
pub split-template :
    (p : Segment) (ps : List Segment)
    → All IsSegment (p ∷ ps)
    → split [] (template (p ∷ ps)) ≡ [] ∷ map text (p ∷ ps)
split-template p ps h = split_next [] (text p ++ template ps) ∙ ap (◌∷◌ []) (split_segment p ps h)

take-append : (s rest : Bytes) → take (length s) (s ++ rest) ≡ s
take-append [] rest = refl
take-append (c ∷ s) rest = ap (◌∷◌ c) (take-append s rest)

pub param_name-text : (name : Bytes) → param_name (text (param name)) ≡ name
unfolding param_name
param_name-text name =
    let n = length (name ++ b'}' ∷ []) in
    let count : (if ltb (suc n) 2 then suc n else suc n - 2) ≡ length name =
      ground (arith, length-append name (b'}' ∷ [])) in
    rw count (take-append name (b'}' ∷ []))
