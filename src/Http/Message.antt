-- ===== src/Http/Message.antt =====
-- A reader of HTTP/1.1 messages, which serves as the independent description of the printers: a
-- start line, fields `name: value` up to an empty line, and the body. Lines end in CRLF.
use mux.Prelude.{
  ℕ, zero, suc, ◌≤◌, ◌<◌, ◌≡◌, refl, sym, ap, ◌∙◌, Option, none, some, [], ◌∷◌, ◌++◌, append_assoc,
  arith, if◌then◌else◌, length, length-append, All, All-append, ◌==◌, nat_eq, bytes_eq,
}
use mux.Prelude.Int.{int_eq}
use mux.Prelude.Map.{Map}
use mux.Prelude.Bytes.{Bytes, codes, cr, lf, crlf, Lacks}

pub record Message : Type 0 where
  pub start : Bytes
  pub fields : Map Bytes Bytes
  pub body : Bytes

infixl 5 ◌>>=◌
abbrev ◌>>=◌ {ℓ κ} : {A : Type ℓ} {B : Type κ} → Option A → (A → Option B) → Option B
none >>= k = none
some a >>= k = k a

-- The rest behind a line feed.
after_lf : Bytes → Option Bytes
after_lf [] = none
after_lf (c ∷ s) = if c == lf then some s else none

push : ℕ → Option (Bytes × Bytes) → Option (Bytes × Bytes)
push c none = none
push c (some (line, rest)) = some (c ∷ line, rest)

-- The text before the first CRLF, and the text behind it.
pub read_line : Bytes → Option (Bytes × Bytes)
unfolding push after_lf
read_line [] = none
read_line (c ∷ s) =
    let longer = push c (read_line s) in
    if c == cr then elim (after_lf s) [ some rest ↦ some ([], rest) | none ↦ longer ] else longer

-- The name before the first colon, and the value behind the colon and one blank.
pub split_field : Bytes → Option (Bytes × Bytes)
unfolding push
split_field [] = none
split_field (c ∷ s) =
    let longer = push c (split_field s) in
    if c == b':'
    then elim s [ [] ↦ none | d ∷ v ↦ if d == b' ' then some ([], v) else none ]
    else longer

-- Fields up to an empty line, with the text behind it. Each line uses one unit of fuel.
pub read_fields : ℕ → Bytes → Option (Map Bytes Bytes × Bytes)
read_fields zero s = none
read_fields (suc f) s = do
  (line, rest) ← read_line s
  elim line [
    | [] ↦ some ([], rest)
    | c ∷ l ↦ do
      field ← split_field (c ∷ l)
      (fields, body) ← read_fields f rest
      some (field ∷ fields, body)
  ]

-- A message has fewer lines than bytes.
pub read_message : Bytes → Option Message
unfolding read_line read_fields split_field
read_message s = do
  (start, rest) ← read_line s
  (fields, body) ← read_fields (length s) rest
  some (record { start = start; fields = fields; body = body })

pub read_line-crlf :
    (line rest : Bytes) → Lacks cr line → read_line (line ++ (crlf ++ rest)) ≡ some (line, rest)
unfolding read_line
read_line-crlf [] rest h = refl
read_line-crlf (c ∷ line) rest (d, h) = ground (arith, read_line-crlf line rest h)

pub split_field-colon :
    (name value : Bytes)
    → Lacks b':' name
    → split_field (name ++ (codes ": " ++ value)) ≡ some (name, value)
unfolding split_field
split_field-colon [] value h = refl
split_field-colon (c ∷ name) value (d, h) = ground (arith, split_field-colon name value h)

-- A field whose text spells itself: a name with no colon and no CR, a value with no CR.
abbrev pub IsField : Bytes × Bytes → Type 0
IsField (name, value) = Lacks b':' name × Lacks cr name × Lacks cr value

abbrev pub field_line : Bytes × Bytes → Bytes
field_line (name, value) = name ++ (codes ": " ++ value)

unfoldable pub field_lines : Map Bytes Bytes → Bytes
field_lines [] = []
field_lines (field ∷ fields) = field_line field ++ (crlf ++ field_lines fields)

Lacks-field_line : (f : Bytes × Bytes) → IsField f → Lacks cr (field_line f)
Lacks-field_line (name, value) (p, q, r) =
    All-append _ name (codes ": " ++ value) q (omega arith, (omega arith, r))

field_line-ne-nil : (f : Bytes × Bytes) → (c : ℕ) × (l : Bytes) × (field_line f ≡ c ∷ l)
field_line-ne-nil ([], value) = (b':', codes " " ++ value, refl)
field_line-ne-nil (c ∷ name, value) = (c, name ++ (codes ": " ++ value), refl)

read_fields-step :
    (f : ℕ) (field : Bytes × Bytes) (rest body : Bytes) (fields : Map Bytes Bytes)
    → IsField field
    → read_fields f rest ≡ some (fields, body)
    → read_fields (suc f) (field_line field ++ (crlf ++ rest)) ≡ some (field ∷ fields, body)
unfolding read_fields
read_fields-step f field rest body fields ok e =
    let (c, l, shape) = field_line-ne-nil field in
    let split : split_field (c ∷ l) ≡ some field =
      ap split_field (sym shape) ∙ split_field-colon field.0 field.1 ok.0 in
    rw (read_line-crlf (field_line field) rest (Lacks-field_line field ok), shape, split, e) refl

pub read_fields-lines :
    (f : ℕ) (fields : Map Bytes Bytes) (body : Bytes)
    → length fields < f
    → All IsField fields
    → read_fields f (field_lines fields ++ (crlf ++ body)) ≡ some (fields, body)
unfolding field_lines
read_fields-lines zero fields body h ok = absurd (omega arith)
read_fields-lines (suc f) [] body h ok = unfold read_fields read_line in refl
read_fields-lines (suc f) (field ∷ fields) body h (ok, oks) =
    rw (append_assoc (field_line field) (crlf ++ field_lines fields) (crlf ++ body)) (
      read_fields-step f field (field_lines fields ++ (crlf ++ body)) body fields ok
        (read_fields-lines f fields body (omega arith) oks))

length-field_lines : (fields : Map Bytes Bytes) → length fields ≤ length (field_lines fields)
unfolding field_lines
length-field_lines [] = omega arith
length-field_lines (field ∷ fields) = omega (
  arith,
  length-append {0} (field_line field) (crlf ++ field_lines fields),
  length-field_lines fields,
)

-- A printed message is read back: a start line with no CR, proper fields, any body.
pub read_message-lines :
    (start : Bytes) (fields : Map Bytes Bytes) (body : Bytes)
    → Lacks cr start
    → All IsField fields
    → read_message (start ++ (crlf ++ (field_lines fields ++ (crlf ++ body))))
      ≡ some (record { start = start; fields = fields; body = body })
unfolding read_message
read_message-lines start fields body h ok =
    let rest = field_lines fields ++ (crlf ++ body) in
    let fits : length fields < length (start ++ (crlf ++ rest)) = omega (
      arith,
      length-append {0} start (crlf ++ rest),
      length-append {0} (field_lines fields) (crlf ++ body),
      length-field_lines fields,
    ) in
    rw (read_line-crlf start rest h, read_fields-lines _ fields body fits ok) refl
