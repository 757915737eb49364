-- ===== src/S3Log/Tokens/RoundTrip.antt =====
-- A line that is written field by field is split into the same fields, and a delimiter that is
-- never closed refuses the line, whatever stands before it.
use ctaudit.Prelude.{
  ◌≡◌, refl, ap, sym, ◌∙◌, Bool, true, false, not, ◌&&◌, ◌||◌, List, [], ◌∷◌, ◌++◌, append_assoc,
  append-nil, if◌then◌else◌, eqb, any_of, arith, map, All, some,
}
use ctaudit.Text.{Str}
use ctaudit.LogLines.{Checked, ok, refused}
use ctaudit.S3Log.{LineFault, unterminated_bracket, unterminated_quote}
use ctaudit.S3Log.Tokens.{gap, bracketed, quoted, bare, s3_read, s3_fields, prepend}

-- How a field stands in the line: as it is, in brackets or in quotes.
pub data Field : Type 0 where
  plain in_brackets in_quotes : Str → Field

abbrev pub value : Field → Str
value (plain s) = s
value (in_brackets s) = s
value (in_quotes s) = s

-- In quotes, a backslash stands before each quote and each backslash.
unfoldable pub escape : Str → Str
escape [] = []
escape (c ∷ s) = if eqb c b'"' || eqb c b'\\' then b'\\' ∷ (c ∷ escape s) else c ∷ escape s

unfoldable pub write : Field → Str
unfolding escape
write (plain s) = s
write (in_brackets s) = b'[' ∷ (s ++ b']' ∷ [])
write (in_quotes s) = b'"' ∷ (escape s ++ b'"' ∷ [])

-- A field that can be written so: bare, it is not empty, has no space and does not begin with a
-- delimiter; in brackets, it has no closing bracket.
abbrev pub is_writable : Field → Bool
is_writable (plain []) = false
is_writable (plain (c ∷ s)) =
    not (eqb c b'[' || eqb c b'"') && not (any_of (λ d. eqb d b' ') (c ∷ s))
is_writable (in_brackets s) = not (any_of (λ d. eqb d b']') s)
is_writable (in_quotes s) = true

-- The fields, each with a space behind it.
unfoldable pub write_all : List Field → Str
unfolding write
write_all [] = []
write_all (f ∷ fs) = write f ++ b' ' ∷ write_all fs

-- Fields go before the fields of the rest.
pub before_rest : List Str → Checked LineFault (List Str) → Checked LineFault (List Str)
before_rest [] r = r
before_rest (f ∷ fs) r = prepend (some f) (before_rest fs r)

before_rest_ok : (fs gs : List Str) → before_rest fs (ok gs) ≡ ok (fs ++ gs)
unfolding before_rest
before_rest_ok [] gs = refl
before_rest_ok (f ∷ fs) gs = ap (prepend (some f)) (before_rest_ok fs gs)

before_rest_refused : (fs : List Str) (e : LineFault) → before_rest fs (refused e) ≡ refused e
unfolding before_rest
before_rest_refused [] e = refl
before_rest_refused (f ∷ fs) e = ap (prepend (some f)) (before_rest_refused fs e)

module _ (rest : Str) where
  abbrev then_rest : Str → Checked LineFault (List Str)
  then_rest f = prepend (some f) (s3_read gap [] rest)

  read-escape : (f cur : Str) → s3_read quoted cur (escape f ++ b'"' ∷ rest) ≡ then_rest (cur ++ f)
  unfolding s3_read escape
  read-escape [] cur = ap then_rest (sym (append-nil cur))
  read-escape (c ∷ f) cur =
      ground (arith, read-escape f (cur ++ c ∷ []), append_assoc cur (c ∷ []) f)

  read-brackets :
      (f cur : Str)
      → any_of (λ d. eqb d b']') f ≡ false
      → s3_read bracketed cur (f ++ b']' ∷ rest) ≡ then_rest (cur ++ f)
  unfolding s3_read
  read-brackets [] cur h = ap then_rest (sym (append-nil cur))
  read-brackets (c ∷ f) cur h =
      ground (arith, read-brackets f (cur ++ c ∷ []), append_assoc cur (c ∷ []) f)

  read-bare :
      (f cur : Str)
      → any_of (λ d. eqb d b' ') f ≡ false
      → s3_read bare cur (f ++ b' ' ∷ rest) ≡ then_rest (cur ++ f)
  unfolding s3_read
  read-bare [] cur h = ap then_rest (sym (append-nil cur))
  read-bare (c ∷ f) cur h = ground (arith, read-bare f (cur ++ c ∷ []), append_assoc cur (c ∷ []) f)

read_gap : (rest : Str) → s3_read gap [] (b' ' ∷ rest) ≡ s3_read gap [] rest
unfolding s3_read
read_gap rest = refl

read-write :
    (f : Field) (rest : Str)
    → is_writable f ≡ true
    → s3_read gap [] (write f ++ b' ' ∷ rest) ≡ prepend (some (value f)) (s3_read gap [] rest)
unfolding s3_read write
read-write (plain []) rest h = ground arith
read-write (plain (c ∷ s)) rest h = ground (arith, read-bare rest s (c ∷ []))
read-write (in_brackets s) rest h = ground (
  arith,
  read-brackets (b' ' ∷ rest) s [],
  append_assoc s (b']' ∷ []) (b' ' ∷ rest),
  read_gap rest,
)
read-write (in_quotes s) rest h = ground (
  arith,
  read-escape (b' ' ∷ rest) s [],
  append_assoc (escape s) (b'"' ∷ []) (b' ' ∷ rest),
  read_gap rest,
)

-- The fields of a line that begins with written fields come before those of its rest, or of the
-- error that the rest raises.
fields_before_rest :
    (fs : List Field) (rest : Str)
    → All (λ f. is_writable f ≡ true) fs
    → s3_fields (write_all fs ++ rest) ≡ before_rest (map value fs) (s3_fields rest)
unfolding s3_fields write_all before_rest
fields_before_rest [] rest h = refl
fields_before_rest (f ∷ fs) rest (w, h) =
    ap (s3_read gap []) (append_assoc (write f) (b' ' ∷ write_all fs) rest)
    ∙ (read-write f (write_all fs ++ rest) w
        ∙ ap (prepend (some (value f))) (fields_before_rest fs rest h))

-- A line that is written field by field, each bare, in brackets or in quotes with its quotes and
-- backslashes escaped, is split into exactly these fields.
pub s3_fields-write_all :
    (fs : List Field)
    → All (λ f. is_writable f ≡ true) fs
    → s3_fields (write_all fs) ≡ ok (map value fs)
unfolding s3_fields s3_read
s3_fields-write_all fs h =
    ap s3_fields (sym (append-nil (write_all fs)))
    ∙ (fields_before_rest fs [] h
        ∙ (before_rest_ok (map value fs) [] ∙ ap ok (append-nil (map value fs))))

read_unclosed_bracket :
    (s cur : Str)
    → any_of (λ d. eqb d b']') s ≡ false
    → s3_read bracketed cur s ≡ refused unterminated_bracket
unfolding s3_read
read_unclosed_bracket [] cur h = refl
read_unclosed_bracket (c ∷ s) cur h = ground (arith, read_unclosed_bracket s (cur ++ c ∷ []))

-- No quote closes the text: each one in it stands behind a backslash that escapes it.
abbrev pub is_unclosed : Str → Bool
is_unclosed [] = true
is_unclosed (c ∷ []) = not (eqb c b'"')
is_unclosed (c ∷ d ∷ s) =
    let behind = is_unclosed s in
    let next = is_unclosed (d ∷ s) in
    if eqb c b'"' then false else if eqb c b'\\' then behind else next

read_unclosed_quote :
    (s cur : Str) → is_unclosed s ≡ true → s3_read quoted cur s ≡ refused unterminated_quote
unfolding s3_read
read_unclosed_quote [] cur h = refl
read_unclosed_quote (c ∷ []) cur h = ground arith
read_unclosed_quote (c ∷ d ∷ s) cur h =
    ground
      (arith, read_unclosed_quote s (cur ++ d ∷ []), read_unclosed_quote (d ∷ s) (cur ++ c ∷ []))

-- A bracket that no bracket closes, and a quote that no quote closes but escaped ones, refuse the
-- whole line, each with its own error, whatever written fields stand before it.
pub s3_fields_unterminated :
    (fs : List Field) (s t : Str)
    → All (λ f. is_writable f ≡ true) fs
    → any_of (λ d. eqb d b']') s ≡ false
    → is_unclosed t ≡ true
    → (s3_fields (write_all fs ++ b'[' ∷ s) ≡ refused unterminated_bracket)
      × (s3_fields (write_all fs ++ b'"' ∷ t) ≡ refused unterminated_quote)
unfolding s3_fields s3_read
s3_fields_unterminated fs s t h free open_quote = (
  fields_before_rest fs (b'[' ∷ s) h
      ∙ (ap (before_rest (map value fs)) (read_unclosed_bracket s [] free)
          ∙ before_rest_refused (map value fs) unterminated_bracket),
  fields_before_rest fs (b'"' ∷ t) h
      ∙ (ap (before_rest (map value fs)) (read_unclosed_quote t [] open_quote)
          ∙ before_rest_refused (map value fs) unterminated_quote),
)
