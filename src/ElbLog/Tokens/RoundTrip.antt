-- ===== src/ElbLog/Tokens/RoundTrip.antt =====
-- A line that is written field by field is split into the same fields.
use ctaudit.Prelude.{
  ◌≡◌, refl, ap, sym, ◌∙◌, Bool, false, not, ◌&&◌, ◌||◌, List, [], ◌∷◌, ◌++◌, append_assoc,
  append-nil, if◌then◌else◌, eqb, any_of, arith,
}
use ctaudit.Text.{Str}
use ctaudit.ElbLog.Tokens.{between, quoted, bare, read, fields}

-- A field in quotes, with a backslash before each quote and each backslash.
escape : Str → Str
escape [] = []
escape (c ∷ s) = if eqb c b'"' || eqb c b'\\' then b'\\' ∷ (c ∷ escape s) else c ∷ escape s

quote : Str → Str
quote f = b'"' ∷ (escape f ++ b'"' ∷ [])

-- A field that needs no quotes: it is not empty, does not begin with a quote and has no space.
pub is_plain : Str → Bool
is_plain [] = false
is_plain (c ∷ s) = not (eqb c b'"') && not (any_of (λ d. eqb d b' ') (c ∷ s))

pub write_field : Str → Str
unfolding is_plain quote
write_field f = if is_plain f then f else quote f

-- Fields joined by single spaces.
pub write_line : List Str → Str
unfolding write_field
write_line [] = []
write_line (f ∷ []) = write_field f
write_line (f ∷ g ∷ fs) = write_field f ++ b' ' ∷ write_line (g ∷ fs)

read-escape :
    (f cur rest : Str)
    → read quoted cur (escape f ++ b'"' ∷ rest) ≡ (cur ++ f) ∷ read between [] rest
unfolding read escape
read-escape [] cur rest = ap (λ x. x ∷ read between [] rest) (sym (append-nil cur))
read-escape (c ∷ f) cur rest =
    ground (arith, read-escape f (cur ++ c ∷ []) rest, append_assoc cur (c ∷ []) f)

read-bare :
    (f cur rest : Str)
    → any_of (λ d. eqb d b' ') f ≡ false
    → read bare cur (f ++ b' ' ∷ rest) ≡ (cur ++ f) ∷ read between [] rest
unfolding read
read-bare [] cur rest h = ap (λ x. x ∷ read between [] rest) (sym (append-nil cur))
read-bare (c ∷ f) cur rest h =
    ground (arith, read-bare f (cur ++ c ∷ []) rest, append_assoc cur (c ∷ []) f)

read_bare_end :
    (f cur : Str) → any_of (λ d. eqb d b' ') f ≡ false → read bare cur f ≡ (cur ++ f) ∷ []
unfolding read
read_bare_end [] cur h = ap (λ x. x ∷ []) (sym (append-nil cur))
read_bare_end (c ∷ f) cur h =
    ground (arith, read_bare_end f (cur ++ c ∷ []), append_assoc cur (c ∷ []) f)

read-write_field :
    (f rest : Str) → read between [] (write_field f ++ b' ' ∷ rest) ≡ f ∷ read between [] rest
unfolding read write_field quote escape
read-write_field [] rest = refl
read-write_field (c ∷ f) rest = ground (
  arith,
  read-bare f (c ∷ []) rest,
  read-escape (c ∷ f) [] (b' ' ∷ rest),
  append_assoc (escape (c ∷ f)) (b'"' ∷ []) (b' ' ∷ rest),
)

read-write_field_end : (f : Str) → read between [] (write_field f) ≡ f ∷ []
unfolding read write_field quote escape
read-write_field_end [] = refl
read-write_field_end (c ∷ f) = ground (arith, read_bare_end f (c ∷ []), read-escape (c ∷ f) [] [])

-- A line that joins its fields by single spaces, each field as it is or between quotes with its
-- quotes and backslashes escaped, is split by the tokenizer into exactly these fields.
pub fields-write_line : (fs : List Str) → fields (write_line fs) ≡ fs
unfolding fields read write_line
fields-write_line [] = refl
fields-write_line (f ∷ []) = read-write_field_end f
fields-write_line (f ∷ g ∷ fs) =
    read-write_field f (write_line (g ∷ fs)) ∙ ap (◌∷◌ f) (fields-write_line (g ∷ fs))
