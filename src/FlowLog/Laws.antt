-- ===== src/FlowLog/Laws.antt =====
-- What the columns of a header decode to.
use ctaudit.Prelude.{
  ◌≡◌, ◌≢◌, refl, ap, sym, ◌∙◌, inl, inr, true, false, Option, none, some, List, [], ◌∷◌, ◌++◌,
  append-nil, eqb, any_of, All, arith, Option-cases,
}
use ctaudit.Text.{Str, nonempty, cut, trim_left_by}
use ctaudit.Text.Laws.{nonempty_iff}
use ctaudit.Text.Pieces.{cut-value, cut_absent}
use ctaudit.FlowLog.{Net, Flow}
use ctaudit.FlowLog.Fields.{Field}
use ctaudit.FlowLog.Decode.{read_column, parse_columns}

-- A value of a record: it is not empty and has no space.
abbrev pub IsValue : Str → Type 0
IsValue v = (v ≢ []) × (any_of (λ c. eqb c b' ') v ≡ false)

-- Values joined by single spaces.
pub join : List Str → Str
join [] = []
join (v ∷ []) = v
join (v ∷ w ∷ vs) = v ++ b' ' ∷ join (w ∷ vs)

module _ (net : Net) where
  -- One value for each column, read one after another; no value may be left over.
  unfoldable pub read_all : List Field → List Str → Flow net.Addr → Option (Flow net.Addr)
  read_all [] [] e = some e
  read_all [] (v ∷ vs) e = none
  read_all (f ∷ cols) [] e = none
  read_all (f ∷ cols) (v ∷ vs) e = elim (read_column net f v e) [
    | none ↦ none
    | some e' ↦ read_all cols vs e'
  ]

trim_value : (v rest : Str) → IsValue v → trim_left_by (λ c. eqb c b' ') (v ++ rest) ≡ v ++ rest
unfolding trim_left_by
trim_value [] rest (h, n) = absurd (h refl)
trim_value (c ∷ v) rest (h, n) = ground arith

trim-join : (vs : List Str) → All IsValue vs → trim_left_by (λ c. eqb c b' ') (join vs) ≡ join vs
unfolding join
trim-join [] h = unfold trim_left_by in refl
trim-join (v ∷ []) (h, _) =
    ap (trim_left_by _) (sym (append-nil v)) ∙ trim_value v [] h ∙ append-nil v
trim-join (v ∷ w ∷ vs) (h, _) = trim_value v (b' ' ∷ join (w ∷ vs)) h

-- One column of a line whose first value is `v`.
column_lem :
    (net : Net) (f : Field) (cols : List Field) (rest v : Str) (vs : List Str) (e : Flow net.Addr)
    → nonempty rest ≡ true
    → (cut rest b' ').0 ≡ v
    → ((e' : Flow net.Addr)
        → parse_columns net cols (trim_left_by (λ c. eqb c b' ') (cut rest b' ').1) e'
          ≡ read_all net cols vs e')
    → parse_columns net (f ∷ cols) rest e ≡ read_all net (f ∷ cols) (v ∷ vs) e
unfolding parse_columns read_all
column_lem net f cols rest v vs e full split later =
    rw (full, split)
      (elim (Option-cases (read_column net f v e)) [
        | inl none_read ↦ rw (none_read, read_all) refl
        | inr (e', some_read) ↦ rw (some_read, read_all) (later e')
      ])

trim_nothing : trim_left_by (λ c. eqb c b' ') [] ≡ []
unfolding trim_left_by
trim_nothing = refl

nonempty_value : (v rest : Str) → v ≢ [] → nonempty (v ++ rest) ≡ true
nonempty_value [] rest h = absurd (h refl)
nonempty_value (c ∷ v) rest h = refl

-- A record line with one value for each column decodes to what reading the values one after
-- another gives; with fewer or more values than columns it is refused.
pub parse_columns-join :
    (net : Net) (cols : List Field) (vs : List Str) (e : Flow net.Addr)
    → All IsValue vs
    → parse_columns net cols (join vs) e ≡ read_all net cols vs e
unfolding parse_columns read_all join
parse_columns-join net [] [] e h = refl
parse_columns-join net [] (v ∷ []) e ((h, n), _) = ground (arith, nonempty_iff v)
parse_columns-join net [] (v ∷ w ∷ vs) e ((h, n), _) =
    rw (nonempty_value v (b' ' ∷ join (w ∷ vs)) h) refl
parse_columns-join net (f ∷ cols) [] e h = refl
parse_columns-join net (f ∷ cols) (v ∷ []) e ((h, n), t) =
    let c = cut_absent v b' ' n in
    column_lem net f cols v v [] e ((nonempty_iff v).1 h) (ap (λ x. x.0) c) (λ e'.
      ap (λ x. parse_columns net cols (trim_left_by (λ c. eqb c b' ') x.1) e') c
      ∙ ap (λ x. parse_columns net cols x e') trim_nothing
      ∙ parse_columns-join net cols [] e' tt)
parse_columns-join net (f ∷ cols) (v ∷ w ∷ vs) e ((h, n), t) =
    let c = cut-value v (join (w ∷ vs)) b' ' n in
    column_lem net f cols _ v (w ∷ vs) e (nonempty_value v (b' ' ∷ join (w ∷ vs)) h)
      (ap (λ x. x.0) c)
      (λ e'.
        ap (λ x. parse_columns net cols (trim_left_by (λ c. eqb c b' ') x.1) e') c
        ∙ ap (λ x. parse_columns net cols x e') (trim-join (w ∷ vs) t)
        ∙ parse_columns-join net cols (w ∷ vs) e' t)
