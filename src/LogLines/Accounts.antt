-- ===== src/LogLines/Accounts.antt =====
-- What the loop makes of the lines of an object.
use ctaudit.Prelude.{
  suc, ◌+◌, ◌≡◌, refl, sym, ◌∙◌, Option, none, some, List, [], ◌∷◌, ◌++◌, if◌then◌else◌, is_empty,
  or_else, append_assoc, append-nil, arith, Bool-cases, inl, inr, length,
}
use ctaudit.Text.{Str, trim_space}
use ctaudit.LogLines.{
  Checked, ok, refused, Decoded, line_result, decode_line, decode_from, decode_lines,
}

module _ {E A : Type 0} (parse : Str → Checked E A) where
  -- The results of the lines that are not blank, in order.
  pub outcomes : List Str → List (Checked E A)
  outcomes [] = []
  outcomes (s ∷ lines) =
      if is_empty (trim_space s) then outcomes lines else parse s ∷ outcomes lines

module _ {E A : Type 0} where
  pub accepted : List (Checked E A) → List A
  accepted [] = []
  accepted (ok a ∷ cs) = a ∷ accepted cs
  accepted (refused e ∷ cs) = accepted cs

  pub faults : List (Checked E A) → List E
  faults [] = []
  faults (ok a ∷ cs) = faults cs
  faults (refused e ∷ cs) = e ∷ faults cs

pub head? : {E : Type 0} → List E → Option E
head? [] = none
head? (e ∷ es) = some e

earlier : {E : Type 0} → Option E → Option E → Option E
earlier none o = o
earlier (some e) o = some e

earlier-none : {E : Type 0} (o : Option E) → earlier o none ≡ o
unfolding earlier
earlier-none none = refl
earlier-none (some e) = refl

earlier-head :
    {E : Type 0} (o : Option E) (e : E) (es : List E)
    → earlier o (head? (e ∷ es)) ≡ earlier (some (or_else o e)) (head? es)
unfolding earlier head?
earlier-head none e es = refl
earlier-head (some x) e es = refl

module _ {E A : Type 0} where
  -- What a decoder that holds `d` holds after these results.
  after : Decoded E A → List (Checked E A) → Decoded E A
  after d cs = record {
    entries = d.entries ++ accepted cs;
    bad = d.bad + length (faults cs);
    first = earlier d.first (head? (faults cs));
  }

  after-nil : (d : Decoded E A) → after d [] ≡ d
  unfolding after accepted faults head?
  after-nil d =
      cc
        (append-nil d.entries, (let k : d.bad + 0 ≡ d.bad = omega arith in k), earlier-none d.first)

  after-ok :
      (d : Decoded E A) (a : A) (cs : List (Checked E A))
      → after (record d { entries = d.entries ++ a ∷ [] }) cs ≡ after d (ok a ∷ cs)
  unfolding after accepted faults
  after-ok d a cs = cc (append_assoc d.entries (a ∷ []) (accepted cs))

  after-refused :
      (d : Decoded E A) (e : E) (cs : List (Checked E A))
      → after (record d { bad = suc d.bad; first = some (or_else d.first e) }) cs
        ≡ after d (refused e ∷ cs)
  unfolding after accepted faults
  after-refused d e cs = cc (
    (let k : suc d.bad + length (faults cs) ≡ d.bad + suc (length (faults cs)) = omega arith in k),
    earlier-head d.first e (faults cs),
  )

module _ {E A : Type 0} (parse : Str → Checked E A) where
  after-line_result :
      (d : Decoded E A) (c : Checked E A) (cs : List (Checked E A))
      → after (line_result d c) cs ≡ after d (c ∷ cs)
  unfolding line_result
  after-line_result d (ok a) cs = after-ok d a cs
  after-line_result d (refused e) cs = after-refused d e cs

  after-line :
      (d : Decoded E A) (s : Str) (lines : List Str)
      → after (decode_line parse d s) (outcomes parse lines) ≡ after d (outcomes parse (s ∷ lines))
  unfolding decode_line outcomes
  after-line d s lines = elim (Bool-cases (is_empty (trim_space s))) [
    | inl e ↦ rw e refl
    | inr e ↦ rw e (after-line_result d (parse s) (outcomes parse lines))
  ]

  decode_from-after :
      (d : Decoded E A) (lines : List Str)
      → decode_from parse d lines ≡ after d (outcomes parse lines)
  unfolding decode_from outcomes
  decode_from-after d [] = sym (after-nil d)
  decode_from-after d (s ∷ lines) =
      decode_from-after (decode_line parse d s) lines ∙ after-line d s lines

  -- Decoding loses no line and invents none: the entries are those of the accepted lines, in
  -- order, every other line that is not blank is counted as bad, and the error kept is the first.
  pub decode_lines-accounts_for :
      (lines : List Str)
      → let cs = outcomes parse lines in
        decode_lines parse lines
        ≡ record { entries = accepted cs; bad = length (faults cs); first = head? (faults cs) }
  unfolding decode_lines after earlier
  decode_lines-accounts_for lines =
      decode_from-after (record { entries = []; bad = 0; first = none }) lines
      ∙ cc (let n = length (faults (outcomes parse lines)) in let k : 0 + n ≡ n = omega arith in k)
