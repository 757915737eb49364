-- ===== src/WafLog/Counted.antt =====
-- Which rules are counted for a request.
use ctaudit.Prelude.{
  ℕ, suc, ◌≡◌, ◌≢◌, ◌↔◌, ◌⊎◌, inl, inr, refl, ap, sym, ◌∙◌, Bool, true, false, not, ◌||◌, Option,
  none, some, List, [], ◌∷◌, ◌++◌, if◌then◌else◌, any_of, eqb, eqb_iff, All, All-append, Some,
  is_some, arith, Bool-cases, Option-cases, append_assoc, any_of_iff, Some_map,
}
use ctaudit.Text.{Str, codes, str_eq, nonempty, equal_fold}
use ctaudit.Text.Laws.{str_eq_iff}
use ctaudit.WafLog.{RawRule, RawGroup, RawRecord}
use ctaudit.WafLog.Rules.{last_ending, select_last-none, select_last-some}
use ctaudit.WafLog.Parse.{
  Ruled, add_count_rule, count_rule, count_matches, count_excluded, end_group, is_at, read_group,
  read_groups, rules_of, reselect, select_last, selected_group, from_group, terminating_id,
  in_group, group_name,
}

-- The names of the matching rules that count, and of the excluded ones.
pub matched : (Str → Str) → List RawRule → List Str
matched name [] = []
matched name (nt ∷ nts) =
    if equal_fold nt.action (codes "COUNT")
    then name nt.rule_id ∷ matched name nts
    else matched name nts

pub excluded : (Str → Str) → List Str → List Str
excluded name [] = []
excluded name (id ∷ ids) = if nonempty id then name id ∷ excluded name ids else excluded name ids

pub ending : Bool → Str → Option Str → List Str
ending counts group none = []
ending true group (some id) = in_group group id ∷ []
ending false group (some id) = []

-- The names that groups add: a group's own terminating rule unless it is the request's, its
-- matching rules and its excluded ones.
pub group_names : Bool → List RawGroup → List Str
group_names from [] = []
group_names from (g ∷ gs) =
    let group = group_name g.rule_group_id in
    ending (not from || is_some (last_ending gs)) group (terminating_id g)
    ++ (matched (in_group group) g.non_terminating
        ++ (excluded (in_group group) g.excluded_rules ++ group_names from gs))

pub counted_names : RawRecord → List Str
counted_names r =
    group_names (from_group r) r.rule_group_list ++ matched (λ id. id) r.non_terminating

add_all : List Str → List Str → List Str
add_all rules [] = rules
add_all rules (r ∷ rs) = add_all (add_count_rule rules r) rs

add_all-append : (ns ms rules : List Str) → add_all rules (ns ++ ms) ≡ add_all (add_all rules ns) ms
unfolding add_all
add_all-append [] ms rules = refl
add_all-append (n ∷ ns) ms rules = add_all-append ns ms (add_count_rule rules n)

counted-if :
    (b : Bool) (e : Ruled) (n : Str) (ns : List Str)
    → add_all (if b then count_rule e n else e).counted ns
      ≡ add_all e.counted (if b then n ∷ ns else ns)
unfolding add_all count_rule
counted-if true e n ns = refl
counted-if false e n ns = refl

counted-count_matches :
    (name : Str → Str) (nts : List RawRule) (e : Ruled)
    → (count_matches name e nts).counted ≡ add_all e.counted (matched name nts)
unfolding count_matches matched add_all
counted-count_matches name [] e = refl
counted-count_matches name (nt ∷ nts) e =
    counted-count_matches name nts _
    ∙ counted-if (equal_fold nt.action (codes "COUNT")) e (name nt.rule_id) (matched name nts)

counted-count_excluded :
    (name : Str → Str) (ids : List Str) (e : Ruled)
    → (count_excluded name e ids).counted ≡ add_all e.counted (excluded name ids)
unfolding count_excluded excluded add_all
counted-count_excluded name [] e = refl
counted-count_excluded name (id ∷ ids) e =
    counted-count_excluded name ids _ ∙ counted-if (nonempty id) e (name id) (excluded name ids)

counted-end_group :
    (b : Bool) (group : Str) (e : Ruled) (t : Option Str)
    → (end_group b group e t).counted ≡ add_all e.counted (ending (not b) group t)
unfolding end_group ending add_all count_rule
counted-end_group b group e none = refl
counted-end_group true group e (some id) = refl
counted-end_group false group e (some id) = refl

counted-read_group :
    (selected : Option ℕ) (i : ℕ) (e : Ruled) (g : RawGroup)
    → let group = group_name g.rule_group_id in
      (read_group selected i e g).counted
      ≡ add_all e.counted (
          ending (not (is_at selected i)) group (terminating_id g)
          ++ (matched (in_group group) g.non_terminating
              ++ excluded (in_group group) g.excluded_rules))
unfolding read_group
counted-read_group selected i e g =
    let group = group_name g.rule_group_id in
    let a = ending (not (is_at selected i)) group (terminating_id g) in
    let b = matched (in_group group) g.non_terminating in
    let c = excluded (in_group group) g.excluded_rules in
    let e1 = end_group (is_at selected i) group e (terminating_id g) in
    let e2 = count_matches (in_group group) e1 g.non_terminating in
    cc (
      counted-count_excluded (in_group group) g.excluded_rules e2,
      counted-count_matches (in_group group) g.non_terminating e1,
      counted-end_group (is_at selected i) group e (terminating_id g),
      add_all-append a (b ++ c) e.counted,
      add_all-append b c (add_all e.counted a),
    )

-- The position that the loop selects, or none.
abbrev chosen : Bool → Option ℕ → ℕ → List RawGroup → Option ℕ
chosen from acc i gs = if from then select_last acc i gs else none

ending_same :
    (gs : List RawGroup) (from : Bool) (acc : Option ℕ) (i : ℕ) (group : Str) (t : Option Str)
    → ending (not (is_at (chosen from (reselect t i acc) (suc i) gs) i)) group t
      ≡ ending (not from || is_some (last_ending gs)) group t
unfolding ending reselect
ending_same gs from acc i group none = refl
ending_same gs false acc i group (some id) = refl
ending_same gs true acc i group (some id) = elim (Option-cases (last_ending gs)) [
  | inl h ↦ rw (h, select_last-none gs (some i) (suc i) h, (eqb_iff i i).1 refl) refl
  | inr (q, h) ↦
      let (j, at, k) = select_last-some gs (some i) (suc i) q h in
      let far : eqb i j ≡ false = ground arith in rw (h, at, far) refl
]

chosen-cons :
    (g : RawGroup) (gs : List RawGroup) (from : Bool) (acc : Option ℕ) (i : ℕ)
    → chosen from acc i (g ∷ gs) ≡ chosen from (reselect (terminating_id g) i acc) (suc i) gs
unfolding select_last
chosen-cons g gs true acc i = refl
chosen-cons g gs false acc i = refl

counted-read_groups :
    (gs : List RawGroup) (from : Bool) (acc : Option ℕ) (i : ℕ) (e : Ruled)
    → (read_groups (chosen from acc i gs) i e gs).counted ≡ add_all e.counted (group_names from gs)
unfolding read_groups group_names add_all
counted-read_groups [] from acc i e = refl
counted-read_groups (g ∷ gs) from acc i e =
    let group = group_name g.rule_group_id in
    let acc' = reselect (terminating_id g) i acc in
    let selected = chosen from acc' (suc i) gs in
    let a = ending (not from || is_some (last_ending gs)) group (terminating_id g) in
    let b = matched (in_group group) g.non_terminating in
    let c = excluded (in_group group) g.excluded_rules in
    let rest = group_names from gs in
    ap (λ s. (read_groups s (suc i) (read_group s i e g) gs).counted) (chosen-cons g gs from acc i)
    ∙ cc (
      counted-read_groups gs from acc' (suc i) (read_group selected i e g),
      counted-read_group selected i e g,
      ending_same gs from acc i group (terminating_id g),
      add_all-append (a ++ (b ++ c)) rest e.counted,
      append_assoc a (b ++ c) rest,
      append_assoc b c rest,
    )

counted_add_all : (r : RawRecord) → (rules_of r).counted ≡ add_all [] (counted_names r)
unfolding rules_of selected_group counted_names
counted_add_all r =
    let start : Ruled = record { rule = r.terminating_rule_id; group = []; counted = [] } in
    let own = matched (λ id. id) r.non_terminating in
    let groups = r.rule_group_list in
    counted-count_matches (λ id. id) r.non_terminating _
    ∙ (ap (λ rules. add_all rules own) (counted-read_groups groups (from_group r) none 0 start)
        ∙ sym (add_all-append (group_names (from_group r) groups) own []))

-- No name stands twice.
abbrev pub NoRepeat : List Str → Type 0
NoRepeat [] = Unit
NoRepeat (x ∷ xs) = All (λ y. y ≢ x) xs × NoRepeat xs

absent_All : (xs : List Str) (r : Str) → any_of (λ x. str_eq x r) xs ≡ false → All (λ x. x ≢ r) xs
absent_All [] r h = tt
absent_All (x ∷ xs) r h =
    let differs : str_eq x r ≡ false = ground arith in
    let absent : any_of (λ y. str_eq y r) xs ≡ false = ground arith in
    (λ e. (let k = (str_eq_iff x r).1 e in ground arith), absent_All xs r absent)

NoRepeat-snoc :
    (xs : List Str) (r : Str) → NoRepeat xs → All (λ x. x ≢ r) xs → NoRepeat (xs ++ r ∷ [])
NoRepeat-snoc [] r h k = (tt, tt)
NoRepeat-snoc (x ∷ xs) r (hx, h) (kx, k) =
    (All-append (λ y. y ≢ x) xs (r ∷ []) hx (λ e. kx (sym e), tt), NoRepeat-snoc xs r h k)

add_count_rule-NoRepeat :
    (rules : List Str) (r : Str) → NoRepeat rules → NoRepeat (add_count_rule rules r)
unfolding add_count_rule
add_count_rule-NoRepeat rules r h = elim (Bool-cases (any_of (λ x. str_eq x r) rules)) [
  | inl e ↦ rw e h
  | inr e ↦ rw e (NoRepeat-snoc rules r h (absent_All rules r e))
]

add_all-NoRepeat : (ns rules : List Str) → NoRepeat rules → NoRepeat (add_all rules ns)
unfolding add_all
add_all-NoRepeat [] rules h = h
add_all-NoRepeat (n ∷ ns) rules h = add_all-NoRepeat ns _ (add_count_rule-NoRepeat rules n h)

module _ (x : Str) where
  -- The name is in the list.
  abbrev pub IsNamed : List Str → Type 0
  IsNamed l = Some (λ y. y ≡ x) l

  IsNamed-append : (xs ys : List Str) → IsNamed (xs ++ ys) ↔ (IsNamed xs ⊎ IsNamed ys)
  IsNamed-append [] ys = (λ h. inr h, λ h. elim h [ inl k ↦ absurd k | inr k ↦ k ])
  IsNamed-append (z ∷ xs) ys = ground (arith, IsNamed-append xs ys)

  present :
      (rules : List Str) (r : Str) → any_of (λ y. str_eq y r) rules ≡ true → r ≡ x → IsNamed rules
  present rules r e k =
      let found = (any_of_iff (λ y. str_eq y r) rules).0 e in
      Some_map {P = λ y. str_eq y r ≡ true} {Q = λ y. y ≡ x} (λ y h. (str_eq_iff y r).0 h ∙ k) rules
        found

  IsNamed-one : (rules : List Str) (r : Str) → IsNamed (rules ++ r ∷ []) ↔ (IsNamed rules ⊎ (r ≡ x))
  IsNamed-one rules r = ground (arith, IsNamed-append rules (r ∷ []))

  IsNamed-add_count_rule :
      (rules : List Str) (r : Str) → IsNamed (add_count_rule rules r) ↔ (IsNamed rules ⊎ (r ≡ x))
  unfolding add_count_rule
  IsNamed-add_count_rule rules r = elim (Bool-cases (any_of (λ y. str_eq y r) rules)) [
    | inl e ↦ rw e (λ h. inl h, λ h. elim h [ inl k ↦ k | inr k ↦ present rules r e k ])
    | inr e ↦ rw e (IsNamed-one rules r)
  ]

  IsNamed-add_all :
      (ns rules : List Str) → IsNamed (add_all rules ns) ↔ (IsNamed rules ⊎ IsNamed ns)
  unfolding add_all
  IsNamed-add_all [] rules = (λ h. inl h, λ h. elim h [ inl k ↦ k | inr k ↦ absurd k ])
  IsNamed-add_all (n ∷ ns) rules =
      ground (arith, IsNamed-add_all ns (add_count_rule rules n), IsNamed-add_count_rule rules n)

-- The rules counted for a request are, each once, the terminating rules of the rule groups other than
-- the group that the request is reported under, which would have ended it, the rules of the groups
-- and of the request that match with the action COUNT, and the excluded rules with an ID. A rule that
-- is reported can be counted as well, as an excluded one.
pub rules_of-counted :
    (r : RawRecord) (x : Str)
    → NoRepeat (rules_of r).counted × (IsNamed x (rules_of r).counted ↔ IsNamed x (counted_names r))
rules_of-counted r x =
    rw (counted_add_all r) (add_all-NoRepeat (counted_names r) [] tt, named_empty (counted_names r))
  where
    named_empty : (ns : List Str) → IsNamed x (add_all [] ns) ↔ IsNamed x ns
    named_empty ns = ground (arith, IsNamed-add_all x ns [])
