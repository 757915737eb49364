-- ===== src/WafLog/Rules.antt =====
-- Which rule a request is reported under, and which rules are counted for it.
use ctaudit.Prelude.{
  ℕ, suc, ◌≤◌, ◌≡◌, ◌⊎◌, inl, inr, refl, ap, sym, ◌∙◌, Bool, true, false, Option, none, some, List,
  [], ◌∷◌, if◌then◌else◌, eqb_iff, arith, Bool-cases, Option-cases,
}
use ctaudit.Text.{Str, codes, nonempty, equal_fold}
use ctaudit.WafLog.{RawRule, RawGroup, RawRecord}
use ctaudit.WafLog.Parse.{
  Ruled, count_rule, count_matches, count_excluded, end_group, is_at, read_group, read_groups,
  rules_of, reselect, select_last, selected_group, from_group, terminating_id, in_group, group_name,
}

-- The later of two groups, the other one with the ID of its terminating rule, if any.
later : Option (Str × Str) → Str → Option Str → Option (Str × Str)
later (some p) group id = some p
later none group none = none
later none group (some id) = some (group, id)

-- The last group whose terminating rule has an ID, with the ID.
pub last_ending : List RawGroup → Option (Str × Str)
unfolding later
last_ending [] = none
last_ending (g ∷ gs) = later (last_ending gs) (group_name g.rule_group_id) (terminating_id g)

later-none :
    (o : Option (Str × Str)) (group : Str) (t : Option Str)
    → later o group t ≡ none
    → (o ≡ none) × (t ≡ none)
unfolding later
later-none (some p) group t h = ground arith
later-none none group none h = (refl, refl)
later-none none group (some id) h = ground arith

later-some :
    (o : Option (Str × Str)) (group : Str) (t : Option Str) (p : Str × Str)
    → later o group t ≡ some p
    → (o ≡ some p) ⊎ ((o ≡ none) × ((id : Str) × (t ≡ some id)))
unfolding later
later-some (some q) group t p h = inl h
later-some none group none p h = ground arith
later-some none group (some id) p h = inr (refl, (id, refl))

-- The rule and the group that the selected group gives a request, in place of its own rule.
pub reported : Str × Str → Option (Str × Str) → Str × Str
reported own none = own
reported own (some (group, id)) = (in_group group id, group)

-- The rule and the group.
abbrev pub blame : Ruled → Str × Str
blame e = (e.rule, e.group)

blame-if : (b : Bool) (e : Ruled) (r : Str) → blame (if b then count_rule e r else e) ≡ blame e
unfolding count_rule
blame-if true e r = refl
blame-if false e r = refl

blame-count_matches :
    (name : Str → Str) (nts : List RawRule) (e : Ruled) → blame (count_matches name e nts) ≡ blame e
unfolding count_matches
blame-count_matches name [] e = refl
blame-count_matches name (nt ∷ nts) e =
    blame-count_matches name nts _
    ∙ blame-if (equal_fold nt.action (codes "COUNT")) e (name nt.rule_id)

blame-count_excluded :
    (name : Str → Str) (ids : List Str) (e : Ruled) → blame (count_excluded name e ids) ≡ blame e
unfolding count_excluded
blame-count_excluded name [] e = refl
blame-count_excluded name (id ∷ ids) e =
    blame-count_excluded name ids _ ∙ blame-if (nonempty id) e (name id)

blame-read_group :
    (selected : Option ℕ) (i : ℕ) (e : Ruled) (g : RawGroup)
    → blame (read_group selected i e g)
      ≡ blame (end_group (is_at selected i) (group_name g.rule_group_id) e (terminating_id g))
unfolding read_group
blame-read_group selected i e g =
    blame-count_excluded _ g.excluded_rules _ ∙ blame-count_matches _ g.non_terminating _

-- Where no group ends the request, the position selected so far stays.
pub select_last-none :
    (gs : List RawGroup) (acc : Option ℕ) (i : ℕ)
    → last_ending gs ≡ none
    → select_last acc i gs ≡ acc
unfolding select_last last_ending reselect
select_last-none [] acc i h = refl
select_last-none (g ∷ gs) acc i h =
    let (later_groups, own) = later-none _ _ _ h in
    select_last-none gs _ (suc i) later_groups ∙ ap (λ t. reselect t i acc) own

-- Where one does, its position is at or behind the first one looked at.
pub select_last-some :
    (gs : List RawGroup) (acc : Option ℕ) (i : ℕ) (p : Str × Str)
    → last_ending gs ≡ some p
    → (j : ℕ) × (select_last acc i gs ≡ some j) × (i ≤ j)
unfolding select_last last_ending reselect
select_last-some [] acc i p h = ground arith
select_last-some (g ∷ gs) acc i p h = elim (later-some _ _ _ p h) [
  | inl e ↦
      let (j, at, k) = select_last-some gs (reselect (terminating_id g) i acc) (suc i) p e in
      (j, at, omega arith)
  | inr (e, (id, own)) ↦
      (i, select_last-none gs _ (suc i) e ∙ ap (λ t. reselect t i acc) own, omega arith)
]

reported-end_group :
    (acc : Option ℕ) (i : ℕ) (group : Str) (e : Ruled) (t : Option Str)
    → blame (end_group (is_at (reselect t i acc) i) group e t)
      ≡ reported (blame e) (later none group t)
unfolding reselect end_group reported later
reported-end_group acc i group e none = refl
reported-end_group acc i group e (some id) = rw ((eqb_iff i i).1 refl) refl

reported-later :
    (own : Str × Str) (q : Str × Str) (group : Str) (t : Option Str)
    → reported own (some q) ≡ reported own (later (some q) group t)
unfolding later
reported-later own q group t = refl

reported-some : (own own' q : Str × Str) → reported own (some q) ≡ reported own' (some q)
unfolding reported
reported-some own own' q = refl

reported-none : (own : Str × Str) → reported own none ≡ own
unfolding reported
reported-none own = refl

blame-read_groups :
    (gs : List RawGroup) (acc : Option ℕ) (i : ℕ) (e : Ruled)
    → blame (read_groups (select_last acc i gs) i e gs) ≡ reported (blame e) (last_ending gs)
unfolding read_groups select_last last_ending
blame-read_groups [] acc i e = sym (reported-none (blame e))
blame-read_groups (g ∷ gs) acc i e =
    let group = group_name g.rule_group_id in
    let t = terminating_id g in
    let acc' = reselect t i acc in
    let selected = select_last acc' (suc i) gs in
    let here = blame-read_group selected i e g in
    let rest = blame-read_groups gs acc' (suc i) (read_group selected i e g) in
    elim (Option-cases (last_ending gs)) [
      | inr (q, h) ↦
          rest
          ∙ (cc (
            h,
            reported-some (blame (read_group selected i e g)) (blame e) q,
            reported-later (blame e) q group t,
          ))
      | inl h ↦
          rest
          ∙ (cc (
            h,
            here,
            select_last-none gs acc' (suc i) h,
            reported-none (blame (read_group selected i e g)),
            reported-end_group acc i group e t,
          ))
    ]

end_group_other :
    (group : Str) (e : Ruled) (t : Option Str) → blame (end_group false group e t) ≡ blame e
unfolding end_group count_rule
end_group_other group e none = refl
end_group_other group e (some id) = refl

blame-read_groups-none :
    (gs : List RawGroup) (i : ℕ) (e : Ruled) → blame (read_groups none i e gs) ≡ blame e
unfolding read_groups
blame-read_groups-none [] i e = refl
blame-read_groups-none (g ∷ gs) i e =
    blame-read_groups-none gs (suc i) (read_group none i e g)
    ∙ (blame-read_group none i e g
        ∙ end_group_other (group_name g.rule_group_id) e (terminating_id g))

-- The rule and the group that a request is reported under: where the terminating rule came from a
-- group, those of the last group whose terminating rule has an ID, if there is one; otherwise the
-- terminating rule itself, with no group.
pub rules_of-rule :
    (r : RawRecord)
    → blame (rules_of r) ≡ (
        if from_group r
        then reported (r.terminating_rule_id, []) (last_ending r.rule_group_list)
        else (r.terminating_rule_id, []))
unfolding rules_of selected_group
rules_of-rule r =
    let start : Ruled = record { rule = r.terminating_rule_id; group = []; counted = [] } in
    blame-count_matches (λ id. id) r.non_terminating _ ∙ (elim (Bool-cases (from_group r)) [
      | inl h ↦ rw h (blame-read_groups r.rule_group_list none 0 start)
      | inr h ↦ rw h (blame-read_groups-none r.rule_group_list 0 start)
    ])
