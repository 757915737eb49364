-- ===== src/Engine/Matched.antt =====
-- What a scan reports of the records that pass the filter, however the scheduler shares the keys
-- out among the workers.
use ctaudit.Prelude.{
  ℕ, zero, suc, ◌≤◌, ◌%◌, ◌^◌, ◌≡◌, refl, ap, sym, ◌∙◌, subst, Word, false, List, [], ◌∷◌, ◌++◌,
  append_assoc, append-nil, if◌then◌else◌, ltb, length, length-append, take, arith, Bool-cases, inl,
  inr,
}
use ctaudit.Text.{Str}
use ctaudit.CtEvent.{Record}
use ctaudit.Query.{Filter, match}
use ctaudit.Findings.{Rule}
use ctaudit.Findings.Detector.{new_detector, inspect, inspect_rules}
use ctaudit.Findings.Hits.{Holds, hits_of, hits_of_all, new_detector-Holds}
use ctaudit.Findings.Merge.{inspect_rules-Holds, inspect_rules-rules, merge-Holds, merge-max}
use ctaudit.Engine.{Fetched, got, lost}
use ctaudit.Engine.CloudTrail.{Shard, capped_detector, new_shard, visit, take_matches, merge_shard}

-- The records of an object, none for one that could not be read, and those that pass the filter.
unfoldable pub records_of : {T : Type 0} → Fetched T → List T
records_of (lost e) = []
records_of (got rs e) = rs

unfoldable pub selected : Filter → List Record → List Record
selected f [] = []
selected f (r ∷ rs) = if match f r then r ∷ selected f rs else selected f rs

unfoldable pub selected_by : Filter → (Str → Fetched Record) → List Str → List Record
unfolding selected records_of
selected_by f fetch [] = []
selected_by f fetch (k ∷ ks) = selected f (records_of (fetch k)) ++ selected_by f fetch ks

-- Worker after worker.
unfoldable pub selected_of : Filter → (Str → Fetched Record) → List (List Str) → List Record
unfolding selected_by
selected_of f fetch [] = []
selected_of f fetch (ks ∷ took) = selected_by f fetch ks ++ selected_of f fetch took

pub hits_of_all-append :
    (rules : List Rule) (xs ys : List Record)
    → hits_of_all rules (xs ++ ys) ≡ hits_of_all rules xs ++ hits_of_all rules ys
unfolding hits_of_all
hits_of_all-append rules [] ys = refl
hits_of_all-append rules (x ∷ xs) ys =
    ap (λ l. hits_of rules x ++ l) (hits_of_all-append rules xs ys)
    ∙ sym (append_assoc (hits_of rules x) (hits_of_all rules xs) (hits_of_all rules ys))

take-snoc :
    {A : Type 0} (n : ℕ) (xs : List A) (x : A)
    → (if ltb (length (take n xs)) n then take n xs ++ x ∷ [] else take n xs)
      ≡ take n (xs ++ x ∷ [])
take-snoc zero xs x = refl
take-snoc (suc zero) [] x = refl
take-snoc (suc (suc n)) [] x = ground arith
take-snoc (suc n) (y ∷ xs) x = ground (arith, take-snoc n xs x)

take_full :
    {A : Type 0} (n : ℕ) (xs ys : List A)
    → ltb (length (take n xs)) n ≡ false
    → take n (xs ++ ys) ≡ take n xs
take_full zero xs ys h = refl
take_full (suc n) [] ys h = ground arith
take_full (suc n) (x ∷ xs) ys h = ground (arith, take_full n xs ys)

take-append_take :
    {A : Type 0} (n k : ℕ) (xs ys : List A) → n ≤ k → take n (xs ++ take k ys) ≡ take n (xs ++ ys)
take-append_take zero k xs ys h = refl
take-append_take (suc n) zero [] ys h = absurd (omega arith)
take-append_take (suc n) (suc k) [] [] h = refl
take-append_take (suc n) (suc k) [] (y ∷ ys) h =
    ap (◌∷◌ y) (take-append_take n k [] ys (omega arith))
take-append_take (suc n) k (x ∷ xs) ys h = ap (◌∷◌ x) (take-append_take n k xs ys (omega arith))

take_nil : {A : Type 0} (n : ℕ) → take {A = A} n [] ≡ []
take_nil zero = refl
take_nil (suc n) = refl

take_matches_lem : (n : ℕ) (ms xs : List Record) → take_matches n ms (take n xs) ≡ take n (xs ++ ms)
unfolding take_matches
take_matches_lem n [] xs = ap (take n) (sym (append-nil xs))
take_matches_lem n (m ∷ ms) xs = elim (Bool-cases (ltb (length (take n xs)) n)) [
  | inl e ↦ rw e (
      ap (take_matches n ms) (sym (rw e refl) ∙ take-snoc n xs m)
      ∙ take_matches_lem n ms (xs ++ m ∷ [])
      ∙ ap (take n) (append_assoc xs (m ∷ []) ms))
  | inr e ↦ rw e (sym (take_full n xs (m ∷ ms) e))
]

module _ (rules : List Rule) (cap : Word) (most : ℕ) where
  -- The shard reports on the records `xs`.
  pub record Saw (sh : Shard) (xs : List Record) : Type 0 where
    pub detector : Holds sh.detector (hits_of_all rules xs)
    pub max : sh.detector.max ≡ cap
    pub matched : sh.matched_records ≡ length xs % 2 ^ 64
    pub matches : sh.matches ≡ take most xs

  pub new_shard-Saw : Saw (new_shard rules cap) []
  unfolding new_shard capped_detector new_detector hits_of_all
  new_shard-Saw = record {
    detector = new_detector-Holds rules cap;
    max = refl;
    matched = refl;
    matches = sym (take_nil most);
  }

  pub visit-Saw :
      (f : Filter) (r : Record) (sh : Shard) (xs : List Record)
      → sh.detector.rules ≡ rules
      → Saw sh xs
      → Saw (visit f most r sh) (xs ++ selected f (r ∷ []))
  unfolding visit selected inspect hits_of_all
  visit-Saw f r sh xs same h = elim (Bool-cases (match f r)) [
    | inl e ↦ rw e (record {
      detector =
          subst (λ l. Holds (inspect_rules sh.detector.rules r sh.detector) l)
            (ap (λ rs. hits_of_all rules xs ++ hits_of rs r) same
              ∙ sym (
                  hits_of_all-append rules xs (r ∷ [])
                  ∙ ap (λ l. hits_of_all rules xs ++ l) (append-nil (hits_of rules r))))
            (inspect_rules-Holds sh.detector.rules r sh.detector _ h.detector);
      max = (inspect_rules-rules sh.detector.rules r sh.detector).1 ∙ h.max;
      matched = omega (arith, h.matched, length-append xs (r ∷ []));
      matches =
          ap (λ l. if ltb (length l) most then l ++ r ∷ [] else l) h.matches ∙ take-snoc most xs r;
    })
    | inr e ↦ rw (e, append-nil) h
  ]

  pub merge_shard-Saw :
      (sh other : Shard) (xs ys : List Record)
      → Saw sh xs
      → Saw other ys
      → Saw (merge_shard most other sh) (xs ++ ys)
  unfolding merge_shard
  merge_shard-Saw sh other xs ys h k = record {
    detector =
        subst (Holds _) (sym (hits_of_all-append rules xs ys))
          (merge-Holds sh.detector other.detector _ _ h.detector k.detector (k.max ∙ sym h.max));
    max = merge-max sh.detector other.detector ∙ h.max;
    matched = omega (arith, h.matched, k.matched, length-append xs ys);
    matches =
        ap (λ l. take_matches most l sh.matches) k.matches
        ∙ ap (take_matches most (take most ys)) h.matches
        ∙ take_matches_lem most (take most ys) xs
        ∙ take-append_take most most xs ys (omega arith);
  }
