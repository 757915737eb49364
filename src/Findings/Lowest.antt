-- ===== src/Findings/Lowest.antt =====
-- The scan for the lowest retained finding, and how many findings are at or above a severity.
use ctaudit.Prelude.{
  ℕ, zero, suc, ◌+◌, ◌≤◌, ◌≡◌, refl, ap, sym, ◌∙◌, inl, inr, Bool, true, false, some, List, [], ◌∷◌,
  ◌++◌, if◌then◌else◌, ltb, leb, length, set, get_elem?, All, All-mono, arith, Bool-cases,
}
use ctaudit.Findings.{Severity, rank, Finding}
use ctaudit.Findings.Detector.{lowest_from, lowest_retained}

-- At least as severe as a given rank.
abbrev pub AtLeast : ℕ → List Finding → Type 0
AtLeast n = All (λ g. n ≤ rank g.severity)

pub AtLeast-mono : {m n : ℕ} → m ≤ n → (xs : List Finding) → AtLeast n xs → AtLeast m xs
AtLeast-mono h xs = All-mono (λ g k. omega arith) xs

-- One round of the scan.
lowest_from_lower :
    (f : Finding) (todo : List Finding) (i : ℕ) (sev : Severity) (k : ℕ)
    → ltb (rank f.severity) (rank sev) ≡ true
    → lowest_from (f ∷ todo) i sev k ≡ lowest_from todo (suc i) f.severity i
unfolding lowest_from
lowest_from_lower f todo i sev k e = rw (e, lowest_from)

lowest_from_same :
    (f : Finding) (todo : List Finding) (i : ℕ) (sev : Severity) (k : ℕ)
    → ltb (rank f.severity) (rank sev) ≡ false
    → lowest_from (f ∷ todo) i sev k ≡ lowest_from todo (suc i) sev k
unfolding lowest_from
lowest_from_same f todo i sev k e = rw (e, lowest_from)

-- The severity that the scan returns is the lowest.
lowest_from-le :
    (todo : List Finding) (i : ℕ) (sev : Severity) (k : ℕ)
    → (rank (lowest_from todo i sev k).0 ≤ rank sev)
      × AtLeast (rank (lowest_from todo i sev k).0) todo
lowest_from-le [] i sev k = (unfold lowest_from in omega arith, tt)
lowest_from-le (f ∷ todo) i sev k = elim (Bool-cases (ltb (rank f.severity) (rank sev))) [
  | inl e ↦
      let (le, all) = lowest_from-le todo (suc i) f.severity i in
      let p = ap (λ r. rank r.0) (lowest_from_lower f todo i sev k e) in
      (ground arith, (omega arith, AtLeast-mono (omega arith) todo all))
  | inr e ↦
      let (le, all) = lowest_from-le todo (suc i) sev k in
      let p = ap (λ r. rank r.0) (lowest_from_same f todo i sev k e) in
      (omega arith, (ground arith, AtLeast-mono (omega arith) todo all))
]

-- A finding of severity `sev` stands at index `k`.
abbrev pub At : List Finding → ℕ → Severity → Type 0
At xs k sev = (g : Finding) × (get_elem? xs k ≡ some g) × (g.severity ≡ sev)

-- The scan returns the severity of what stands at the index that it returns.
lowest_from-At :
    (xs todo : List Finding) (i : ℕ) (sev : Severity) (k : ℕ)
    → ((j : ℕ) → get_elem? todo j ≡ get_elem? xs (i + j))
    → At xs k sev
    → At xs (lowest_from todo i sev k).1 (lowest_from todo i sev k).0
unfolding lowest_from
lowest_from-At xs [] i sev k h at = at
lowest_from-At xs (f ∷ todo) i sev k h at =
    let later : ((j : ℕ) → get_elem? todo j ≡ get_elem? xs (suc i + j)) =
      λ j. h (suc j) ∙ ap (get_elem? xs) (omega arith) in
    elim (Bool-cases (ltb (rank f.severity) (rank sev))) [
      | inl e ↦
          rw (e, lowest_from)
            (lowest_from-At xs todo (suc i) f.severity i later
              (f, ap (get_elem? xs) (omega arith) ∙ sym (h 0), refl))
      | inr e ↦ rw (e, lowest_from) (lowest_from-At xs todo (suc i) sev k later at)
    ]

pub lowest_retained_lem :
    (f : Finding) (fs : List Finding)
    → At (f ∷ fs) (lowest_retained f fs).1 (lowest_retained f fs).0
      × AtLeast (rank (lowest_retained f fs).0) (f ∷ fs)
unfolding lowest_retained
lowest_retained_lem f fs = (
  lowest_from-At (f ∷ fs) fs 1 f.severity 0 (λ j. ap (get_elem? (f ∷ fs)) {x = suc j} (omega arith))
      (f, refl, refl),
  lowest_from-le fs 1 f.severity 0,
)

-- How many findings have at least the rank `n`.
abbrev pub bit : ℕ → Finding → ℕ
bit n f = if leb n (rank f.severity) then 1 else 0

abbrev pub count_from : ℕ → List Finding → ℕ
count_from n [] = 0
count_from n (f ∷ fs) = bit n f + count_from n fs

pub count_from-append :
    (n : ℕ) (xs ys : List Finding) → count_from n (xs ++ ys) ≡ count_from n xs + count_from n ys
count_from-append n [] ys = omega arith
count_from-append n (x ∷ xs) ys = omega (arith, count_from-append n xs ys)

pub count_from-le : (n : ℕ) (xs : List Finding) → count_from n xs ≤ length xs
count_from-le n [] = omega arith
count_from-le n (x ∷ xs) = ground (arith, count_from-le n xs)

pub count_from-zero : (xs : List Finding) → count_from 0 xs ≡ length xs
count_from-zero [] = refl
count_from-zero (x ∷ xs) = ground (arith, count_from-zero xs)

-- Where all findings are at or above the threshold all are counted.
pub count_from_all :
    (n m : ℕ) (xs : List Finding) → n ≤ m → AtLeast m xs → count_from n xs ≡ length xs
count_from_all n m [] h all = refl
count_from_all n m (x ∷ xs) h (px, all) = ground (arith, count_from_all n m xs h all)

-- A write in place takes the old finding out of the count and puts the new one in.
pub count_from-set :
    (n : ℕ) (xs : List Finding) (i : ℕ) (f g : Finding)
    → get_elem? xs i ≡ some g
    → count_from n (set xs i f) + bit n g ≡ count_from n xs + bit n f
count_from-set n [] i f g h = cc
count_from-set n (x ∷ xs) zero f g h = ground arith
count_from-set n (x ∷ xs) (suc i) f g h = ground (arith, count_from-set n xs i f g h)

-- A finding below the threshold is not counted.
pub count_from-lt :
    (n : ℕ) (xs : List Finding) (i : ℕ) (g : Finding)
    → get_elem? xs i ≡ some g
    → count_from n xs + 1 ≤ length xs + bit n g
count_from-lt n [] i g h = absurd (cc)
count_from-lt n (x ∷ xs) zero g h = ground (arith, count_from-le n xs)
count_from-lt n (x ∷ xs) (suc i) g h = ground (arith, count_from-lt n xs i g h)

-- How many findings meet a test.
abbrev pub times : (Finding → Bool) → List Finding → ℕ
times p [] = 0
times p (f ∷ fs) = (if p f then 1 else 0) + times p fs

pub times-append :
    (p : Finding → Bool) (xs ys : List Finding) → times p (xs ++ ys) ≡ times p xs + times p ys
times-append p [] ys = omega arith
times-append p (x ∷ xs) ys = omega (arith, times-append p xs ys)

-- A write in place adds at most the finding that it writes.
pub times-set :
    (p : Finding → Bool) (xs : List Finding) (i : ℕ) (f : Finding)
    → times p (set xs i f) ≤ times p xs + (if p f then 1 else 0)
times-set p [] i f = omega arith
times-set p (x ∷ xs) zero f = omega arith
times-set p (x ∷ xs) (suc i) f = omega (arith, times-set p xs i f)
