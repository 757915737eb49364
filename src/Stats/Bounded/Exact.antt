-- ===== src/Stats/Bounded/Exact.antt =====
-- The bounded sets against sets without a bound.
use ctaudit.Prelude.{
  ℕ, Word, zero, suc, ◌+◌, ◌≤◌, ◌≡◌, refl, ap, inl, inr, true, false, none, or_else, List, [], ◌∷◌,
  ◌++◌, if◌then◌else◌, ltb, leb, length, take, take_short, length-append, length-take, arith,
  Bool-cases, Option-cases, is_some, ◌||◌, ◌↔◌,
}
use ctaudit.Map.{Comparable, find, put, member, has_key}
use ctaudit.Map.Laws.{find-put, length-put}
use ctaudit.Stats.Bounded.{
  Distinct, insert, insert_below, add, add_values, add_sets, merge, values, count, new_distinct,
}

take_nil {ℓ} : {A : Type ℓ} (n : ℕ) → take {A = A} n [] ≡ []
take_nil zero = refl
take_nil (suc n) = refl

take-append_short {ℓ} :
    {A : Type ℓ} (n : ℕ) (xs ys : List A) → n ≤ length xs → take n (xs ++ ys) ≡ take n xs
take-append_short zero xs ys h = refl
take-append_short (suc n) [] ys h = absurd (omega arith)
take-append_short (suc n) (x ∷ xs) ys h = ap (◌∷◌ x) (take-append_short n xs ys (omega arith))

module _ {K : Type 0} ⦃c : Comparable K⦄ where
  length-insert : (v : K) (set : List K) → length (insert v set) ≤ length set + 1
  unfolding insert
  length-insert v set = ground (arith, length-append set (v ∷ []))

  take-insert_full :
      (limit : ℕ) (v : K) (set : List K)
      → limit ≤ length set
      → take limit (insert v set) ≡ take limit set
  unfolding insert
  take-insert_full limit v set h = elim (Bool-cases (member v set)) [
    | inl e ↦ rw e
    | inr e ↦ rw e (take-append_short limit set (v ∷ []) h)
  ]

  -- A capped insertion into the first `limit` values gives the first `limit` values of the
  -- insertion without a cap.
  pub insert_below-take :
      (limit : ℕ) (v : K) (set : List K)
      → insert_below limit v (take limit set) ≡ take limit (insert v set)
  unfolding insert_below
  insert_below-take limit v set = elim (Bool-cases (ltb (length set) limit)) [
    | inl room ↦
        let same = take_short limit set (ground arith) in
        let fits = take_short limit (insert v set) (ground (arith, length-insert v set)) in
        rw (same, room, fits) refl
    | inr full ↦
        let len : length (take limit set) ≡ limit = ground (arith, length-take limit set) in
        rw (take-insert_full limit v set (ground arith)) (ground (arith, len))
  ]

  length-insert_below :
      (limit : ℕ) (v : K) (set : List K)
      → length set ≤ limit
      → length (insert_below limit v set) ≤ limit
  unfolding insert_below
  length-insert_below limit v set h = ground (arith, length-insert v set)

module _ {Addr K : Type 0} ⦃a : Comparable Addr⦄ ⦃c : Comparable K⦄ where
  -- Every value that a log of observations has for a source, each once, in order of arrival.
  unfoldable pub seen_values : Addr → List (Addr × K) → List K
  seen_values src [] = []
  seen_values src ((s, v) ∷ log) =
      let before = seen_values src log in if a.same s src then insert v before else before

  -- The tracker after a log of observations, the latest first.
  unfoldable pub track : List (Addr × K) → Distinct Addr K → Distinct Addr K
  track [] d = d
  track ((s, v) ∷ log) d = add s v (track log d)

  -- A tracked source has the first values that arrived, up to the limit; an untracked one had
  -- none, unless the tracker says that it was truncated.
  pub record IsExact (d : Distinct Addr K) (log : List (Addr × K)) : Type 0 where
    pub tracked :
        (src : Addr) → has_key src d.sets ≡ true → values src d ≡ take d.limit (seen_values src log)
    pub untracked :
        (src : Addr) → has_key src d.sets ≡ false → d.truncated ≡ false → seen_values src log ≡ []
    pub full : d.truncated ≡ true → d.max_sources ≤ length d.sets

  module _ (s : Addr) (v : K) (d : Distinct Addr K) (log : List (Addr × K))
      (h : IsExact d log) where
    -- A new source for which there is no room.
    dropped-IsExact :
        find s d.sets ≡ none
        → leb d.max_sources (length d.sets) ≡ true
        → IsExact (record d { truncated = true }) ((s, v) ∷ log)
    unfolding seen_values values has_key
    dropped-IsExact new no_room = record {
      tracked = λ src is. ground (arith, a.same_iff s src, h.tracked src);
      untracked = λ src is not. cc;
      full = λ _. ground arith;
    }

    -- The set of the source, with the value written back.
    written-IsExact :
        (set : List K)
        → set ≡ take d.limit (seen_values s log)
        → IsExact (record d { sets = put s (insert_below d.limit v set) d.sets }) ((s, v) ∷ log)
    unfolding seen_values values has_key
    written-IsExact set e =
        let new = insert_below d.limit v set in
        record {
          tracked = λ src is. ground (
            arith,
            a.same_iff s src,
            find-put s src new d.sets,
            insert_below-take d.limit v (seen_values s log),
            h.tracked src,
          );
          untracked = λ src is not.
              ground (arith, a.same_iff s src, find-put s src new d.sets, h.untracked src);
          full = λ t. ground (arith, length-put s new d.sets, h.full t);
        }

    add-IsExact : IsExact (add s v d) ((s, v) ∷ log)
    unfolding add
    add-IsExact = elim (Option-cases (find s d.sets)) [
      | inl new ↦ elim (Bool-cases (leb d.max_sources (length d.sets))) [
        | inl no_room ↦ rw (new, no_room, add) (dropped-IsExact new no_room)
        | inr room ↦
            let whole : d.truncated ≡ false = ground (arith, h.full) in
            let none_yet = h.untracked s (unfold has_key in rw new) whole in
            rw (new, room, add) (written-IsExact [] (rw (none_yet, take_nil d.limit)))
      ]
      | inr (set, old) ↦
          let same = h.tracked s (unfold has_key in rw old) in
          rw (old, add) (written-IsExact set (unfold values in rw old at same))
    ]

  -- The tracker answers exactly: after any log of observations a tracked source holds the first
  -- values that arrived, up to its limit, and a source that is not tracked had none unless the
  -- tracker says that it was truncated.
  pub track-IsExact :
      (limit max_sources : ℕ) (log : List (Addr × K))
      → IsExact (track log (new_distinct limit max_sources)) log
  unfolding track
  track-IsExact limit max_sources [] =
      unfold new_distinct seen_values values find has_key in
      record { tracked = λ src h. cc; untracked = λ src h h'. refl; full = λ h. cc }
  track-IsExact limit max_sources ((s, v) ∷ log) =
      add-IsExact s v (track log (new_distinct limit max_sources)) log
        (track-IsExact limit max_sources log)

  -- A threshold up to the limit is answered as the whole log would answer it, unless a source
  -- had to be dropped.
  pub count_reaches :
      (limit max_sources : ℕ) (log : List (Addr × K)) (src : Addr) (n : ℕ)
      → n ≤ (track log (new_distinct limit max_sources)).limit
      → (track log (new_distinct limit max_sources)).truncated ≡ false
      → (n ≤ count src (track log (new_distinct limit max_sources)))
        ↔ (n ≤ length (seen_values src log))
  unfolding count
  count_reaches limit max_sources log src n small whole =
      let d = track log (new_distinct limit max_sources) in
      let exact = track-IsExact limit max_sources log in
      elim (Bool-cases (has_key src d.sets)) [
        | inl is ↦
            let e = ap length (exact.tracked src is) in
            let len = length-take d.limit (seen_values src log) in
            (λ h. omega arith, λ h. omega arith)
        | inr not ↦
            let e = ap length (exact.untracked src not whole) in
            let z : length (values src d) ≡ 0 = unfold values has_key in ground arith in
            (λ h. omega arith, λ h. omega arith)
      ]

  -- The bounds on memory: at most `max_sources` sets, of at most `limit` values each.
  pub record Fits (d : Distinct Addr K) : Type 0 where
    pub few_sources : length d.sets ≤ d.max_sources
    pub small_sets : (src : Addr) → length (values src d) ≤ d.limit

  pub add-Fits : (s : Addr) (v : K) (d : Distinct Addr K) → Fits d → Fits (add s v d)
  unfolding add values
  add-Fits s v d h = record {
    few_sources = ground (
      arith,
      length-put s (insert_below d.limit v []) d.sets,
      length-put s (insert_below d.limit v (or_else (find s d.sets) [])) d.sets,
      has_key_lem s d,
    );
    small_sets = λ src. ground (
      arith,
      h.small_sets src,
      h.small_sets s,
      find-put s src (insert_below d.limit v []) d.sets,
      find-put s src (insert_below d.limit v (or_else (find s d.sets) [])) d.sets,
      length-insert_below d.limit v [],
      length-insert_below d.limit v (or_else (find s d.sets) []),
    );
  }
    where
      has_key_lem : (s : Addr) (d : Distinct Addr K) → has_key s d.sets ≡ is_some (find s d.sets)
      has_key_lem s d = unfold has_key in refl

  add_values-Fits :
      (s : Addr) (vs : List K) (d : Distinct Addr K) → Fits d → Fits (add_values s vs d)
  unfolding add_values
  add_values-Fits s [] d h = h
  add_values-Fits s (v ∷ vs) d h = add_values-Fits s vs (add s v d) (add-Fits s v d h)

  add_sets-Fits :
      (sets : List (Addr × List K)) (d : Distinct Addr K) → Fits d → Fits (add_sets sets d)
  unfolding add_sets
  add_sets-Fits [] d h = h
  add_sets-Fits ((s, vs) ∷ rest) d h =
      add_sets-Fits rest (add_values s vs d) (add_values-Fits s vs d h)

  -- A merge keeps the bounds, whatever is merged in.
  pub merge-Fits : (o d : Distinct Addr K) → Fits d → Fits (merge o d)
  unfolding merge values
  merge-Fits o d h =
      add_sets-Fits o.sets (record d { truncated = d.truncated || o.truncated })
        (record { few_sources = h.few_sources; small_sets = h.small_sets })

  pub new_distinct-Fits : (limit max_sources : Word) → Fits (new_distinct limit max_sources)
  unfolding new_distinct values
  new_distinct-Fits limit max_sources = record {
    few_sources = omega arith;
    small_sets = λ src. unfold find in omega arith;
  }
