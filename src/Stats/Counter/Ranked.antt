-- ===== src/Stats/Counter/Ranked.antt =====
-- The ranking of a counter.
use mathlib.Core.List.{Permᴰ, Perm}
use ctaudit.Prelude.{
  ℕ, ◌^◌, ◌<◌, min, ◌≡◌, refl, true, false, [], ◌∷◌, arith, slt, length, length-take, ltb, drop,
  take-append-drop, append-nil, sym, subst, ◌++◌, Bool-cases, ◌⊎◌, inl, inr, All,
}
use ctaudit.Text.{Str, str_lt}
use ctaudit.Sort.{sort_by, IsStrictWeak, IsSortedBy}
use ctaudit.Sort.Laws.{length-sort_by, sort_by-All, sort_by-perm, sort_by-IsSortedBy}
use ctaudit.Sort.Unique.{sort_by_of_perm}
use ctaudit.Stats.Counter.{Counter, ranks_before, top_n}

str_lt_asym : (s t : Str) → str_lt s t ≡ true → str_lt t s ≡ false
unfolding str_lt
str_lt_asym [] [] h = cc
str_lt_asym [] (b ∷ t) h = refl
str_lt_asym (a ∷ s) [] h = cc
str_lt_asym (a ∷ s) (b ∷ t) h = ground (arith, str_lt_asym s t)

str_lt_weak : (s t u : Str) → str_lt t s ≡ false → str_lt u t ≡ false → str_lt u s ≡ false
unfolding str_lt
str_lt_weak [] [] [] h k = refl
str_lt_weak [] [] (c ∷ u) h k = refl
str_lt_weak [] (b ∷ t) [] h k = refl
str_lt_weak [] (b ∷ t) (c ∷ u) h k = refl
str_lt_weak (a ∷ s) [] [] h k = cc
str_lt_weak (a ∷ s) [] (c ∷ u) h k = cc
str_lt_weak (a ∷ s) (b ∷ t) [] h k = cc
str_lt_weak (a ∷ s) (b ∷ t) (c ∷ u) h k = ground (arith, str_lt_weak s t u)

str_lt_tells_apart : (s t : Str) → str_lt s t ≡ false → str_lt t s ≡ false → s ≡ t
unfolding str_lt
str_lt_tells_apart [] [] h k = refl
str_lt_tells_apart [] (b ∷ t) h k = cc
str_lt_tells_apart (a ∷ s) [] h k = cc
str_lt_tells_apart (a ∷ s) (b ∷ t) h k = ground (arith, str_lt_tells_apart s t)

-- An entry of a counter, whose count is a 64-bit word.
abbrev pub IsEntry : Str × ℕ → Type 0
IsEntry p = p.1 < 2 ^ 64

ranks_before-IsStrictWeak : IsStrictWeak ranks_before IsEntry
unfolding ranks_before
ranks_before-IsStrictWeak = record {
  asym = λ a b p q h. ground (arith, str_lt_asym a.0 b.0);
  weak = λ a b c p q r h k. ground (arith, str_lt_weak a.0 b.0 c.0);
}

ranks_before_tells_apart :
    (a b : Str × ℕ)
    → IsEntry a
    → IsEntry b
    → ranks_before a b ≡ false
    → ranks_before b a ≡ false
    → a ≡ b
unfolding ranks_before
ranks_before_tells_apart (k, v) (j, w) p q h h' = ground (arith, str_lt_tells_apart k j)

-- The ranking depends on the counts alone, and not on the order in which the map is walked.
top_n_of_perm : (c c' : Counter) (n : ℕ) → Permᴰ c c' → All IsEntry c → top_n c n ≡ top_n c' n
unfolding top_n
top_n_of_perm c c' n p h =
    rw (sort_by_of_perm ranks_before IsEntry ranks_before-IsStrictWeak ranks_before_tells_apart p h)

-- The one entry comes before the other: its count, as a signed number, is higher, or the counts are
-- the same and its key is not the later one.
abbrev pub Outranks : Str × ℕ → Str × ℕ → Type 0
Outranks (k, v) (j, w) = (slt w v ≡ true) ⊎ ((v ≡ w) × (str_lt j k ≡ false))

abbrev pub IsRanked : Counter → Type 0
IsRanked [] = Unit
IsRanked (p ∷ c) = All (Outranks p) c × IsRanked c

outranks : (a b : Str × ℕ) → IsEntry a → IsEntry b → ranks_before b a ≡ false → Outranks a b
unfolding ranks_before
outranks (k, v) (j, w) h h' e = ground arith

All-outranked :
    (a : Str × ℕ) (c : Counter)
    → IsEntry a
    → All IsEntry c
    → All (λ b. ranks_before b a ≡ false) c
    → All (Outranks a) c
All-outranked a [] h hs e = tt
All-outranked a (b ∷ c) h (h', hs) (e, es) = (outranks a b h h' e, All-outranked a c h hs es)

sorted-IsRanked : (c : Counter) → All IsEntry c → IsSortedBy ranks_before c → IsRanked c
sorted-IsRanked [] h s = tt
sorted-IsRanked (p ∷ c) (hp, h) (sp, s) = (All-outranked p c hp h sp, sorted-IsRanked c h s)

-- The entries returned, as many as asked for where there are so many, and the ones left out are
-- together those of the counter, and each entry outranks all that come after it: its count is higher,
-- or the counts are the same and its key is not the later one.
pub top_n-IsRanked :
    (c : Counter) (n : ℕ)
    → 0 < n
    → n < 2 ^ 63
    → All IsEntry c
    → (rest : Counter) × Perm (top_n c n ++ rest) c
      × IsRanked (top_n c n ++ rest)
      × (length (top_n c n) ≡ min n (length c))
unfolding top_n
top_n-IsRanked c n pos small h =
    let s = sort_by ranks_before c in
    let p = sort_by-perm ranks_before c in
    let q =
      sorted-IsRanked s (sort_by-All ranks_before IsEntry c h)
        (sort_by-IsSortedBy ranks_before IsEntry ranks_before-IsStrictWeak c h) in
    let len = length-sort_by ranks_before c in
    let ask : slt 0 n ≡ true = ground arith in
    elim (Bool-cases (ltb n (length s))) [
      | inl more ↦
          let whole = take-append-drop n s in
          rw (ask, more)
            (
              drop n s,
              subst (λ l. Perm l c) (sym whole) p,
              subst IsRanked (sym whole) q,
              omega (arith, length-take n s),
            )
      | inr less ↦
          rw (ask, less)
            (
              [],
              subst (λ l. Perm l c) (sym (append-nil s)) p,
              subst IsRanked (sym (append-nil s)) q,
              ground (arith, len),
            )
    ]
