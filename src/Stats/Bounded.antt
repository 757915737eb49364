-- ===== src/Stats/Bounded.antt =====
-- Distinct of internal/stats/bounded.go: per source, a bounded set of distinct values. A set
-- lists its values in the order of their arrival.
pub mod Exact
use ctaudit.Prelude.{
  ℕ, Word, slt, Bool, true, false, ◌||◌, Option, none, some, or_else, List, [], ◌∷◌, ◌++◌,
  if◌then◌else◌, ltb, leb, length,
}
use ctaudit.Map.{Comparable, find, put, member}
use ctaudit.Sort.{sort_by}

pub record Distinct (Addr K : Type 0) : Type 0 where
  pub limit : ℕ
  pub max_sources : ℕ
  pub sets : List (Addr × List K)
  pub truncated : Bool

-- Go's max(n, 1) on int
abbrev pub at_least_one : Word → ℕ
at_least_one n = if slt n 1 then 1 else n

-- NewDistinct
unfoldable pub new_distinct : {Addr K : Type 0} → Word → Word → Distinct Addr K
new_distinct limit max_sources = record {
  limit = at_least_one limit;
  max_sources = at_least_one max_sources;
  sets = [];
  truncated = false;
}

-- `set[v] = struct{}{}`
unfoldable pub insert : {K : Type 0} ⦃c : Comparable K⦄ → K → List K → List K
insert v set = if member v set then set else set ++ v ∷ []

-- `if len(set) < d.limit { set[v] = struct{}{} }`
unfoldable pub insert_below : {K : Type 0} ⦃c : Comparable K⦄ → ℕ → K → List K → List K
insert_below limit v set = if ltb (length set) limit then insert v set else set

module _ {Addr K : Type 0} ⦃a : Comparable Addr⦄ ⦃c : Comparable K⦄ where
  -- d.Add(src, v)
  unfoldable pub add : Addr → K → Distinct Addr K → Distinct Addr K
  add src v d = elim (find src d.sets) [
    | none ↦
        if leb d.max_sources (length d.sets)
        then record d { truncated = true }
        else record d { sets = put src (insert_below d.limit v []) d.sets }
    | some set ↦ record d { sets = put src (insert_below d.limit v set) d.sets }
  ]

  -- The loops of d.Merge(o).
  unfoldable pub add_values : Addr → List K → Distinct Addr K → Distinct Addr K
  add_values src [] d = d
  add_values src (v ∷ vs) d = add_values src vs (add src v d)

  unfoldable pub add_sets : List (Addr × List K) → Distinct Addr K → Distinct Addr K
  add_sets [] d = d
  add_sets ((src, vs) ∷ rest) d = add_sets rest (add_values src vs d)

  -- d.Merge(o), for an `o` that is not nil.
  unfoldable pub merge : Distinct Addr K → Distinct Addr K → Distinct Addr K
  merge o d = add_sets o.sets (record d { truncated = d.truncated || o.truncated })

  -- d.Values(src), d.Count(src) and d.Sources()
  unfoldable pub values : Addr → Distinct Addr K → List K
  values src d = or_else (find src d.sets) []

  unfoldable pub count : Addr → Distinct Addr K → ℕ
  count src d = length (values src d)

  unfoldable pub sources : Distinct Addr K → ℕ
  sources d = length d.sets

  -- d.AtLeast(n), in the order of netip.Addr's Less.
  at_least_from : Word → List (Addr × List K) → List Addr
  at_least_from n [] = []
  at_least_from n ((src, set) ∷ rest) =
      let others = at_least_from n rest in if slt (length set) n then others else src ∷ others

  unfoldable pub at_least : (Addr → Addr → Bool) → Word → Distinct Addr K → List Addr
  unfolding at_least_from
  at_least less n d = sort_by less (at_least_from n d.sets)
