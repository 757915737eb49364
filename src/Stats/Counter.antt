-- ===== src/Stats/Counter.antt =====
-- Counter of internal/stats/stats.go, and its capped additions of internal/stats/bounded.go.
pub mod Ranked
pub mod Capped
pub mod Adds
use ctaudit.Prelude.{
  ℕ, Word, ◌+ʷ◌, slt, Bool, true, false, not, ◌&&◌, ◌||◌, List, [], ◌∷◌, if◌then◌else◌, eqb, ltb,
  length, take,
}
use ctaudit.Text.{Str, codes, str_eq, str_lt, nonempty}
use ctaudit.Map.{has_key, str_comparable}
use ctaudit.Map.Tally.{bump, bump_all}
use ctaudit.Sort.{sort_by}

-- A map from keys to counts. A Pair of the source is an entry.
abbrev pub Counter : Type 0
Counter = List (Str × Word)

-- The comparison of TopN: the higher count first, then the lower key.
unfoldable pub ranks_before : Str × Word → Str × Word → Bool
ranks_before (k, v) (j, w) = if not (eqb v w) then slt w v else str_lt k j

-- c.TopN(n)
unfoldable pub top_n : Counter → Word → List (Str × Word)
top_n c n =
    if not (slt 0 n)
    then []
    else let pairs = sort_by ranks_before c in if ltb n (length pairs) then take n pairs else pairs

-- c.add(key)
unfoldable pub add : Str → Counter → Counter
add key c = if nonempty key then bump key 1 c else c

-- c.merge(other)
unfoldable pub merge : Counter → Counter → Counter
merge other c = bump_all other c

abbrev pub default_max_keys : ℕ
default_max_keys = 50000

unfoldable pub other_key : Str
other_key = codes "(other)"

-- c.addCapped(key, n, max)
unfoldable pub add_capped : Str → Word → Word → Counter → Counter
add_capped key n max c =
    if not (nonempty key) || eqb n 0
    then c
    else let limit = if slt 0 max then max else default_max_keys in
      if has_key key c || ltb (length c) limit then bump key n c else bump other_key n c

-- c.mergeCapped(o, max)
unfoldable pub merge_capped : Counter → Word → Counter → Counter
merge_capped [] max c = c
merge_capped ((k, v) ∷ o) max c = merge_capped o max (add_capped k v max c)
