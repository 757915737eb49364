-- ===== src/Stats/Paths.antt =====
-- NormalizePath of internal/stats/elb.go.
use ctaudit.Prelude.{
  ℕ, zero, suc, ◌≡◌, refl, subst, false, Bool, not, ◌&&◌, ◌||◌, List, [], ◌∷◌, ◌++◌, map,
  if◌then◌else◌, ltb, any_of, is_empty, take, drop, none, some, arith, Bool-cases, inl, inr,
  Option-cases,
}
use ctaudit.Text.{Str, codes, index_byte}
use ctaudit.Text.Split.{
  split_at, join_with, has_byte, AreFree, split_at-AreFree, split_at_some, split_at-join_with,
}

-- allDigits(s)
unfoldable pub all_digits : Str → Bool
all_digits s = not (any_of (λ c. ltb c b'0' || ltb b'9' c) s)

-- The part of a segment before its first dot, and the rest.
unfoldable pub stem_of : Str → Str
stem_of seg = elim (index_byte seg b'.') [ none ↦ seg | some j ↦ take j seg ]

unfoldable pub extension_of : Str → Str
extension_of seg = elim (index_byte seg b'.') [ none ↦ [] | some j ↦ drop j seg ]

unfoldable pub is_numeric : Str → Bool
is_numeric seg = not (is_empty (stem_of seg)) && all_digits (stem_of seg)

unfoldable pub normalize_segment : Str → Str
unfolding codes
normalize_segment seg = if is_numeric seg then codes "{n}" ++ extension_of seg else seg

-- NormalizePath(p)
unfoldable pub normalize_path : Str → Str
normalize_path p =
    let segs = split_at b'/' p in
    if is_empty p
    then []
    else if any_of is_numeric segs
    then join_with b'/' (map normalize_segment segs)
    else p

drop-free : (b : ℕ) (j : ℕ) (s : Str) → has_byte b s ≡ false → has_byte b (drop j s) ≡ false
drop-free b zero s h = h
drop-free b (suc j) [] h = h
drop-free b (suc j) (c ∷ s) h = drop-free b j s (ground arith)

extension-free : (b : ℕ) (s : Str) → has_byte b s ≡ false → has_byte b (extension_of s) ≡ false
unfolding extension_of
extension-free b s h = elim (Option-cases (index_byte s b'.')) [
  | inl e ↦ rw (extension_of, e) refl
  | inr (j, e) ↦ rw (extension_of, e) (drop-free b j s h)
]

normalize_segment-free :
    (s : Str) → has_byte b'/' s ≡ false → has_byte b'/' (normalize_segment s) ≡ false
unfolding normalize_segment codes
normalize_segment-free s h = elim (Bool-cases (is_numeric s)) [
  | inl e ↦ rw e (extension-free b'/' s h)
  | inr e ↦ rw e h
]

-- A normalised segment is not numeric any more.
braced_stem : (s : Str) → (r : Str) × (stem_of (b'{' ∷ s) ≡ b'{' ∷ r)
unfolding stem_of index_byte
braced_stem s = elim (Option-cases (index_byte s b'.')) [
  | inl e ↦ (s, rw e refl)
  | inr (j, e) ↦ (take j s, rw e refl)
]

is_numeric_braced : (s : Str) → is_numeric (b'{' ∷ s) ≡ false
unfolding is_numeric all_digits
is_numeric_braced s = let (r, e) = braced_stem s in rw e refl

is_numeric-normalize_segment : (s : Str) → is_numeric (normalize_segment s) ≡ false
unfolding normalize_segment codes
is_numeric-normalize_segment s = elim (Bool-cases (is_numeric s)) [
  | inl e ↦ rw e (is_numeric_braced _)
  | inr e ↦ rw e e
]

none_numeric : (segs : List Str) → any_of is_numeric (map normalize_segment segs) ≡ false
none_numeric [] = refl
none_numeric (s ∷ segs) = rw (is_numeric-normalize_segment s) (none_numeric segs)

map-AreFree : (segs : List Str) → AreFree b'/' segs → AreFree b'/' (map normalize_segment segs)
map-AreFree [] h = tt
map-AreFree (s ∷ segs) (hs, h) = (normalize_segment-free s hs, map-AreFree segs h)

split-normalized :
    (p : Str)
    → split_at b'/' (join_with b'/' (map normalize_segment (split_at b'/' p)))
      ≡ map normalize_segment (split_at b'/' p)
split-normalized p =
    let (y, ys, e) = split_at_some b'/' p in
    rw e (
      split_at-join_with b'/' (normalize_segment y) (map normalize_segment ys)
        (map-AreFree (y ∷ ys) (subst (AreFree b'/') e (split_at-AreFree b'/' p))))

settled : (q : Str) → any_of is_numeric (split_at b'/' q) ≡ false → normalize_path q ≡ q
unfolding normalize_path
settled [] h = refl
settled (c ∷ q) h = rw h refl

-- A path that is normalised already is left as it is, so requests that differ in their numeric
-- segments stay grouped however often a path is normalised.
normalize_path_idem : (p : Str) → normalize_path (normalize_path p) ≡ normalize_path p
unfolding normalize_path
normalize_path_idem [] = refl
normalize_path_idem (c ∷ p) = elim (Bool-cases (any_of is_numeric (split_at b'/' (c ∷ p)))) [
  | inl e ↦ rw e (settled _ (rw (split-normalized (c ∷ p)) (none_numeric (split_at b'/' (c ∷ p)))))
  | inr e ↦ rw e (settled (c ∷ p) e)
]
