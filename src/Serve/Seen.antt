-- ===== src/Serve/Seen.antt =====
-- What the methods of serveState do to the set of seen keys and to the list of ticks.
use ctaudit.Prelude.{
  ◌≤◌, ◌≡◌, refl, false, Option, none, some, List, [], ◌∷◌, if◌then◌else◌, arith, All, Bool-cases,
  inl, inr,
}
use ctaudit.Text.{Str}
use ctaudit.Text.Laws.{str_eq_iff}
use ctaudit.Instant.{Time, before}
use ctaudit.Map.{keys, find, put, has_key, member, IsDistinct, str_comparable}
use ctaudit.Map.Laws.{find-put, put-IsDistinct, has_key-member}
use ctaudit.Serve.Commit.{see_all, recent_keys, recent_ticks}

pub find-see_all :
    (k : Str) (now : Time) (ks : List Str) (seen : List (Str × Time))
    → find k (see_all now ks seen)
      ≡ (if has_key k seen then find k seen else if member k ks then some now else none)
unfolding see_all member has_key
find-see_all k now [] seen = ground arith
find-see_all k now (j ∷ ks) seen = elim (Bool-cases (has_key j seen)) [
  | inl e ↦ rw e (ground (arith, find-see_all k now ks seen, str_eq_iff j k))
  | inr e ↦ rw e (
      ground (arith, find-see_all k now ks (put j now seen), find-put j k now seen, str_eq_iff j k))
]

pub see_all-IsDistinct :
    (now : Time) (ks : List Str) (seen : List (Str × Time))
    → IsDistinct (keys seen)
    → IsDistinct (keys (see_all now ks seen))
unfolding see_all
see_all-IsDistinct now [] seen d = d
see_all-IsDistinct now (k ∷ ks) seen d = elim (Bool-cases (has_key k seen)) [
  | inl e ↦ rw e (see_all-IsDistinct now ks seen d)
  | inr e ↦ rw e (see_all-IsDistinct now ks (put k now seen) (put-IsDistinct k now seen d))
]

-- An entry that is young enough stays, one that is too old goes.
abbrev pub recent : Time → Option Time → Option Time
recent cutoff none = none
recent cutoff (some t) = if before t cutoff then none else some t

find_absent : (k : Str) (m : List (Str × Time)) → member k (keys m) ≡ false → find k m ≡ none
unfolding has_key
find_absent k m h = ground (arith, has_key-member k m)

pub find-recent_keys :
    (k : Str) (cutoff : Time) (seen : List (Str × Time))
    → IsDistinct (keys seen)
    → find k (recent_keys cutoff seen) ≡ recent cutoff (find k seen)
unfolding find recent_keys
find-recent_keys k cutoff [] d = refl
find-recent_keys k cutoff ((j, t) ∷ seen) (new, d) =
    ground (arith, find-recent_keys k cutoff seen d, find_absent j seen new, str_eq_iff j k)

member-recent_keys :
    (k : Str) (cutoff : Time) (seen : List (Str × Time))
    → member k (keys seen) ≡ false
    → member k (keys (recent_keys cutoff seen)) ≡ false
unfolding member recent_keys
member-recent_keys k cutoff [] h = refl
member-recent_keys k cutoff ((j, t) ∷ seen) h = ground (arith, member-recent_keys k cutoff seen)

pub recent_keys-IsDistinct :
    (cutoff : Time) (seen : List (Str × Time))
    → IsDistinct (keys seen)
    → IsDistinct (keys (recent_keys cutoff seen))
unfolding recent_keys
recent_keys-IsDistinct cutoff [] d = tt
recent_keys-IsDistinct cutoff ((k, t) ∷ seen) (new, d) = elim (Bool-cases (before t cutoff)) [
  | inl e ↦ rw e (recent_keys-IsDistinct cutoff seen d)
  | inr e ↦ rw e (member-recent_keys k cutoff seen new, recent_keys-IsDistinct cutoff seen d)
]

module _ {A : Type 0} where
  pub recent_ticks-All :
      (cutoff : Time) (ticks : List (Time × A))
      → All (λ t. cutoff ≤ t.0) (recent_ticks cutoff ticks)
  unfolding recent_ticks
  recent_ticks-All cutoff [] = tt
  recent_ticks-All cutoff ((t, a) ∷ ticks) = elim (Bool-cases (before t cutoff)) [
    | inl e ↦ rw e (recent_ticks-All cutoff ticks)
    | inr e ↦ rw e (ground arith, recent_ticks-All cutoff ticks)
  ]
