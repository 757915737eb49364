-- ===== src/Map/Values.antt =====
-- What holds of every value of a map.
use ctaudit.Prelude.{or_else, List, [], ◌∷◌, Bool-cases, inl, inr}
use ctaudit.Map.{Comparable, find, put}

module _ {K V : Type 0} (P : V → Type 0) where
  abbrev pub AllValues : List (K × V) → Type 0
  AllValues [] = Unit
  AllValues ((k, v) ∷ m) = P v × AllValues m

module _ {K V : Type 0} ⦃c : Comparable K⦄ (P : V → Type 0) where
  pub put-AllValues :
      (k : K) (v : V) (m : List (K × V)) → P v → AllValues P m → AllValues P (put k v m)
  unfolding put
  put-AllValues k v [] p a = (p, tt)
  put-AllValues k v ((j, w) ∷ m) p (q, a) = elim (Bool-cases (c.same j k)) [
    | inl e ↦ rw e (p, a)
    | inr e ↦ rw e (q, put-AllValues k v m p a)
  ]

  -- The value of a key, or another one where the key is missing.
  pub find-AllValues :
      (k : K) (d : V) (m : List (K × V)) → P d → AllValues P m → P (or_else (find k m) d)
  unfolding find
  find-AllValues k d [] p a = p
  find-AllValues k d ((j, w) ∷ m) p (q, a) = elim (Bool-cases (c.same j k)) [
    | inl e ↦ rw e q
    | inr e ↦ rw e (find-AllValues k d m p a)
  ]
