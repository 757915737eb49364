-- ===== src/Aggregates/Cap.antt =====
-- What the cap keeps of hits of which the critical ones come first.
use ctaudit.Prelude.{
  ℕ, zero, suc, ◌+◌, ◌-◌, ◌≤◌, ◌<◌, ◌≡◌, refl, ap, sym, ◌∙◌, max, Bool, true, false, not, ◌&&◌,
  List, [], ◌∷◌, ◌++◌, append_assoc, append-nil, map, if◌then◌else◌, leb, length, length-append,
  take, arith, Bool-cases, inl, inr,
}
use ctaudit.Findings.{Finding}
use ctaudit.Aggregates.{Hit, Detected, is_critical, cap_step, cap_from, cap_hits}

-- How many hits are critical.
abbrev pub criticals : List Hit → ℕ
criticals [] = 0
criticals (h ∷ hits) = (if is_critical h.finding then 1 else 0) + criticals hits

-- Behind a hit that is not critical there is no critical one.
abbrev pub IsCriticalFirst : List Hit → Type 0
IsCriticalFirst [] = Unit
IsCriticalFirst (h ∷ hits) =
    (is_critical h.finding ≡ false → criticals hits ≡ 0) × IsCriticalFirst hits

-- How many hits are kept where `n` are out already.
abbrev room_for : ℕ → ℕ → List Hit → ℕ
room_for limit n hits = max (limit - n) (criticals hits)

abbrev capped : Detected → ℕ → List Hit → Detected
capped d k hits = record {
  out = d.out ++ map (λ h. h.finding) (take k hits);
  dropped = d.dropped + (length hits - k);
}

abbrev with_out : Detected → Finding → Detected
with_out d f = record d { out = d.out ++ f ∷ [] }

abbrev with_dropped : Detected → Detected
with_dropped d = record d { dropped = suc d.dropped }

capped_nil : (d : Detected) (k : ℕ) → capped d k [] ≡ d
capped_nil d zero =
    cc (append-nil d.out, (let e : d.dropped + (0 - 0) ≡ d.dropped = omega arith in e))
capped_nil d (suc k) =
    cc (append-nil d.out, (let e : d.dropped + (0 - suc k) ≡ d.dropped = omega arith in e))

capped_out :
    (d : Detected) (k : ℕ) (h : Hit) (hits : List Hit)
    → capped (with_out d h.finding) k hits ≡ capped d (suc k) (h ∷ hits)
capped_out d k h hits = cc (
  append_assoc d.out (h.finding ∷ []) (map (λ h. h.finding) (take k hits)),
  (let e : suc (length hits) - suc k ≡ length hits - k = omega arith in e),
)

capped_dropped :
    (d : Detected) (h : Hit) (hits : List Hit)
    → capped (with_dropped d) 0 hits ≡ capped d 0 (h ∷ hits)
capped_dropped d h hits = cc (
    (let e : suc d.dropped + (length hits - 0) ≡ d.dropped + (suc (length hits) - 0) =
        omega arith in
      e))

module _ (limit : ℕ) (d : Detected) (x : Hit) where
  cap_step_out :
      (leb limit (length d.out) && not (is_critical x.finding)) ≡ false
      → cap_step limit d x ≡ with_out d x.finding
  unfolding cap_step
  cap_step_out e = rw e refl

  cap_step_dropped :
      (leb limit (length d.out) && not (is_critical x.finding)) ≡ true
      → cap_step limit d x ≡ with_dropped d
  unfolding cap_step
  cap_step_dropped e = rw e refl

-- The room before and behind a hit that is kept, and before one that is dropped.
room_kept :
    (limit n : ℕ) (crit : Bool) (c : ℕ)
    → (leb limit n && not crit) ≡ false
    → (crit ≡ false → c ≡ 0)
    → suc (max (limit - (n + 1)) c) ≡ max (limit - n) ((if crit then 1 else 0) + c)
room_kept limit n true c e first = omega arith
room_kept limit n false c e first =
    let none_left : c ≡ 0 = first refl in
    let room : leb limit n ≡ false = ground arith in
    let left : n < limit = ground arith in omega arith

room_dropped :
    (limit n : ℕ) (crit : Bool) (c : ℕ)
    → (leb limit n && not crit) ≡ true
    → (crit ≡ false → c ≡ 0)
    → (max (limit - n) c ≡ 0) × (max (limit - n) ((if crit then 1 else 0) + c) ≡ 0)
room_dropped limit n true c e first = ground arith
room_dropped limit n false c e first =
    let none_left : c ≡ 0 = first refl in
    let full : leb limit n ≡ true = ground arith in
    let past : limit ≤ n = ground arith in (omega arith, omega arith)

length_out : (d : Detected) (f : Finding) → length (with_out d f).out ≡ length d.out + 1
length_out d f = length-append d.out (f ∷ [])

cap_from-capped :
    (limit : ℕ) (hits : List Hit) (d : Detected)
    → IsCriticalFirst hits
    → cap_from limit d hits ≡ capped d (room_for limit (length d.out) hits) hits
unfolding cap_from
cap_from-capped limit [] d h = sym (capped_nil d (room_for limit (length d.out) []))
cap_from-capped limit (x ∷ hits) d (first, h) =
    let n = length d.out in
    let crit = is_critical x.finding in
    elim (Bool-cases (leb limit n && not crit)) [
      | inl e ↦
          let room = room_dropped limit n crit (criticals hits) e first in
          ap (λ d. cap_from limit d hits) (cap_step_dropped limit d x e)
          ∙ cap_from-capped limit hits (with_dropped d) h
          ∙ ap (λ k. capped (with_dropped d) k hits) room.0
          ∙ capped_dropped d x hits
          ∙ ap (λ k. capped d k (x ∷ hits)) (sym room.1)
      | inr e ↦
          ap (λ d. cap_from limit d hits) (cap_step_out limit d x e)
          ∙ cap_from-capped limit hits (with_out d x.finding) h
          ∙ ap (λ n. capped (with_out d x.finding) (room_for limit n hits) hits)
              (length_out d x.finding)
          ∙ capped_out d (room_for limit (n + 1) hits) x hits
          ∙ ap (λ k. capped d k (x ∷ hits)) (room_kept limit n crit (criticals hits) e first)
    ]

-- How many hits the cap keeps: its limit, or more where there are more critical ones.
abbrev pub kept : ℕ → List Hit → ℕ
kept limit hits = max limit (criticals hits)

pub cap_hits-kept :
    (limit : ℕ) (hits : List Hit)
    → IsCriticalFirst hits
    → cap_hits limit hits ≡ record {
      out = map (λ h. h.finding) (take (kept limit hits) hits);
      dropped = length hits - kept limit hits;
    }
unfolding cap_hits
cap_hits-kept limit hits h =
    cap_from-capped limit hits (record { out = []; dropped = 0 }) h
    ∙ cc (
      (let e : limit - 0 ≡ limit = omega arith in e),
      (let e : 0 + (length hits - kept limit hits) ≡ length hits - kept limit hits = omega arith in
          e),
    )

-- How many findings are critical.
abbrev pub critical_count : List Finding → ℕ
critical_count [] = 0
critical_count (f ∷ fs) = (if is_critical f then 1 else 0) + critical_count fs

tick_true : (b : Bool) (n : ℕ) → b ≡ true → (if b then 1 else 0) + n ≡ 1 + n
tick_true b n h = rw h refl

tick_false : (b : Bool) (n : ℕ) → b ≡ false → (if b then 1 else 0) + n ≡ n
tick_false b n h = rw h (omega arith)

none_taken :
    (k : ℕ) (hits : List Hit)
    → criticals hits ≡ 0
    → critical_count (map (λ h. h.finding) (take k hits)) ≡ 0
none_taken zero hits z = refl
none_taken (suc k) [] z = refl
none_taken (suc k) (x ∷ hits) z = omega (arith, none_taken k hits (omega arith))

-- Where enough is taken for all the critical hits, none of them is left out.
pub critical_count-take :
    (k : ℕ) (hits : List Hit)
    → IsCriticalFirst hits
    → criticals hits ≤ k
    → critical_count (map (λ h. h.finding) (take k hits)) ≡ criticals hits
critical_count-take zero hits h e = omega arith
critical_count-take (suc k) [] h e = refl
critical_count-take (suc k) (x ∷ hits) (first, h) e = elim (Bool-cases (is_critical x.finding)) [
  | inl c ↦
      let one = tick_true (is_critical x.finding) (criticals hits) c in
      let m : criticals hits ≤ k = omega (arith, one, e) in
      let rest = critical_count-take k hits h m in omega (arith, rest)
  | inr c ↦
      let z : criticals (x ∷ hits) ≡ 0 =
        omega (arith, tick_false (is_critical x.finding) (criticals hits) c, first c) in
      none_taken (suc k) (x ∷ hits) z ∙ sym z
]
