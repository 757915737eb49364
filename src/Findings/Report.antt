-- ===== src/Findings/Report.antt =====
-- The order in which the detector reports its findings.
use mathlib.Core.List.{Perm}
use ctaudit.Prelude.{◌≤◌, ◌≡◌, ◌⊎◌, ◌<◌, false, List, [], ◌∷◌, arith, All, All-mono, All-true}
use ctaudit.Sort.{IsStrictWeak, IsSortedBy}
use ctaudit.Sort.Laws.{sort_by-perm, sort_by-IsSortedBy}
use ctaudit.Findings.{rank, sev_eq_iff, Finding}
use ctaudit.Findings.Detector.{Detector, more_urgent, findings}

more_urgent-IsStrictWeak : IsStrictWeak more_urgent (λ _. Unit)
unfolding more_urgent
more_urgent-IsStrictWeak = record {
  asym = λ a b _ _ h. ground arith;
  weak = λ a b c _ _ _ h k. ground arith;
}

-- `f` is reported before `g`: it is more severe, or as severe and no younger.
abbrev pub Before : Finding → Finding → Type 0
Before f g = (rank g.severity < rank f.severity) ⊎ ((f.severity ≡ g.severity) × (f.time ≤ g.time))

abbrev pub IsReport : List Finding → Type 0
IsReport [] = Unit
IsReport (f ∷ fs) = All (Before f) fs × IsReport fs

Before-of : (f g : Finding) → more_urgent g f ≡ false → Before f g
unfolding more_urgent
Before-of f g h = ground (arith, sev_eq_iff f.severity g.severity)

IsReport-of : (fs : List Finding) → IsSortedBy more_urgent fs → IsReport fs
IsReport-of [] h = tt
IsReport-of (f ∷ fs) (h, t) = (All-mono (Before-of f) fs h, IsReport-of fs t)

-- The report lists exactly the retained findings, the most severe first and, within a severity,
-- the oldest first.
pub findings-IsReport : (d : Detector) → Perm (findings d) d.found × IsReport (findings d)
unfolding findings
findings-IsReport d = (
  sort_by-perm more_urgent d.found,
  IsReport-of _ (
      sort_by-IsSortedBy more_urgent (λ _. Unit) more_urgent-IsStrictWeak d.found
        (All-true d.found)),
)
