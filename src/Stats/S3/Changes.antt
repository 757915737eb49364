-- ===== src/Stats/S3/Changes.antt =====
-- The access changes that the S3 findings see.
use ctaudit.Prelude.{
  ◌≡◌, refl, ap, sym, ◌∙◌, Bool, true, false, ◌&&◌, List, [], ◌∷◌, ◌++◌, append_assoc, append-nil,
  if◌then◌else◌, ltb, leb, length, take_short, arith, Bool-cases, inl, inr,
}
use ctaudit.Sort.{sort_by, IsStrictWeak}
use ctaudit.Sort.Earliest.{earliest, earliest_trim_left, earliest_agree}
use ctaudit.S3Log.{S3Entry, s3_success, is_access_change}
use ctaudit.Stats.S3.{
  S3Summary, AccessChange, changed_before, earliest_changes, add_change, change_of, add_s3,
  merge_s3, new_s3_summary, s3_max_access_changes,
}

-- The entries that one worker folds into its summary.
unfoldable pub summarise_s3 : List S3Entry → S3Summary → S3Summary
summarise_s3 [] s = s
summarise_s3 (e ∷ es) s = summarise_s3 es (add_s3 e s)

-- The changes that entries record.
pub changes_of : List S3Entry → List AccessChange
changes_of [] = []
changes_of (e ∷ es) =
    if s3_success e && is_access_change e then change_of e ∷ changes_of es else changes_of es

by_time : IsStrictWeak changed_before (λ _. Unit)
by_time = record { asym = λ a b _ _ h. ground arith; weak = λ a b c _ _ _ h k. ground arith }

-- The first changes in the order of time, of equal times in the order given.
abbrev pub first_changes : List AccessChange → List AccessChange
first_changes = earliest changed_before s3_max_access_changes

pub earliest_changes_first : (c : List AccessChange) → earliest_changes c 1000 ≡ first_changes c
unfolding earliest_changes earliest
earliest_changes_first c = elim (Bool-cases (ltb 1000 (length (sort_by changed_before c)))) [
  | inl e ↦ rw e refl
  | inr e ↦ rw e (sym (take_short 1000 (sort_by changed_before c) (ground arith)))
]

add_change_kept :
    (a : AccessChange) (c rest : List AccessChange)
    → first_changes (add_change a c ++ rest) ≡ first_changes (c ++ a ∷ rest)
unfolding add_change
add_change_kept a c rest = elim (Bool-cases (leb 2000 (length (c ++ a ∷ [])))) [
  | inl e ↦
      rw (e, earliest_changes_first (c ++ a ∷ []))
        (earliest_trim_left changed_before by_time 1000 (c ++ a ∷ []) rest
          ∙ ap first_changes (append_assoc c (a ∷ []) rest))
  | inr e ↦ rw e (ap first_changes (append_assoc c (a ∷ []) rest))
]

change_if :
    (b : Bool) (a : AccessChange) (c cs rest : List AccessChange)
    → first_changes ((if b then add_change a c else c) ++ (cs ++ rest))
      ≡ first_changes (c ++ ((if b then a ∷ cs else cs) ++ rest))
change_if true a c cs rest = add_change_kept a c (cs ++ rest)
change_if false a c cs rest = refl

access_changes_kept :
    (es : List S3Entry) (s : S3Summary) (rest : List AccessChange)
    → first_changes ((summarise_s3 es s).access_changes ++ rest)
      ≡ first_changes (s.access_changes ++ (changes_of es ++ rest))
unfolding summarise_s3 changes_of add_s3
access_changes_kept [] s rest = refl
access_changes_kept (e ∷ es) s rest =
    access_changes_kept es (add_s3 e s) rest
    ∙ change_if (s3_success e && is_access_change e) (change_of e) s.access_changes (changes_of es)
        rest

summary_changes :
    (es : List S3Entry)
    → first_changes (summarise_s3 es new_s3_summary).access_changes ≡ first_changes (changes_of es)
unfolding new_s3_summary
summary_changes es =
    ap first_changes (sym (append-nil (summarise_s3 es new_s3_summary).access_changes))
    ∙ (access_changes_kept es new_s3_summary [] ∙ ap first_changes (append-nil (changes_of es)))

-- Merging the summaries of two workers keeps, of all the access changes in the entries of both, the
-- thousand earliest in order of time, though each worker trims its own list on the way.
pub merge_s3-changes :
    (xs ys : List S3Entry)
    → (merge_s3 (summarise_s3 ys new_s3_summary) (summarise_s3 xs new_s3_summary)).access_changes
      ≡ first_changes (changes_of xs ++ changes_of ys)
unfolding merge_s3
merge_s3-changes xs ys =
    let a = (summarise_s3 xs new_s3_summary).access_changes in
    let b = (summarise_s3 ys new_s3_summary).access_changes in
    earliest_changes_first (a ++ b)
    ∙ earliest_agree changed_before by_time 1000 a (changes_of xs) b (changes_of ys)
        (summary_changes xs) (summary_changes ys)
