-- ===== src/Engine/Listing/Complete.antt =====
-- Listing ends, and sends every key that is wanted.
use ctaudit.Prelude.{
  ℕ, zero, suc, ◌≤◌, ◌<◌, ◌≡◌, refl, ap, sym, subst, true, ◌∙◌, Bool, false, not, ◌&&◌, Bool-cases,
  inl, inr, Option, none, some, List, [], ◌∷◌, ◌++◌, append_assoc, append-nil, map, if◌then◌else◌,
  ltb, length, length-append, take, take_short, All, arith,
}
use ctaudit.Text.{Str, str_eq}
use ctaudit.Text.Laws.{str_eq_refl, str_eq_iff}
use ctaudit.Map.{member, str_comparable}
use ctaudit.Engine.{record_error, max_recorded_errors}
use ctaudit.Engine.Listing.{
  Page, page, page_failed, Listing, is_skipped, list_error, send_key, send_keys, list_prefix,
  list_prefixes,
}

abbrev pub all_keys : List (List Str) → List Str
all_keys [] = []
all_keys (ks ∷ pages) = ks ++ all_keys pages

-- What the store holds under a prefix: the keys page by page, and the error that ends the listing
-- early, if one does.
pub record Held : Type 0 where
  pub prefix : Str
  pub pages : List (List Str)
  pub fault : Option Str

abbrev pub keys_of : List Held → List Str
keys_of [] = []
keys_of (h ∷ held) = all_keys h.pages ++ keys_of held

abbrev fault_of : Str → Option Str → List Str
fault_of prefix none = []
fault_of prefix (some e) = list_error prefix e ∷ []

abbrev pub faults_of : List Held → List Str
faults_of [] = []
faults_of (h ∷ held) = fault_of h.prefix h.fault ++ faults_of held

abbrev record_all : List Str → List Str → List Str
record_all [] errs = errs
record_all (e ∷ es) errs = record_all es (record_error e errs)

record_all-append :
    (xs ys errs : List Str) → record_all (xs ++ ys) errs ≡ record_all ys (record_all xs errs)
record_all-append [] ys errs = refl
record_all-append (x ∷ xs) ys errs = record_all-append xs ys (record_error x errs)

take-append_short : (n : ℕ) (xs ys : List Str) → n ≤ length xs → take n (xs ++ ys) ≡ take n xs
take-append_short zero xs ys h = refl
take-append_short (suc n) [] ys h = ground arith
take-append_short (suc n) (x ∷ xs) ys h = ap (◌∷◌ x) (take-append_short n xs ys (omega arith))

-- Errors are recorded up to the limit.
record_all-take :
    (es errs : List Str)
    → length errs ≤ max_recorded_errors
    → record_all es errs ≡ take max_recorded_errors (errs ++ es)
unfolding record_error
record_all-take [] errs h = rw (append-nil errs) (sym (take_short max_recorded_errors errs h))
record_all-take (e ∷ es) errs h = elim (Bool-cases (ltb (length errs) max_recorded_errors)) [
  | inl room ↦ rw room (
      record_all-take es (errs ++ e ∷ []) (let grown = length-append errs (e ∷ []) in ground arith)
      ∙ ap (take max_recorded_errors) (append_assoc errs (e ∷ []) es))
  | inr full ↦ rw full (
      record_all-take es errs h
      ∙ (take-append_short max_recorded_errors errs es (ground arith)
          ∙ sym (take-append_short max_recorded_errors errs (e ∷ es) (ground arith))))
]

module _ (list_page : Str → Str → Page) where
  -- What listing a prefix from a token on gives: pages, and the error that ends it, if one does.
  pub data IsListing : Str → Str → List (List Str) → Option Str → Type 0 where
    broken : {p t e : Str} → list_page p t ≡ page_failed e → IsListing p t [] (some e)
    last : {p t : Str} {ks : List Str} → list_page p t ≡ page ks [] → IsListing p t (ks ∷ []) none
    more :
        {p t next : Str} {ks : List Str} {pages : List (List Str)} {fault : Option Str}
        → list_page p t ≡ page ks next
        → str_eq next [] ≡ false
        → IsListing p next pages fault
        → IsListing p t (ks ∷ pages) fault

  module _ (keep : Str → Bool) (skip : Option (Str → Bool)) where
    abbrev pub wanted : List Str → List Str
    wanted [] = []
    wanted (k ∷ ks) = if keep k && not (is_skipped skip k) then k ∷ wanted ks else wanted ks

    wanted-append : (xs ys : List Str) → wanted (xs ++ ys) ≡ wanted xs ++ wanted ys
    wanted-append [] ys = refl
    wanted-append (x ∷ xs) ys = elim (Bool-cases (keep x && not (is_skipped skip x))) [
      | inl e ↦ rw e (ap (◌∷◌ x) (wanted-append xs ys))
      | inr e ↦ rw e (wanted-append xs ys)
    ]

    send_keys-wanted : (ks sent : List Str) → send_keys keep skip ks sent ≡ sent ++ wanted ks
    unfolding send_keys send_key
    send_keys-wanted [] sent = sym (append-nil sent)
    send_keys-wanted (k ∷ ks) sent = elim (Bool-cases (keep k)) [
      | inr e ↦ rw e (send_keys-wanted ks sent)
      | inl e ↦ elim (Bool-cases (is_skipped skip k)) [
        | inl z ↦ rw (e, z) (send_keys-wanted ks sent)
        | inr z ↦
            rw (e, z)
              (send_keys-wanted ks (sent ++ k ∷ []) ∙ append_assoc sent (k ∷ []) (wanted ks))
      ]
    ]

    list_prefix-sends :
        (p t : Str) (pages : List (List Str)) (fault : Option Str)
        → IsListing p t pages fault
        → (n : ℕ) → length pages < n
        → (l : Listing)
        → list_prefix list_page keep skip n p t l
          ≡ some (record {
            sent = l.sent ++ wanted (all_keys pages);
            list_errs = record_all (fault_of p fault) l.list_errs;
          })
    unfolding list_prefix
    list_prefix-sends p t [] none x n m l = elim x [ ]
    list_prefix-sends p t [] (some e) (broken h) zero m l = absurd (omega arith)
    list_prefix-sends p t (ks ∷ []) none (last h) zero m l = absurd (omega arith)
    list_prefix-sends p t (ks ∷ pages) fault (more {next = next} h after rest) zero m l =
        absurd (omega arith)
    list_prefix-sends p t [] (some e) (broken h) (suc n) m l =
        rw (list_prefix, h, append-nil l.sent) refl
    list_prefix-sends p t (ks ∷ []) none (last h) (suc n) m l =
        rw (list_prefix, h, str_eq_refl [], append-nil ks, send_keys-wanted ks l.sent) refl
    list_prefix-sends p t (ks ∷ pages) fault (more {next = next} h after rest) (suc n) m l =
        let done = record l { sent = l.sent ++ wanted ks } in
        let ih = list_prefix-sends p next pages fault rest n (omega arith) done in
        rw (list_prefix, h, after, send_keys-wanted ks l.sent, wanted-append ks (all_keys pages))
          (rw (← append_assoc l.sent (wanted ks) (wanted (all_keys pages))) ih)

    list_prefixes-from :
        (held : List Held) (n : ℕ)
        → All (λ h. IsListing h.prefix [] h.pages h.fault) held
        → All (λ h. length h.pages < n) held
        → (l : Listing)
        → list_prefixes list_page keep skip n (map (λ h. h.prefix) held) l
          ≡ some (record {
            sent = l.sent ++ wanted (keys_of held);
            list_errs = record_all (faults_of held) l.list_errs;
          })
    unfolding list_prefixes
    list_prefixes-from [] n is m l = rw (append-nil l.sent) refl
    list_prefixes-from (h ∷ held) n (one, is) (few, m) l =
        rw
          (
            list_prefixes,
            list_prefix-sends h.prefix [] h.pages h.fault one n few l,
            wanted-append (all_keys h.pages) (keys_of held),
            record_all-append (fault_of h.prefix h.fault) (faults_of held) l.list_errs,
            sym (append_assoc l.sent (wanted (all_keys h.pages)) (wanted (keys_of held))),
          )
          (list_prefixes-from held n is m _)

    -- Listing ends on every list of prefixes whose listings have fewer pages than the fuel. It has
    -- then sent, in order, exactly the keys of their pages that are kept and not skipped, those
    -- before an error included, and recorded behind the errors that were there the first others,
    -- up to fifty in all.
    pub list_prefixes-sends :
        (held : List Held) (n : ℕ) (errs : List Str)
        → All (λ h. IsListing h.prefix [] h.pages h.fault) held
        → All (λ h. length h.pages < n) held
        → length errs ≤ max_recorded_errors
        → list_prefixes list_page keep skip n
            (map (λ h. h.prefix) held)
            (record { sent = []; list_errs = errs })
          ≡ some (record {
            sent = wanted (keys_of held);
            list_errs = take max_recorded_errors (errs ++ faults_of held);
          })
    list_prefixes-sends held n errs is m few =
        list_prefixes-from held n is m (record { sent = []; list_errs = errs })
        ∙ ap (λ errs. some (record { sent = wanted (keys_of held); list_errs = errs }))
            (record_all-take (faults_of held) errs few)

    -- A key that is kept and not skipped is wanted wherever it stands.
    pub member-wanted :
        (k : Str) (ks : List Str)
        → keep k ≡ true
        → is_skipped skip k ≡ false
        → member k ks ≡ true
        → member k (wanted ks) ≡ true
    unfolding member
    member-wanted k [] kept read h = h
    member-wanted k (j ∷ ks) kept read h = elim (Bool-cases (str_eq j k)) [
      | inl e ↦
          let same : j ≡ k = (str_eq_iff j k).0 e in
          let sent : (keep j && not (is_skipped skip j)) ≡ true =
            subst (λ j. (keep j && not (is_skipped skip j)) ≡ true) (sym same) (ground arith) in
          rw (sent, e) refl
      | inr e ↦ ground (arith, member-wanted k ks kept read)
    ]
