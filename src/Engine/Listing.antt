-- ===== src/Engine/Listing.antt =====
-- internal/engine/scan.go: what the listers of a scan do with the prefixes they take. The channel
-- of keys is the list of the keys sent, and the debug log with its counts is left out.
pub mod Complete
use ctaudit.Prelude.{
  ℕ, zero, suc, Bool, false, not, Option, none, some, List, [], ◌∷◌, ◌++◌, if◌then◌else◌,
}
use ctaudit.Text.{Str, codes, str_eq}
use ctaudit.Engine.{record_error}

-- What ListPage returns: the keys of a page with the token of the next page, empty after the last
-- one, or an error.
pub data Page : Type 0 where
  page : List Str → Str → Page
  page_failed : Str → Page

-- The keys sent to the fetch workers so far, and the errors of listing, which all listers share behind
-- a mutex. A prefix adds at most one error, where its listing ends, so the shared list is that of
-- `list_prefixes` on the prefixes of all listers in the order in which they end; on the channel the
-- keys of prefixes that different listers hold can be interleaved.
pub record Listing : Type 0 where
  pub sent : List Str
  pub list_errs : List Str

-- spec.skip != nil && spec.skip(k)
unfoldable pub is_skipped : Option (Str → Bool) → Str → Bool
is_skipped none k = false
is_skipped (some skip) k = skip k

-- fmt.Sprintf("list %s: %v", prefix, err)
unfoldable pub list_error : Str → Str → Str
unfolding codes
list_error prefix e = codes "list " ++ (prefix ++ (codes ": " ++ e))

module _ (keep : Str → Bool) (skip : Option (Str → Bool)) where
  unfoldable pub send_key : Str → List Str → List Str
  send_key k sent =
      if not (keep k) then sent else if is_skipped skip k then sent else sent ++ k ∷ []

  -- The loop over the keys of a page.
  unfoldable pub send_keys : List Str → List Str → List Str
  send_keys [] sent = sent
  send_keys (k ∷ ks) sent = send_keys ks (send_key k sent)

module _ (list_page : Str → Str → Page) (keep : Str → Bool) (skip : Option (Str → Bool)) where
  -- The loop over the pages of a prefix from a token on, `none` where the fuel does not last.
  unfoldable pub list_prefix : ℕ → Str → Str → Listing → Option Listing
  list_prefix zero prefix token l = none
  list_prefix (suc n) prefix token l = elim (list_page prefix token) [
    | page_failed e ↦ some (record l { list_errs = record_error (list_error prefix e) l.list_errs })
    | page ks next ↦
        let done = record l { sent = send_keys keep skip ks l.sent } in
        let rest = list_prefix n prefix next done in if str_eq next [] then some done else rest
  ]

  -- The loop over prefixes.
  unfoldable pub list_prefixes : ℕ → List Str → Listing → Option Listing
  list_prefixes n [] l = some l
  list_prefixes n (prefix ∷ ps) l = elim (list_prefix n prefix [] l) [
    | none ↦ none
    | some done ↦ list_prefixes n ps done
  ]
