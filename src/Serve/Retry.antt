-- ===== src/Serve/Retry.antt =====
-- cmd/ctaudit/serve.go: a tick and the scan of the next one, whose options have isSeen as their Skip.
use ctaudit.Prelude.{
  ℕ, ◌≡◌, ◌<◌, refl, ap, sym, subst, ◌∙◌, Bool, true, false, Option, some, List, [], ◌∷◌, ◌++◌, map,
  length, All, arith, Bool-cases, inl, inr,
}
use ctaudit.Text.{Str, str_eq}
use ctaudit.Text.Laws.{str_eq_refl, str_eq_iff}
use ctaudit.Map.{keys, member, IsDistinct, str_comparable}
use ctaudit.ElbLog.{Runtime}
use ctaudit.Serve.{ServeState, is_seen}
use ctaudit.Serve.Commit.{tick}
use ctaudit.Serve.Steps.{Input, committed, is_seen-tick}
use ctaudit.Engine.{Fetched, got, lost, Worker, work, work_fetched}
use ctaudit.Engine.Listing.{Page, Listing, list_prefixes, is_skipped}
use ctaudit.Engine.Listing.Complete.{Held, IsListing, keys_of, list_prefixes-sends, member-wanted}

member-append : (k : Str) (xs ys : List Str) → member k xs ≡ true → member k (xs ++ ys) ≡ true
unfolding member
member-append k [] ys h = ground arith
member-append k (x ∷ xs) ys h = ground (arith, member-append k xs ys)

member-snoc : (k : Str) (xs : List Str) → member k (xs ++ k ∷ []) ≡ true
unfolding member
member-snoc k [] = rw (str_eq_refl k) refl
member-snoc k (x ∷ xs) = ground (arith, member-snoc k xs)

module _ {T S : Type 0} (fetch : Str → Fetched T) (visit : T → S → S) where
  -- A worker keeps what it has read, and reads every key that it takes and that can be fetched.
  read_before :
      (k : Str) (ks : List Str) (w : Worker S)
      → member k w.read_keys ≡ true
      → member k (work fetch visit ks w).read_keys ≡ true
  unfolding work
  read_before k [] w h = h
  read_before k (j ∷ ks) w h =
      read_before k ks (work_fetched fetch visit j (fetch j) w) (one (fetch j))
    where
      one : (r : Fetched T) → member k (work_fetched fetch visit j r w).read_keys ≡ true
      one (got rs e) = unfold work_fetched in member-append k w.read_keys (j ∷ []) h
      one (lost e) = unfold work_fetched in h

  member-work_fetched :
      (k : Str) (rs : List T) (e : Option Str) (w : Worker S)
      → member k (work_fetched fetch visit k (got rs e) w).read_keys ≡ true
  unfolding work_fetched
  member-work_fetched k rs e w = member-snoc k w.read_keys

  member-work :
      (k : Str) (rs : List T) (e : Option Str) (ks : List Str) (w : Worker S)
      → fetch k ≡ got rs e
      → member k ks ≡ true
      → member k (work fetch visit ks w).read_keys ≡ true
  unfolding work member
  member-work k rs e [] w f h = ground arith
  member-work k rs e (j ∷ ks) w f h = elim (Bool-cases (str_eq j k)) [
    | inl same ↦
        let taken : fetch j ≡ got rs e = ap fetch ((str_eq_iff j k).0 same) ∙ f in
        subst
          (λ r. member k (work fetch visit ks (work_fetched fetch visit j r w)).read_keys ≡ true)
          (sym taken)
          (read_before k ks (work_fetched fetch visit j (got rs e) w) (
            subst (λ j. member k (work_fetched fetch visit j (got rs e) w).read_keys ≡ true)
              (sym ((str_eq_iff j k).0 same)) (member-work_fetched k rs e w)))
    | inr other ↦ member-work k rs e ks (work_fetched fetch visit j (fetch j) w) f (ground arith)
  ]

  -- A key that is not seen and that a tick does not commit is read again: the scan of the next tick,
  -- which skips what is seen then, ends its listing, and a worker that takes the keys sent reads the
  -- key, if it is listed under one of the prefixes, kept, and its object can be fetched.
  pub retried :
      (rt : Runtime) (i : Input rt.Float) (s : ServeState rt.Float) (list_page : Str → Str → Page)
      (keep : Str → Bool) (held : List Held) (n : ℕ) (k : Str) (rs : List T) (e : Option Str)
      (w : Worker S)
      → IsDistinct (keys s.seen)
      → is_seen s k ≡ false
      → member k (committed i.scanned i.delivered) ≡ false
      → All (λ h. IsListing list_page h.prefix [] h.pages h.fault) held
      → All (λ h. length h.pages < n) held
      → member k (keys_of held) ≡ true
      → keep k ≡ true
      → fetch k ≡ got rs e
      → let next = tick rt i.now i.dur i.scanned i.delivered s in
        (l : Listing) × (list_prefixes list_page keep
            (some (is_seen next))
            n
            (map (λ h. h.prefix) held)
            (record { sent = []; list_errs = [] })
          ≡ some l)
        × (member k (work fetch visit l.sent w).read_keys ≡ true)
  unfolding is_skipped
  retried rt i s list_page keep held n k rs e w d new unread is m listed kept f =
      let next = tick rt i.now i.dur i.scanned i.delivered s in
      let unseen : is_seen next k ≡ false = is_seen-tick rt i s k d new unread in
      let sent =
        member-wanted list_page keep (some (is_seen next)) k (keys_of held) kept unseen listed in
      (
        _,
        list_prefixes-sends list_page keep (some (is_seen next)) held n [] is m (omega arith),
        member-work k rs e _ w f sent,
      )
