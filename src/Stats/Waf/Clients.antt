-- ===== src/Stats/Waf/Clients.antt =====
-- What a WAF summary holds of each client.
use ctaudit.Prelude.{
  ℕ, ◌+◌, ◌%◌, ◌^◌, ◌≡◌, refl, Word, ◌+ʷ◌, Bool, true, false, ◌&&◌, List, [], ◌∷◌, ◌++◌,
  if◌then◌else◌, or_else, arith, ap, sym, ◌∙◌, Option-cases, Bool-cases, inl, inr,
}
use ctaudit.Text.{Str, codes, str_eq, nonempty}
use ctaudit.Text.Laws.{str_eq_iff}
use ctaudit.Map.{find, has_key, keys, member, IsDistinct, str_comparable}
use ctaudit.Map.Laws.{find-put, has_key-member, put-IsDistinct}
use ctaudit.WafLog.{WafEntry}
use ctaudit.Stats.Waf.{
  IpStats, no_ip_stats, WafSummary, new_waf_summary, count_client, change_ip, add_waf, add_ip_stats,
  merge_ips, merge_waf, one_if, has_action,
}

-- The entries that one worker folds into its summary.
unfoldable pub summarise_waf : List WafEntry → WafSummary → WafSummary
summarise_waf [] s = s
summarise_waf (e ∷ es) s = summarise_waf es (add_waf e s)

-- The counts of one client, all zero where it has none.
abbrev pub stats_of : Str → WafSummary → IpStats
stats_of addr s = or_else (find addr s.ips) no_ip_stats

-- How many of a client's entries pass a test.
pub count_from : Str → (WafEntry → Bool) → List WafEntry → ℕ
count_from addr p [] = 0
count_from addr p (e ∷ es) =
    (if str_eq e.client_ip addr && p e then 1 else 0) + count_from addr p es

-- The counts agree modulo 2 ^ 64 with those of the client's entries that were blocked, allowed,
-- limited by a rate rule and failed at a challenge.
pub record IsTally (addr : Str) (es : List WafEntry) (st : IpStats) : Type 0 where
  pub blocks : st.blocks % 2 ^ 64 ≡ count_from addr (λ e. has_action e (codes "BLOCK")) es % 2 ^ 64
  pub allows : st.allows % 2 ^ 64 ≡ count_from addr (λ e. has_action e (codes "ALLOW")) es % 2 ^ 64
  pub rate_limited :
      st.rate_limited % 2 ^ 64 ≡ count_from addr (λ e. nonempty e.rate_rule) es % 2 ^ 64
  pub challenge_fails :
      st.challenge_fails % 2 ^ 64 ≡ count_from addr (λ e. e.challenge_failed) es % 2 ^ 64

abbrev look : Str → List (Str × IpStats) → IpStats
look addr m = or_else (find addr m) no_ip_stats

look-change_ip :
    (addr key : Str) (f : IpStats → IpStats) (m : List (Str × IpStats))
    → look addr (change_ip key f m) ≡ (if str_eq key addr then f (look key m) else look addr m)
unfolding change_ip
look-change_ip addr key f m = elim (Bool-cases (str_eq key addr)) [
  | inl e ↦ rw (find-put key addr (f (look key m)) m, e) refl
  | inr e ↦ rw (find-put key addr (f (look key m)) m, e) refl
]

nonempty_other :
    (key addr : Str) → nonempty addr ≡ true → nonempty key ≡ false → str_eq key addr ≡ false
unfolding str_eq
nonempty_other [] (c ∷ addr) h k = refl
nonempty_other [] [] h k = ground arith
nonempty_other (d ∷ key) addr h k = ground arith

stats_of-add_waf :
    (addr : Str) (e : WafEntry) (s : WafSummary)
    → nonempty addr ≡ true
    → stats_of addr (add_waf e s) ≡ (
        if str_eq e.client_ip addr
        then count_client e (look e.client_ip s.ips)
        else stats_of addr s)
unfolding add_waf
stats_of-add_waf addr e s h = elim (Bool-cases (nonempty e.client_ip)) [
  | inl k ↦ rw k (look-change_ip addr e.client_ip (count_client e) s.ips)
  | inr k ↦ rw (k, nonempty_other e.client_ip addr h k) refl
]

look_absent :
    (k : Str) (m : List (Str × IpStats)) → member k (keys m) ≡ false → look k m ≡ no_ip_stats
unfolding has_key
look_absent k m h = elim (Option-cases (find k m)) [
  | inl e ↦ rw e refl
  | inr (v, e) ↦
      absurd (let present : has_key k m ≡ true = rw e refl in ground (arith, has_key-member k m))
]

look_cons :
    (addr k : Str) (st : IpStats) (o : List (Str × IpStats))
    → look addr ((k, st) ∷ o) ≡ (if str_eq k addr then st else look addr o)
unfolding find
look_cons addr k st o = elim (Bool-cases (str_eq k addr)) [ inl e ↦ rw e refl | inr e ↦ rw e refl ]

one_if_count : (b : Bool) (n : Word) → one_if b n % 2 ^ 64 ≡ (n + (if b then 1 else 0)) % 2 ^ 64
one_if_count b n = ground arith

module _ (addr : Str) (f : IpStats → Word) where
  -- A field that counts the entries that pass a test, in one worker's summary.
  module _ (named : nonempty addr ≡ true) (p : WafEntry → Bool)
      (h : (e : WafEntry) (st : IpStats) → f (count_client e st) ≡ one_if (p e) (f st)) where
    field-add_waf :
        (e : WafEntry) (s : WafSummary)
        → f (stats_of addr (add_waf e s)) % 2 ^ 64
          ≡ (f (stats_of addr s) + (if str_eq e.client_ip addr && p e then 1 else 0)) % 2 ^ 64
    field-add_waf e s = elim (Bool-cases (str_eq e.client_ip addr)) [
      | inl k ↦
          let here : look e.client_ip s.ips ≡ stats_of addr s =
            ap (λ a. look a s.ips) ((str_eq_iff e.client_ip addr).0 k) in
          rw (stats_of-add_waf addr e s named, k, here, h e (stats_of addr s))
            (one_if_count (p e) (f (stats_of addr s)))
      | inr k ↦ rw (stats_of-add_waf addr e s named, k) (omega arith)
    ]

    field-summarise :
        (es : List WafEntry) (s : WafSummary)
        → f (stats_of addr (summarise_waf es s)) % 2 ^ 64
          ≡ (f (stats_of addr s) + count_from addr p es) % 2 ^ 64
    unfolding summarise_waf count_from
    field-summarise [] s = omega arith
    field-summarise (e ∷ es) s =
        let rest = field-summarise es (add_waf e s) in
        let here = field-add_waf e s in omega (arith, rest, here)

  field-merge_ips :
      ((a b : IpStats) → f (add_ip_stats a b) ≡ f b +ʷ f a)
      → f no_ip_stats ≡ 0
      → (o m : List (Str × IpStats)) → IsDistinct (keys o)
      → f (look addr (merge_ips o m)) % 2 ^ 64 ≡ (f (look addr m) + f (look addr o)) % 2 ^ 64
  unfolding merge_ips
  field-merge_ips g z [] m d = unfold find in omega (arith, z)
  field-merge_ips g z ((k, st) ∷ o) m (new, d) =
      let rest = field-merge_ips g z o (change_ip k (add_ip_stats st) m) d in
      let here = look-change_ip addr k (add_ip_stats st) m in
      let own = look_cons addr k st o in
      elim (Bool-cases (str_eq k addr)) [
        | inl e ↦
            let same : k ≡ addr = (str_eq_iff k addr).0 e in
            let absent : look addr o ≡ no_ip_stats =
              ap (λ a. look a o) (sym same) ∙ look_absent k o new in
            let changed : look addr (change_ip k (add_ip_stats st) m)
                ≡ add_ip_stats st (look addr m) =
              here ∙ rw e (ap (λ a. add_ip_stats st (look a m)) same) in
            let held : look addr ((k, st) ∷ o) ≡ st = own ∙ rw e refl in
            omega (arith, rest, ap f changed, g st (look addr m), ap f absent, z, ap f held)
        | inr e ↦
            let changed : look addr (change_ip k (add_ip_stats st) m) ≡ look addr m =
              here ∙ rw e refl in
            let held : look addr ((k, st) ∷ o) ≡ look addr o = own ∙ rw e refl in
            omega (arith, rest, ap f changed, ap f held)
      ]

change_ip-IsDistinct :
    (key : Str) (f : IpStats → IpStats) (m : List (Str × IpStats))
    → IsDistinct (keys m)
    → IsDistinct (keys (change_ip key f m))
unfolding change_ip
change_ip-IsDistinct key f m d = put-IsDistinct key _ m d

ips_if-IsDistinct :
    (b : Bool) (key : Str) (f : IpStats → IpStats) (m : List (Str × IpStats))
    → IsDistinct (keys m)
    → IsDistinct (keys (if b then change_ip key f m else m))
ips_if-IsDistinct true key f m d = change_ip-IsDistinct key f m d
ips_if-IsDistinct false key f m d = d

summarise_waf-IsDistinct :
    (es : List WafEntry) (s : WafSummary)
    → IsDistinct (keys s.ips)
    → IsDistinct (keys (summarise_waf es s).ips)
unfolding summarise_waf add_waf
summarise_waf-IsDistinct [] s d = d
summarise_waf-IsDistinct (e ∷ es) s d =
    summarise_waf-IsDistinct es (add_waf e s)
      (ips_if-IsDistinct (nonempty e.client_ip) e.client_ip (count_client e) s.ips d)

count_from-append :
    (addr : Str) (p : WafEntry → Bool) (xs ys : List WafEntry)
    → count_from addr p (xs ++ ys) ≡ count_from addr p xs + count_from addr p ys
unfolding count_from
count_from-append addr p [] ys = omega arith
count_from-append addr p (x ∷ xs) ys = omega (arith, count_from-append addr p xs ys)

module _ (addr : Str) (named : nonempty addr ≡ true) (xs ys : List WafEntry) where
  merged_field :
      (f : IpStats → Word) (p : WafEntry → Bool)
      → ((e : WafEntry) (st : IpStats) → f (count_client e st) ≡ one_if (p e) (f st))
      → ((a b : IpStats) → f (add_ip_stats a b) ≡ f b +ʷ f a)
      → f no_ip_stats ≡ 0
      → f (
            stats_of addr
              (merge_waf (summarise_waf ys new_waf_summary) (summarise_waf xs new_waf_summary)))
          % 2 ^ 64
        ≡ count_from addr p (xs ++ ys) % 2 ^ 64
  unfolding merge_waf new_waf_summary find
  merged_field f p h g z =
      let a = summarise_waf xs new_waf_summary in
      let b = summarise_waf ys new_waf_summary in
      let all =
        field-merge_ips addr f g z b.ips a.ips (summarise_waf-IsDistinct ys new_waf_summary tt) in
      omega (
        arith,
        all,
        field-summarise addr f named p h xs new_waf_summary,
        field-summarise addr f named p h ys new_waf_summary,
        count_from-append addr p xs ys,
        z,
      )

  -- The merge of two workers' WAF summaries counts, for each client with an address, the entries
  -- of both workers that were blocked, that were allowed, that a rate rule limited and that failed
  -- at a challenge, modulo 2 ^ 64.
  pub merge_waf-IsTally : IsTally addr (xs ++ ys) (
      stats_of addr
        (merge_waf (summarise_waf ys new_waf_summary) (summarise_waf xs new_waf_summary)))
  unfolding count_client add_ip_stats no_ip_stats
  merge_waf-IsTally = record {
    blocks =
        merged_field (λ st. st.blocks) (λ e. has_action e (codes "BLOCK")) (λ e st. refl)
          (λ a b. refl) refl;
    allows =
        merged_field (λ st. st.allows) (λ e. has_action e (codes "ALLOW")) (λ e st. refl)
          (λ a b. refl) refl;
    rate_limited =
        merged_field (λ st. st.rate_limited) (λ e. nonempty e.rate_rule) (λ e st. refl)
          (λ a b. refl) refl;
    challenge_fails =
        merged_field (λ st. st.challenge_fails) (λ e. e.challenge_failed) (λ e st. refl)
          (λ a b. refl) refl;
  }
