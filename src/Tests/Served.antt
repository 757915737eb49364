-- ===== src/Tests/Served.antt =====
-- Tests of serve mode.
use ctaudit.Prelude.{
  ◌+◌, if◌then◌else◌, ◌≡◌, ◌≤◌, refl, true, false, none, some, List, ℕ, [], ◌∷◌, All, arith,
}
use ctaudit.Text.{Str, codes, str_eq}
use ctaudit.Instant.{minus}
use ctaudit.Map.{keys, find, has_key, IsDistinct, member, str_comparable}
use ctaudit.Serve.{Outcome, waf, ServeState, new_serve_state, is_seen, seen_retention}
use ctaudit.Serve.Commit.{tick}
use ctaudit.Serve.Seen.{recent}
use ctaudit.Serve.Steps.{Input, committed, done, ticked, tick-IsWellFormed, find-tick, stays_seen}
use ctaudit.Serve.Retry.{retried}
use ctaudit.Engine.{Fetched, got, Worker, new_worker, work}
use ctaudit.Engine.Listing.{Page, page, Listing, list_prefixes}
use ctaudit.Engine.Listing.Complete.{Held, last}
use ctaudit.Tests.Data.{whole_numbers}

abbrev Number : Type 0
Number = whole_numbers.Float

abbrev start : ServeState Number
start = new_serve_state {Float = Number} 0 5000

abbrev waf_tick : Outcome Number
waf_tick = waf (record {
  objects_scanned = 1;
  records_read = 2;
  matched_records = 2;
  findings = [];
  by_action = none;
})

abbrev read_a : Input Number
read_a = record {
  now = 1000;
  dur = 10;
  scanned = some (waf_tick, codes "a" ∷ [], 0);
  delivered = true;
}

abbrev undelivered : Input Number
undelivered = record {
  now = 6000;
  dur = 10;
  scanned = some (waf_tick, codes "b" ∷ [], 0);
  delivered = false;
}

abbrev after_a : ServeState Number
after_a = tick whole_numbers 1000 10 (some (waf_tick, codes "a" ∷ [], 0)) true start

abbrev after_b : ServeState Number
after_b = tick whole_numbers 6000 10 (some (waf_tick, codes "b" ∷ [], 0)) false after_a

stays_seen_example : is_seen after_b (codes "a") ≡ true
unfolding new_serve_state is_seen has_key find codes member str_eq
stays_seen_example =
    stays_seen whole_numbers read_a (undelivered ∷ []) start after_b (codes "a") (ticked done) tt
      refl refl (omega arith, tt)

-- A store with the keys "b" and "c" on one page.
abbrev one_page : Str → Str → Page
one_page p t = page (codes "b" ∷ codes "c" ∷ []) []

abbrev listed : List Held
listed = record { prefix = []; pages = (codes "b" ∷ codes "c" ∷ []) ∷ []; fault = none } ∷ []

abbrev idle : Worker ℕ
idle = new_worker 0

abbrev fetch_nothing : Str → Fetched ℕ
fetch_nothing k = got [] none

retried_example :
    (l : Listing) × (list_prefixes one_page
        (λ k. true)
        (some
          (is_seen (tick whole_numbers 6000 10 (some (waf_tick, codes "b" ∷ [], 0)) false start)))
        2
        ([] ∷ [])
        (record { sent = []; list_errs = [] })
      ≡ some l)
    × (member (codes "b") (work fetch_nothing (λ r s. s) l.sent idle).read_keys ≡ true)
unfolding new_serve_state is_seen has_key find codes member str_eq
retried_example =
    retried fetch_nothing (λ r s. s) whole_numbers undelivered start one_page (λ k. true) listed 2
      (codes "b") [] none idle tt refl refl (last refl, tt) (omega arith, tt) refl refl refl

find-tick_example :
    find (codes "a") after_a.seen
    ≡ recent (minus 1000 (start.lookback + seen_retention)) (
        if is_seen start (codes "a")
        then find (codes "a") start.seen
        else if member
            (codes "a")
            (committed {Float = Number} (some (waf_tick, codes "a" ∷ [], 0)) true)
        then some 1000
        else none)
unfolding new_serve_state
find-tick_example =
    find-tick whole_numbers 1000 10 (some (waf_tick, codes "a" ∷ [], 0)) true start (codes "a") tt

tick-IsWellFormed_example :
    IsDistinct (keys after_a.seen) × All (λ t. minus 1000 start.lookback ≤ t.0) after_a.ticks
unfolding new_serve_state
tick-IsWellFormed_example =
    tick-IsWellFormed whole_numbers 1000 10 (some (waf_tick, codes "a" ∷ [], 0)) true start tt
