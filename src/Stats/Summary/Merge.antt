-- ===== src/Stats/Summary/Merge.antt =====
-- Summaries of several workers: a merge gives what one worker would have counted.
use mathlib.Core.Path.{subst₃, ap₂}
use mathlib.Core.List.{map-append}
use ctaudit.Prelude.{
  ℕ, ◌+◌, ◌%◌, ◌^◌, ◌≡◌, refl, ◌∙◌, ap, sym, Bool, List, [], ◌∷◌, ◌++◌, map, arith, if◌then◌else◌,
  length, length-append,
}
use ctaudit.Text.{Str, nonempty}
use ctaudit.Text.Decimal.{format}
use ctaudit.Instant.{Time, is_zero}
use ctaudit.CtEvent.{Record, actor, service_name, is_write}
use ctaudit.Stats.Counter.{Counter, add, merge}
use ctaudit.Stats.Counter.Adds.{adds, SameCounts, merge-adds}
use ctaudit.Stats.Summary.{
  Summary, new_summary, earliest, latest, hour_of, add_record, merge_summary,
}

-- The records that one worker folds into its summary.
unfoldable pub summarise : List Record → Summary → Summary
summarise [] s = s
summarise (r ∷ rs) s = summarise rs (add_record r s)

-- The two agree on every total, on the first and last event, and on the count of every key.
pub record SameSummary (s t : Summary) : Type 0 where
  pub total_events : s.total_events % 2 ^ 64 ≡ t.total_events % 2 ^ 64
  pub write_events : s.write_events % 2 ^ 64 ≡ t.write_events % 2 ^ 64
  pub error_events : s.error_events % 2 ^ 64 ≡ t.error_events % 2 ^ 64
  pub first_event : s.first_event ≡ t.first_event
  pub last_event : s.last_event ≡ t.last_event
  pub by_principal : SameCounts s.by_principal t.by_principal
  pub by_event_name : SameCounts s.by_event_name t.by_event_name
  pub by_service : SameCounts s.by_service t.by_service
  pub by_account : SameCounts s.by_account t.by_account
  pub by_region : SameCounts s.by_region t.by_region
  pub by_error_code : SameCounts s.by_error_code t.by_error_code
  pub by_source_ip : SameCounts s.by_source_ip t.by_source_ip
  pub by_hour : SameCounts s.by_hour t.by_hour

count_by : (Record → Bool) → List Record → ℕ
count_by p [] = 0
count_by p (r ∷ rs) = (if p r then 1 else 0) + count_by p rs

count_by-append :
    (p : Record → Bool) (xs ys : List Record)
    → count_by p (xs ++ ys) ≡ count_by p xs + count_by p ys
unfolding count_by
count_by-append p [] ys = omega arith
count_by-append p (x ∷ xs) ys = omega (arith, count_by-append p xs ys)

has_error : Record → Bool
has_error r = nonempty r.error_code

-- The key of the hour counter; the empty key of a record without a time is not counted.
hour_key : Record → Str
hour_key r = if is_zero r.event_time then [] else format (hour_of r.event_time)

-- The earliest and latest of several times.
first_of_all : List Record → Time → Time
first_of_all [] t = t
first_of_all (r ∷ rs) t = first_of_all rs (earliest t r.event_time)

last_of_all : List Record → Time → Time
last_of_all [] t = t
last_of_all (r ∷ rs) t = last_of_all rs (latest t r.event_time)

-- What a worker's summary holds, field by field.
record Tallies (s t : Summary) (rs : List Record) : Type 0 where
  total_events : t.total_events % 2 ^ 64 ≡ (s.total_events + length rs) % 2 ^ 64
  write_events : t.write_events % 2 ^ 64 ≡ (s.write_events + count_by is_write rs) % 2 ^ 64
  error_events : t.error_events % 2 ^ 64 ≡ (s.error_events + count_by has_error rs) % 2 ^ 64
  first_event : t.first_event ≡ first_of_all rs s.first_event
  last_event : t.last_event ≡ last_of_all rs s.last_event
  by_principal : t.by_principal ≡ adds (map actor rs) s.by_principal
  by_event_name : t.by_event_name ≡ adds (map (λ r. r.event_name) rs) s.by_event_name
  by_service : t.by_service ≡ adds (map service_name rs) s.by_service
  by_account : t.by_account ≡ adds (map (λ r. r.recipient_account_id) rs) s.by_account
  by_region : t.by_region ≡ adds (map (λ r. r.aws_region) rs) s.by_region
  by_error_code : t.by_error_code ≡ adds (map (λ r. r.error_code) rs) s.by_error_code
  by_source_ip : t.by_source_ip ≡ adds (map (λ r. r.source_ip_address) rs) s.by_source_ip
  by_hour : t.by_hour ≡ adds (map hour_key rs) s.by_hour

hour_add :
    (r : Record) (c : Counter)
    → (if is_zero r.event_time then c else add (format (hour_of r.event_time)) c)
      ≡ add (hour_key r) c
unfolding hour_key add
hour_add r c = ground arith

summarise-Tallies : (rs : List Record) (s : Summary) → Tallies s (summarise rs s) rs
unfolding summarise adds first_of_all last_of_all count_by add_record has_error
summarise-Tallies [] s = record {
  total_events = omega arith;
  write_events = omega arith;
  error_events = omega arith;
  first_event = refl;
  last_event = refl;
  by_principal = refl;
  by_event_name = refl;
  by_service = refl;
  by_account = refl;
  by_region = refl;
  by_error_code = refl;
  by_source_ip = refl;
  by_hour = refl;
}
summarise-Tallies (r ∷ rs) s =
    let t = summarise-Tallies rs (add_record r s) in
    record {
      total_events = omega (arith, t.total_events);
      write_events = ground (arith, t.write_events);
      error_events = ground (arith, t.error_events);
      first_event = t.first_event;
      last_event = t.last_event;
      by_principal = t.by_principal;
      by_event_name = t.by_event_name;
      by_service = t.by_service;
      by_account = t.by_account;
      by_region = t.by_region;
      by_error_code = t.by_error_code;
      by_source_ip = t.by_source_ip;
      by_hour = t.by_hour ∙ ap (adds (map hour_key rs)) (hour_add r s.by_hour);
    }

earliest_assoc : (a b c : Time) → earliest (earliest a b) c ≡ earliest a (earliest b c)
unfolding earliest
earliest_assoc a b c = ground arith

latest_assoc : (a b c : Time) → latest (latest a b) c ≡ latest a (latest b c)
unfolding latest
latest_assoc a b c = ground arith

first_of_all-from :
    (rs : List Record) (t : Time) → first_of_all rs t ≡ earliest t (first_of_all rs 0)
unfolding first_of_all
first_of_all-from [] t = unfold earliest in ground arith
first_of_all-from (r ∷ rs) t =
    first_of_all-from rs (earliest t r.event_time)
    ∙ earliest_assoc t r.event_time (first_of_all rs 0)
    ∙ ap (earliest t) (
        sym (
          first_of_all-from rs (earliest 0 r.event_time)
          ∙ ap (λ x. earliest x (first_of_all rs 0)) (unfold earliest in ground arith)))

last_of_all-from : (rs : List Record) (t : Time) → last_of_all rs t ≡ latest t (last_of_all rs 0)
unfolding last_of_all
last_of_all-from [] t = unfold latest in ground arith
last_of_all-from (r ∷ rs) t =
    last_of_all-from rs (latest t r.event_time)
    ∙ latest_assoc t r.event_time (last_of_all rs 0)
    ∙ ap (latest t) (
        sym (
          last_of_all-from rs (latest 0 r.event_time)
          ∙ ap (λ x. latest x (last_of_all rs 0)) (unfold latest in ground arith)))

first_of_all-append :
    (xs ys : List Record) (t : Time)
    → first_of_all (xs ++ ys) t ≡ first_of_all ys (first_of_all xs t)
unfolding first_of_all
first_of_all-append [] ys t = refl
first_of_all-append (x ∷ xs) ys t = first_of_all-append xs ys (earliest t x.event_time)

last_of_all-append :
    (xs ys : List Record) (t : Time) → last_of_all (xs ++ ys) t ≡ last_of_all ys (last_of_all xs t)
unfolding last_of_all
last_of_all-append [] ys t = refl
last_of_all-append (x ∷ xs) ys t = last_of_all-append xs ys (latest t x.event_time)

-- A counter that is filled by one key of each record.
merged_counter :
    (key : Record → Str) (xs ys : List Record) {a b c : Counter}
    → a ≡ adds (map key xs) []
    → b ≡ adds (map key ys) []
    → c ≡ adds (map key (xs ++ ys)) []
    → SameCounts (merge b a) c
merged_counter key xs ys {a} {b} {c} p q r =
    subst₃ (λ u v w. SameCounts (merge v u) w) (sym p) (sym q)
      (ap (λ l. adds l []) (sym (map-append key xs ys)) ∙ sym r)
      (merge-adds (map key xs) (map key ys))

-- Whatever records two workers read, the merge of their summaries is the summary of one worker
-- that read the records of both.
pub merge_summary-summarise :
    (xs ys : List Record)
    → SameSummary
        (merge_summary (summarise ys new_summary) (summarise xs new_summary))
        (summarise (xs ++ ys) new_summary)
unfolding merge_summary
merge_summary-summarise xs ys =
    let a = summarise-Tallies xs new_summary in
    let b = summarise-Tallies ys new_summary in
    let c = summarise-Tallies (xs ++ ys) new_summary in
    unfold new_summary in
    record {
      total_events =
          omega (arith, a.total_events, b.total_events, c.total_events, length-append xs ys);
      write_events =
          omega
            (arith, a.write_events, b.write_events, c.write_events, count_by-append is_write xs ys);
      error_events =
          omega (
            arith,
            a.error_events,
            b.error_events,
            c.error_events,
            count_by-append has_error xs ys,
          );
      first_event =
          ap₂ earliest a.first_event b.first_event
          ∙ sym (
              c.first_event
              ∙ first_of_all-append xs ys 0
              ∙ first_of_all-from ys (first_of_all xs 0));
      last_event =
          ap₂ latest a.last_event b.last_event
          ∙ sym
              (c.last_event ∙ last_of_all-append xs ys 0 ∙ last_of_all-from ys (last_of_all xs 0));
      by_principal = merged_counter actor xs ys a.by_principal b.by_principal c.by_principal;
      by_event_name =
          merged_counter (λ r. r.event_name) xs ys a.by_event_name b.by_event_name c.by_event_name;
      by_service = merged_counter service_name xs ys a.by_service b.by_service c.by_service;
      by_account =
          merged_counter (λ r. r.recipient_account_id) xs ys a.by_account b.by_account c.by_account;
      by_region = merged_counter (λ r. r.aws_region) xs ys a.by_region b.by_region c.by_region;
      by_error_code =
          merged_counter (λ r. r.error_code) xs ys a.by_error_code b.by_error_code c.by_error_code;
      by_source_ip =
          merged_counter (λ r. r.source_ip_address) xs ys a.by_source_ip b.by_source_ip
            c.by_source_ip;
      by_hour = merged_counter hour_key xs ys a.by_hour b.by_hour c.by_hour;
    }
