-- ===== src/Stats/Summary.antt =====
-- Summary of internal/stats/stats.go: the aggregates of a CloudTrail scan.
pub mod Merge
use ctaudit.Prelude.{
  ℕ, ◌+◌, ◌-◌, ◌*◌, ◌/◌, ◌%◌, Word, ◌+ʷ◌, Bool, true, false, not, ◌&&◌, ◌||◌, [], if◌then◌else◌,
  List,
}
use ctaudit.Text.{Str, nonempty}
use ctaudit.Text.Decimal.{format}
use ctaudit.Instant.{Time, is_zero, before, zero_time, hour, day}
use ctaudit.CtEvent.{Record, actor, service_name, is_write}
use ctaudit.Stats.Counter.{Counter, add, merge}

pub record Summary : Type 0 where
  pub total_events : Word
  pub write_events : Word
  pub error_events : Word
  pub first_event : Time
  pub last_event : Time
  pub by_principal : Counter
  pub by_event_name : Counter
  pub by_service : Counter
  pub by_account : Counter
  pub by_region : Counter
  pub by_error_code : Counter
  pub by_source_ip : Counter
  pub by_hour : Counter

-- NewSummary
unfoldable pub new_summary : Summary
new_summary = record {
  total_events = 0;
  write_events = 0;
  error_events = 0;
  first_event = zero_time;
  last_event = zero_time;
  by_principal = [];
  by_event_name = [];
  by_service = [];
  by_account = [];
  by_region = [];
  by_error_code = [];
  by_source_ip = [];
  by_hour = [];
}

-- The earlier and the later of two times, where the zero time stands for none.
unfoldable pub earliest : Time → Time → Time
earliest first t = if not (is_zero t) && (is_zero first || before t first) then t else first

unfoldable pub latest : Time → Time → Time
latest last t = if not (is_zero t) && (is_zero last || before last t) then t else last

-- t.UTC().Hour()
abbrev pub hour_of : Time → ℕ
hour_of t = (t % day) / hour

-- s.Add(r)
unfoldable pub add_record : Record → Summary → Summary
add_record r s = record {
  total_events = s.total_events +ʷ 1;
  write_events = if is_write r then s.write_events +ʷ 1 else s.write_events;
  error_events = if nonempty r.error_code then s.error_events +ʷ 1 else s.error_events;
  first_event = earliest s.first_event r.event_time;
  last_event = latest s.last_event r.event_time;
  by_principal = add (actor r) s.by_principal;
  by_event_name = add r.event_name s.by_event_name;
  by_service = add (service_name r) s.by_service;
  by_account = add r.recipient_account_id s.by_account;
  by_region = add r.aws_region s.by_region;
  by_error_code = add r.error_code s.by_error_code;
  by_source_ip = add r.source_ip_address s.by_source_ip;
  by_hour =
      if is_zero r.event_time then s.by_hour else add (format (hour_of r.event_time)) s.by_hour;
}

-- s.Merge(other), for an `other` that is not nil.
unfoldable pub merge_summary : Summary → Summary → Summary
merge_summary other s = record {
  total_events = s.total_events +ʷ other.total_events;
  write_events = s.write_events +ʷ other.write_events;
  error_events = s.error_events +ʷ other.error_events;
  first_event = earliest s.first_event other.first_event;
  last_event = latest s.last_event other.last_event;
  by_principal = merge other.by_principal s.by_principal;
  by_event_name = merge other.by_event_name s.by_event_name;
  by_service = merge other.by_service s.by_service;
  by_account = merge other.by_account s.by_account;
  by_region = merge other.by_region s.by_region;
  by_error_code = merge other.by_error_code s.by_error_code;
  by_source_ip = merge other.by_source_ip s.by_source_ip;
  by_hour = merge other.by_hour s.by_hour;
}
