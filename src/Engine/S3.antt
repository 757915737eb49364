-- ===== src/Engine/S3.antt =====
-- RunS3 of internal/engine/s3.go, behind its checks of the scope and the building of prefixes.
pub mod Matches
use ctaudit.Prelude.{
  ℕ, Word, ◌*◌, ◌%◌, ◌^◌, ◌+ʷ◌, slt, Bool, not, List, [], ◌∷◌, ◌++◌, if◌then◌else◌, ltb, length,
  take,
}
use ctaudit.Text.{Str}
use ctaudit.Instant.{before}
use ctaudit.Sort.{sort_by}
use ctaudit.Findings.{Finding}
use ctaudit.S3Log.{S3Entry}
use ctaudit.S3Log.Select.{S3Filter, match_s3}
use ctaudit.Stats.S3.{S3Summary, new_s3_summary, add_s3, merge_s3}
use ctaudit.Aggregates.{Detected}
use ctaudit.Aggregates.S3Rules.{S3Options, detect_s3}
use ctaudit.Engine.{Fetched, Output, scan}
use ctaudit.Engine.CloudTrail.{max_events_of}

-- S3Options: what RunS3 reads behind its checks.
pub record S3Scan : Type 0 where
  pub filter : S3Filter
  pub denied_threshold : Word
  pub delete_threshold : Word
  pub egress_bytes : Word
  pub max_events : Word

-- opts.Rules()
unfoldable pub rules_of_scan : S3Scan → S3Options
rules_of_scan o = record {
  denied_threshold = o.denied_threshold;
  delete_threshold = o.delete_threshold;
  egress_bytes = o.egress_bytes;
  max = 0;
}

-- s3Shard, less the sink that it emits entries to
pub record S3Shard : Type 0 where
  pub summary : S3Summary
  pub matches : List S3Entry
  pub matched_records : Word

unfoldable pub new_s3_shard : S3Shard
new_s3_shard = record { summary = new_s3_summary; matches = []; matched_records = 0 }

abbrev pub logged_before : S3Entry → S3Entry → Bool
logged_before a b = before a.time b.time

-- earliestS3(entries, n)
unfoldable pub earliest_s3 : List S3Entry → ℕ → List S3Entry
earliest_s3 entries n =
    let sorted = sort_by logged_before entries in
    if ltb n (length sorted) then take n sorted else sorted

-- The matches of a shard with one more entry, trimmed at twice the number kept.
unfoldable pub add_match : ℕ → S3Entry → List S3Entry → List S3Entry
add_match max_events e matches =
    let more = matches ++ e ∷ [] in
    if not (slt (length more) ((2 * max_events) % 2 ^ 64))
    then earliest_s3 more max_events
    else more

-- The visit function of RunS3.
unfoldable pub visit_s3 : S3Filter → ℕ → S3Entry → S3Shard → S3Shard
visit_s3 f max_events e sh = if not (match_s3 f e) then sh else record {
  summary = add_s3 e sh.summary;
  matches = add_match max_events e sh.matches;
  matched_records = sh.matched_records +ʷ 1;
}

-- The loop over the shards.
unfoldable pub merge_s3_shards : List S3Shard → S3Shard → S3Shard
merge_s3_shards [] res = res
merge_s3_shards (sh ∷ shards) res = merge_s3_shards shards (record {
  summary = merge_s3 sh.summary res.summary;
  matches = res.matches ++ sh.matches;
  matched_records = res.matched_records +ʷ sh.matched_records;
})

-- S3Result, less the prefixes, the layout and the elapsed time
pub record S3Result : Type 0 where
  pub summary : S3Summary
  pub findings : List Finding
  pub findings_dropped : ℕ
  pub matches : List S3Entry
  pub objects_scanned : Word
  pub records_read : Word
  pub matched_records : Word
  pub errors : List Str
  pub read_keys : List Str

unfoldable pub run_s3 :
    (Word → Str) → S3Scan → (Str → Fetched S3Entry) → List (List Str) → List Str → S3Result
run_s3 gib opts fetch took list_errs =
    let max_events = max_events_of opts.max_events in
    let out = scan fetch (visit_s3 opts.filter max_events) new_s3_shard took list_errs in
    let res = merge_s3_shards out.shards new_s3_shard in
    let found = detect_s3 gib res.summary (rules_of_scan opts) in
    record {
      summary = res.summary;
      findings = found.out;
      findings_dropped = found.dropped;
      matches = earliest_s3 res.matches max_events;
      objects_scanned = out.objects_scanned;
      records_read = out.records_read;
      matched_records = res.matched_records;
      errors = out.errs;
      read_keys = out.read_keys;
    }
