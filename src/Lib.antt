-- ===== src/Lib.antt =====
-- Verification of ctaudit, which scans the logs that AWS services deliver to S3 (CloudTrail, load
-- balancers, WAF, S3 access and VPC flow logs), filters them, raises findings and keeps
-- aggregates. A scan lists objects, shares their keys out among fetch workers, lets each worker
-- decode its objects and fold the records that pass the filter into a shard of its own, and
-- merges the shards. Serve mode repeats the scan on a timer, skips the objects that an earlier
-- tick committed, and keeps running totals.
--
-- Modules and the code they are about:
--   Prelude, Text, Map, Sort, Instant: Go's words, strings, maps, sorts and times. A string is
--     a list of bytes, a map a list with one entry for each key, an int a number below 2 ^ 64 in
--     two's complement, and a time the number of nanoseconds since Go's zero time.
--   CtEvent: internal/ctevent/record.go (Record, Actor, ServiceName, IsWrite).
--   LogLines: the loop over the lines of a log file that the decoders of internal/s3log and
--     internal/waflog have.
--   Query: internal/query/filter.go (Filter, Match, IsNarrowing).
--   Findings: internal/findings/rules.go. Findings/Detector has the detector (Inspect, Merge,
--     retain, Findings), Findings/Rules the rules of DefaultRules. Findings/Lowest, Retained,
--     Hits, Merge and Report prove what the detector holds.
--   S3Log: internal/s3log/s3log.go (S3Log: Entry and its accessors; Tokens: fields; Parse: Parse and
--     Decode; Keys: IsLogKey) and internal/s3log/filter.go (Select).
--   WafLog: internal/waflog/waflog.go (WafLog: Entry and the decoded record; Parse: Parse and
--     Decode) and internal/waflog/filter.go (Select).
--   Stats: Stats/Counter and Stats/Summary are internal/stats/stats.go, and Stats/Bounded, with
--     the capped additions in Stats/Counter, is internal/stats/bounded.go. Stats/S3, Stats/Waf and
--     Stats/Vpc are the files of internal/stats with these names, with the hours they share in
--     Stats/Hours; Stats/Paths has NormalizePath of internal/stats/elb.go.
--   Aggregates: the rules on aggregates. Aggregates/S3Rules is internal/s3rules/rules.go,
--     Aggregates/WafRules internal/wafrules/rules.go and Aggregates/VpcRules
--     internal/vpcrules/rules.go; the report that the three share is in Aggregates.
--   ElbLog: internal/elblog/elblog.go (Tokens: fields; Parts: the field helpers; Parse: the four
--     parsers; Keys: the keys and Decode) and internal/elblog/filter.go (Select).
--   FlowLog: internal/flowlog/flowlog.go (Fields: set; Decode: ParseHeader, Parse, Stream) and
--     internal/flowlog/filter.go (Select), and internal/flowlog/addr.go (Addr).
--   Engine: the fetch workers of internal/engine/scan.go, its listers in Engine/Listing, Run of
--     internal/engine/engine.go in Engine/CloudTrail, and RunS3 of internal/engine/s3.go in
--     Engine/S3. A scan is given the keys that each worker took, so what is proved of it holds for
--     every schedule.
--   Serve: cmd/ctaudit/serve_state.go (commit, fail, prune, isSeen) and the end of tick in
--     cmd/ctaudit/serve.go. Each method holds the mutex, so it is one step of the state.
--     Serve/Retry joins a tick with the listers and workers of the scan in the next one.
--   Tests: the properties at concrete inputs.
--
-- Bounds and fuel: loops are recursion on lists, so they end, but for two. Text.Decimal.format has
-- the number itself as its fuel, which has no more digits than that; the loop over the pages of a
-- listing has fuel that every listing with fewer pages ends within. Sums of words wrap
-- as in Go, and counts are compared modulo 2 ^ 64. Lengths of lists stand for Go's len and are
-- numbers without a bound.
--
-- Not modelled: encoding/json (the parameter Unmarshal of the rules; a WAF log entry starts from the
-- record it has filled), floating-point numbers and the layouts of time.Parse (Runtime of ElbLog,
-- `clock` of S3Log, `gib` of the rules on aggregates), package netip and time.Unix (Net and
-- NetTexts of FlowLog), the rates that are quotients of counts,
-- gzip, bufio, the S3 client, HTTP, the reports, the sinks, the texts of errors, and cancellation.
-- Letter case is that of ASCII. Times before the start of year 1 do not occur. The order in which
-- Go walks a map is left open where a result could depend on it.
pub mod Prelude
pub mod Text
pub mod Map
pub mod Sort
pub mod Instant
pub mod CtEvent
pub mod Query
pub mod Findings
pub mod Stats
pub mod ElbLog
pub mod FlowLog
pub mod Serve
pub mod Engine
pub mod Tests
pub mod S3Log
pub mod LogLines
pub mod WafLog
pub mod Aggregates
