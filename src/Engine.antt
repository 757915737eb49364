-- ===== src/Engine.antt =====
-- internal/engine/scan.go: the fetch workers of a scan. Which worker takes which key, and in what
-- order, is up to the scheduler: a scan is given the keys that each worker took.
pub mod CloudTrail
pub mod Listing
pub mod Matched
pub mod Reported
pub mod S3
pub mod Schedule
use ctaudit.Prelude.{
  ℕ, Word, map, ◌+ʷ◌, Bool, true, false, Option, none, some, List, [], ◌∷◌, ◌++◌, if◌then◌else◌,
  ltb, length,
}
use ctaudit.Text.{Str, str_lt}
use ctaudit.Sort.{sort_by}

-- What fetchDecode returns for a key: records, possibly with an error, or an error alone.
pub data Fetched (T : Type 0) : Type 0 where
  got : List T → Option Str → Fetched T
  lost : Str → Fetched T

-- maxRecordedErrors
abbrev pub max_recorded_errors : ℕ
max_recorded_errors = 50

-- worker
pub record Worker (S : Type 0) : Type 0 where
  pub shard : S
  pub objects_scanned : Word
  pub records_read : Word
  pub errs : List Str
  pub read_keys : List Str

-- scanOutput
pub record Output (S : Type 0) : Type 0 where
  pub shards : List S
  pub objects_scanned : Word
  pub records_read : Word
  pub errs : List Str
  pub read_keys : List Str

unfoldable pub new_worker : {S : Type 0} → S → Worker S
new_worker shard = record {
  shard = shard;
  objects_scanned = 0;
  records_read = 0;
  errs = [];
  read_keys = [];
}

-- if len(w.errs) < maxRecordedErrors { w.errs = append(w.errs, err.Error()) }
unfoldable pub record_error : Str → List Str → List Str
record_error e errs = if ltb (length errs) max_recorded_errors then errs ++ e ∷ [] else errs

module _ {T S : Type 0} (fetch : Str → Fetched T) (visit : T → S → S) where
  unfoldable pub visit_all : List T → S → S
  visit_all [] sh = sh
  visit_all (r ∷ rs) sh = visit_all rs (visit r sh)

  -- One round of a fetch worker that decodes whole objects.
  unfoldable pub work_fetched : Str → Fetched T → Worker S → Worker S
  work_fetched key (lost e) w = record w { errs = record_error e w.errs }
  work_fetched key (got rs e) w = record {
    shard = visit_all rs w.shard;
    objects_scanned = w.objects_scanned +ʷ 1;
    records_read = w.records_read +ʷ length rs;
    errs = elim e [ none ↦ w.errs | some x ↦ record_error x w.errs ];
    read_keys = w.read_keys ++ key ∷ [];
  }

  unfoldable pub work : List Str → Worker S → Worker S
  work [] w = w
  work (key ∷ ks) w = work ks (work_fetched key (fetch key) w)

-- What scan collects from its workers.
unfoldable pub collect : {S : Type 0} → List (Worker S) → Output S → Output S
collect [] out = out
collect (w ∷ ws) out = collect ws (record {
  shards = out.shards ++ w.shard ∷ [];
  objects_scanned = out.objects_scanned +ʷ w.objects_scanned;
  records_read = out.records_read +ʷ w.records_read;
  errs = out.errs ++ w.errs;
  read_keys = out.read_keys ++ w.read_keys;
})

-- scan, behind the listing: `took` are the keys of each worker and `list_errs` the errors of the
-- listing.
unfoldable pub scan :
    {T S : Type 0} → (Str → Fetched T) → (T → S → S) → S → List (List Str) → List Str → Output S
scan fetch visit new_shard took list_errs =
    let ws = map (λ ks. work fetch visit ks (new_worker new_shard)) took in
    let out =
      collect ws (record {
        shards = [];
        objects_scanned = 0;
        records_read = 0;
        errs = [];
        read_keys = [];
      }) in
    record out { read_keys = sort_by str_lt out.read_keys; errs = out.errs ++ list_errs }
