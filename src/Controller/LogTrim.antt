-- ===== src/Controller/LogTrim.antt =====
-- A batch of internal/controller/log_trim.go: the log rows of archived runs are deleted, by
-- TrimRunLogs of internal/store/postgres.go.
pub mod Covered
use unified_cd.Prelude.{
  ℕ, suc, ◌+◌, Bool, true, false, not, ◌&&◌, ◌||◌, ◌==◌, List, [], ◌∷◌, Option, none, some, ltb,
  leb, if◌then◌else◌, length, keep, Text, text_eq,
}
use unified_cd.Store.Tables.{update}

-- How many rows the archive object covers, and up to which one.
pub record LogArchive : Type 0 where
  pub line_count : ℕ
  pub max_seq : ℕ
  pub is_trimmed : Bool

-- `logs r` are the sequence numbers of the rows of the run.
pub record LogTables : Type 0 where
  pub archives : Text → Option LogArchive
  pub logs : Text → List ℕ

pub data TrimResult : Type 0 where
  trimmed : ℕ → TrimResult
  archive_incomplete : TrimResult

unfoldable pub max_of : List ℕ → ℕ
max_of [] = 0
max_of (s ∷ ss) = let m = max_of ss in if ltb m s then s else m

unfoldable pub is_covered : LogArchive → List ℕ → Bool
unfolding max_of
is_covered a rows = not (ltb a.line_count (length rows) || ltb a.max_seq (max_of rows))

abbrev pub trim_record : Text → LogTables → Option LogArchive → TrimResult × LogTables
trim_record r t none = (trimmed 0, t)
trim_record r t (some a) =
    if a.is_trimmed
    then (trimmed 0, t)
    else if is_covered a (t.logs r)
    then (
      trimmed (length (keep (λ s. leb s a.max_seq) (t.logs r))),
      record {
        archives = update t.archives r (some (record a { is_trimmed = true }));
        logs = update t.logs r (keep (λ s. not (leb s a.max_seq)) (t.logs r));
      },
    )
    else (archive_incomplete, t)

unfoldable pub trim_run_logs : Text → LogTables → TrimResult × LogTables
unfolding is_covered keep
trim_run_logs r t = trim_record r t (t.archives r)

unfoldable pub delete_log_archive : Text → LogTables → LogTables
delete_log_archive r t = record t { archives = update t.archives r none }

-- What the object store and the database answer for a candidate: whether the archive object exists,
-- if it can be listed, and whether the three statements succeed.
pub record Answers : Type 0 where
  pub has_object : Option Bool
  pub deletes : Bool
  pub trims : Bool
  pub reads : Bool

pub record Batch : Type 0 where
  pub tables : LogTables
  pub progressed : ℕ
  pub total_runs : ℕ
  pub errs : ℕ

abbrev pub count_error : Batch → Batch
count_error b = record b { errs = suc b.errs }

abbrev pub delete_record : Answers → Text → Batch → Batch
delete_record answers r b =
    if answers.deletes
    then record b { tables = delete_log_archive r b.tables; progressed = suc b.progressed }
    else count_error b

-- A record that covers no row at all was written before coverage was recorded.
abbrev pub is_legacy : Option LogArchive → Bool
is_legacy none = false
is_legacy (some a) = a.line_count == 0 && a.max_seq == 0

abbrev pub after_trim : Answers → Text → Batch → TrimResult × LogTables → Batch
after_trim answers r b (trimmed n, t) = record b {
  tables = t;
  progressed = suc b.progressed;
  total_runs = suc b.total_runs;
}
after_trim answers r b (archive_incomplete, t) =
    if answers.reads && is_legacy (b.tables.archives r)
    then delete_record answers r b
    else count_error b

abbrev pub trim_listed : Answers → Text → Batch → Option Bool → Batch
trim_listed answers r b none = count_error b
trim_listed answers r b (some false) = delete_record answers r b
trim_listed answers r b (some true) =
    if answers.trims then after_trim answers r b (trim_run_logs r b.tables) else count_error b

unfoldable pub trim_candidate : Answers → Text → Batch → Batch
unfolding trim_run_logs delete_log_archive
trim_candidate answers r b = trim_listed answers r b answers.has_object

-- The candidates that a batch comes to: a shutdown ends it early.
unfoldable pub trim_batch : (Text → Answers) → List Text → Batch → Batch
unfolding trim_candidate
trim_batch answers [] b = b
trim_batch answers (r ∷ rs) b = trim_batch answers rs (trim_candidate (answers r) r b)
