-- ===== src/Tests/Trims.antt =====
-- A batch over four archived runs.
use unified_cd.Prelude.{
  ◌≡◌, refl, true, false, [], ◌∷◌, none, some, Text, str, text_eq, if◌then◌else◌,
}
use unified_cd.Controller.LogTrim.{
  LogArchive, LogTables, archive_incomplete, trim_run_logs, Answers, Batch, trim_batch,
}
use unified_cd.Controller.LogTrim.Covered.{Kept, trim_batch-Kept}

abbrev full : LogArchive
full = record { line_count = 2; max_seq = 5; is_trimmed = false }

abbrev legacy : LogArchive
legacy = record { line_count = 0; max_seq = 0; is_trimmed = false }

abbrev short : LogArchive
short = record { line_count = 1; max_seq = 4; is_trimmed = false }

abbrev tables : LogTables
tables = record {
  archives = λ r.
      if text_eq r (str "short")
      then some short
      else if text_eq r (str "old")
      then some legacy
      else some full;
  logs = λ r. 4 ∷ 5 ∷ [];
}

abbrev all_well : Answers
all_well = record { has_object = some true; deletes = true; trims = true; reads = true }

-- The object of one run is missing.
abbrev answers : Text → Answers
answers r = if text_eq r (str "lost") then record all_well { has_object = some false } else all_well

abbrev start : Batch
start = record { tables = tables; progressed = 0; total_runs = 0; errs = 0 }

abbrev end : Batch
end = trim_batch answers (str "full" ∷ str "old" ∷ str "short" ∷ str "lost" ∷ []) start

one_is_trimmed : end ≡ record end { total_runs = 1; progressed = 3; errs = 1 }
unfolding trim_batch text_eq
one_is_trimmed = refl

full_is_empty : end.tables.logs (str "full") ≡ []
unfolding trim_batch text_eq
full_is_empty = refl

short_stays : end.tables.logs (str "short") ≡ 4 ∷ 5 ∷ []
unfolding trim_batch text_eq
short_stays = refl

lost_is_archived_again : end.tables.archives (str "lost") ≡ none
unfolding trim_batch text_eq
lost_is_archived_again = refl

short_is_incomplete : trim_run_logs (str "short") tables ≡ (archive_incomplete, tables)
unfolding trim_run_logs text_eq
short_is_incomplete = refl

trim_batch-Kept_example : Kept (some true) (str "full") tables end.tables
unfolding text_eq
trim_batch-Kept_example =
    trim_batch-Kept answers (str "full") (str "full" ∷ str "old" ∷ str "short" ∷ str "lost" ∷ [])
      start
