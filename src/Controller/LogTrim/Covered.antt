-- ===== src/Controller/LogTrim/Covered.antt =====
-- A log row is deleted only when the archive has it.
use unified_cd.Prelude.{
  ◌≡◌, refl, sym, ap, ◌∙◌, ◌⊎◌, inl, inr, ℕ, ◌≤◌, Bool, true, false, not, ◌&&◌, List, [], ◌∷◌,
  Option, none, some, leb, arith, Bool-cases, if◌then◌else◌, length, keep, Text, text_eq,
  text_eq_iff,
}
use unified_cd.Store.Tables.{update}
use unified_cd.Controller.LogTrim.{
  LogArchive, LogTables, TrimResult, trimmed, archive_incomplete, max_of, is_covered, trim_record,
  trim_run_logs, delete_log_archive, Answers, Batch, count_error, delete_record, is_legacy,
  after_trim, trim_listed, trim_candidate, trim_batch,
}

keep-covered : (m : ℕ) (rows : List ℕ) → max_of rows ≤ m → keep (λ s. not (leb s m)) rows ≡ []
unfolding max_of keep
keep-covered m [] h = refl
keep-covered m (s ∷ rows) h = ground (arith, keep-covered m rows)

is_covered-max :
    (a : LogArchive) (rows : List ℕ)
    → is_covered a rows ≡ true
    → (length rows ≤ a.line_count) × (max_of rows ≤ a.max_seq)
unfolding is_covered
is_covered-max a rows h = (ground arith, ground arith)

-- From `t` to `u` the rows of the run stay, and its record stays or goes, or all its rows go, which
-- the record covers.
pub data Kept (has_object : Option Bool) (r : Text) (t u : LogTables) : Type 0 where
  rows_stay :
      u.logs r ≡ t.logs r
      → (u.archives r ≡ t.archives r) ⊎ (u.archives r ≡ none)
      → Kept has_object r t u
  rows_go :
      (a : LogArchive)
      → has_object ≡ some true
      → t.archives r ≡ some a
      → a.is_trimmed ≡ false
      → is_covered a (t.logs r) ≡ true
      → u.logs r ≡ []
      → Kept has_object r t u

Kept-trans :
    (o : Option Bool) (r : Text) (t u v : LogTables) → Kept o r t u → Kept o r u v → Kept o r t v
Kept-trans o r t u v (rows_stay e (inl same)) (rows_stay f (inl g)) =
    rows_stay (f ∙ e) (inl (g ∙ same))
Kept-trans o r t u v (rows_stay e (inr gone)) (rows_stay f (inl g)) =
    rows_stay (f ∙ e) (inr (g ∙ gone))
Kept-trans o r t u v (rows_stay e s) (rows_stay f (inr g)) = rows_stay (f ∙ e) (inr g)
Kept-trans o r t u v (rows_stay e (inl same)) (rows_go a h i j k l) =
    rows_go a h (sym same ∙ i) j (ap (is_covered a) (sym e) ∙ k) l
Kept-trans o r t u v (rows_stay e (inr gone)) (rows_go a h i j k l) =
    let no_way : none ≡ some a = sym gone ∙ i in cc
Kept-trans o r t u v (rows_go a h i j k l) (rows_stay f g) = rows_go a h i j k (f ∙ l)
Kept-trans o r t u v (rows_go a h i j k l) (rows_go a' h' i' j' k' l') = rows_go a h i j k l'

Kept-refl : (o : Option Bool) (r : Text) (t : LogTables) → Kept o r t t
Kept-refl o r t = rows_stay refl (inl refl)

delete_log_archive-Kept :
    (o : Option Bool) (r x : Text) (t : LogTables) → Kept o x t (delete_log_archive r t)
unfolding delete_log_archive
delete_log_archive-Kept o r x t = elim (Bool-cases (text_eq r x)) [
  | inl here ↦ rows_stay refl (inr (rw here refl))
  | inr other ↦ rows_stay refl (inl (rw other refl))
]

delete_record-Kept :
    (o : Option Bool) (answers : Answers) (r x : Text) (b : Batch)
    → Kept o x b.tables (delete_record answers r b).tables
delete_record-Kept o answers r x b = elim (Bool-cases answers.deletes) [
  | inl deleted ↦ rw deleted (delete_log_archive-Kept o r x b.tables)
  | inr broken ↦ rw broken (Kept-refl o x b.tables)
]

-- `o r` is whether the run has an archive object.
module _ (o : Text → Option Bool) where
  trim_here :
      (r x : Text) (t : LogTables) (a : LogArchive)
      → o r ≡ some true
      → t.archives r ≡ some a
      → a.is_trimmed ≡ false
      → is_covered a (t.logs r) ≡ true
      → Kept (o x) x t (record {
        archives = update t.archives r (some (record a { is_trimmed = true }));
        logs = update t.logs r (keep (λ s. not (leb s a.max_seq)) (t.logs r));
      })
  trim_here r x t a h e untrimmed c = elim (Bool-cases (text_eq r x)) [
    | inr other ↦ rows_stay (rw other refl) (inl (rw other refl))
    | inl here ↦
        let same : r ≡ x = (text_eq_iff r x).0 here in
        rows_go a (ap o (sym same) ∙ h) (ap t.archives (sym same) ∙ e) untrimmed
          (ap (λ y. is_covered a (t.logs y)) (sym same) ∙ c)
          (rw here (keep-covered a.max_seq (t.logs r) (is_covered-max a (t.logs r) c).1))
  ]

  trim_record-Kept :
      (r x : Text) (t : LogTables) (found : Option LogArchive)
      → t.archives r ≡ found
      → o r ≡ some true
      → Kept (o x) x t (trim_record r t found).1
  unfolding is_covered
  trim_record-Kept r x t none e h = Kept-refl (o x) x t
  trim_record-Kept r x t (some a) e h = elim (Bool-cases a.is_trimmed) [
    | inl done ↦ rw done (Kept-refl (o x) x t)
    | inr untrimmed ↦ elim (Bool-cases (is_covered a (t.logs r))) [
      | inl c ↦ rw (untrimmed, c) (trim_here r x t a h e untrimmed c)
      | inr bare ↦ rw (untrimmed, bare) (Kept-refl (o x) x t)
    ]
  ]

  after_trim-Kept :
      (answers : Answers) (r x : Text) (b : Batch) (res : TrimResult × LogTables)
      → Kept (o x) x b.tables res.1
      → Kept (o x) x b.tables (after_trim answers r b res).tables
  after_trim-Kept answers r x b (trimmed n, t) k = k
  after_trim-Kept answers r x b (archive_incomplete, t) k =
      if_tables (answers.reads && is_legacy (b.tables.archives r)) (delete_record answers r b)
        (delete_record-Kept (o x) answers r x b)
    where
      if_tables :
          (c : Bool) (d : Batch)
          → Kept (o x) x b.tables d.tables
          → Kept (o x) x b.tables (if c then d else count_error b).tables
      if_tables true d k = k
      if_tables false d k = Kept-refl (o x) x b.tables

  trim_listed-Kept :
      (answers : Answers) (r x : Text) (b : Batch) (listed : Option Bool)
      → o r ≡ listed
      → Kept (o x) x b.tables (trim_listed answers r b listed).tables
  unfolding trim_run_logs
  trim_listed-Kept answers r x b none e = Kept-refl (o x) x b.tables
  trim_listed-Kept answers r x b (some false) e = delete_record-Kept (o x) answers r x b
  trim_listed-Kept answers r x b (some true) e = elim (Bool-cases answers.trims) [
    | inl ok ↦ rw ok (
        after_trim-Kept answers r x b (trim_run_logs r b.tables)
          (trim_record-Kept r x b.tables (b.tables.archives r) refl e))
    | inr broken ↦ rw broken (Kept-refl (o x) x b.tables)
  ]

-- Whatever the object store and the database answer during a batch of the log trim, each run
-- either has the log rows that it had, and the archive record that it had or none, or it has an
-- archive object and had an untrimmed record that covers all its rows, and loses all of them: no
-- row is deleted that the archive lacks.
pub trim_batch-Kept :
    (answers : Text → Answers) (x : Text) (rs : List Text) (b : Batch)
    → Kept (answers x).has_object x b.tables (trim_batch answers rs b).tables
unfolding trim_batch trim_candidate
trim_batch-Kept answers x [] b = Kept-refl (answers x).has_object x b.tables
trim_batch-Kept answers x (r ∷ rs) b =
    let first = trim_candidate (answers r) r b in
    Kept-trans (answers x).has_object x b.tables first.tables (trim_batch answers rs first).tables
      (trim_listed-Kept (λ y. (answers y).has_object) (answers r) r x b (answers r).has_object refl)
      (trim_batch-Kept answers x rs first)
