-- ===== src/Controller/AgentGuard.antt =====
-- internal/controller/agent_guard.go: may an agent write to a run? The answer comes from the store,
-- or from a bounded cache of the agents that claimed the runs.
pub mod Cache
pub mod Guard
pub mod System
pub mod Stale
use unified_cd.Prelude.{
  ◌≡◌, refl, ℕ, zero, suc, ◌+◌, Bool, true, false, not, ◌&&◌, ◌||◌, List, [], ◌∷◌, Option, none,
  some, ltb, if◌then◌else◌, is_empty, length, keep, Text, text_eq,
}
use unified_cd.Prelude.Recency.{drop_back, evict_back, first}
use unified_cd.Store.Tables.{RunStatus, is_terminal, RunRow, Tables, get_run}

pub data Verdict : Type 0 where
  write_ok not_found not_owned terminal : Verdict

pub record ClaimedByEntry : Type 0 where
  pub run_id : Text
  pub owner : Text

-- `order` is the list, the most recently used first; the map `m` indexes its elements by run.
pub record ClaimedByCache : Type 0 where
  pub order : List ClaimedByEntry
  pub cap : ℕ

unfoldable pub new_claimed_by_cache : ℕ → ClaimedByCache
new_claimed_by_cache cap = record { order = []; cap = cap }

abbrev pub has_run : Text → ClaimedByEntry → Bool
has_run run e = text_eq e.run_id run

-- `c.m[runID]`
unfoldable pub find_entry : Text → List ClaimedByEntry → Option ClaimedByEntry
unfolding first
find_entry run = first (has_run run)

unfoldable pub without : Text → List ClaimedByEntry → List ClaimedByEntry
unfolding keep
without run = keep (λ e. not (has_run run e))

abbrev pub used : ClaimedByCache → Text → Option ClaimedByEntry → ClaimedByCache × Option Text
used c run none = (c, none)
used c run (some e) = (record c { order = e ∷ without run c.order }, some e.owner)

-- The owner, if the run is cached, whose entry moves to the front.
unfoldable pub get : ClaimedByCache → Text → ClaimedByCache × Option Text
unfolding find_entry without
get c run = used c run (find_entry run c.order)

abbrev pub put_missing : ClaimedByCache → Text → Text → Option ClaimedByEntry → ClaimedByCache
put_missing c run owner (some e) = c
put_missing c run owner none =
    let grown = record { run_id = run; owner = owner } ∷ c.order in
    record c { order = evict_back (length grown) c.cap grown }

unfoldable pub put : ClaimedByCache → Text → Text → ClaimedByCache
unfolding find_entry evict_back drop_back
put c run owner = if is_empty owner then c else put_missing c run owner (find_entry run c.order)

-- `run.ClaimedBy`: a NULL column is the empty text.
abbrev pub claimed_text : Option Text → Text
claimed_text none = []
claimed_text (some agent) = agent

-- What the row of a run says.
unfoldable pub row_verdict : Text → Bool → RunRow → Verdict
unfolding text_eq is_terminal
row_verdict agent reject_terminal row =
    let owner = claimed_text row.claimed_by in
    if is_empty owner || not (text_eq owner agent)
    then not_owned
    else if reject_terminal && is_terminal row.status
    then terminal
    else write_ok

-- The rest of the guard, from the row that the store has.
abbrev pub guard_row :
    Text → Text → Bool → ClaimedByCache → Option RunRow → ClaimedByCache × Verdict
guard_row agent run reject_terminal c none = (c, not_found)
guard_row agent run reject_terminal c (some row) =
    (put c run (claimed_text row.claimed_by), row_verdict agent reject_terminal row)

abbrev pub guard_cached :
    Text → Text → Tables → ClaimedByCache × Option Text → ClaimedByCache × Verdict
guard_cached agent run t (c, some owner) = (c, if text_eq owner agent then write_ok else not_owned)
guard_cached agent run t (c, none) = guard_row agent run false c (get_run t run)

-- The cache afterwards, and the verdict. Which denials are counted in a metric is left out.
unfoldable pub agent_run_guard :
    Text → Text → Bool → Tables → ClaimedByCache → ClaimedByCache × Verdict
unfolding get put row_verdict get_run
agent_run_guard agent run true t c = guard_row agent run true c (get_run t run)
agent_run_guard agent run false t c = guard_cached agent run t (get c run)
