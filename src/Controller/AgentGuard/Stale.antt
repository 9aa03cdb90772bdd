-- ===== src/Controller/AgentGuard/Stale.antt =====
-- A claim that is given back and taken by another agent, with the first one in the cache.
use unified_cd.Prelude.{
  ◌≡◌, refl, ap, ◌∙◌, ℕ, zero, suc, ◌<◌, Bool, true, false, ◌&&◌, List, [], ◌∷◌, Option, none, some,
  arith, ltb, if◌then◌else◌, Bool-cases, inl, inr, is_empty, length, Text, text_eq, text_eq_refl,
}
use unified_cd.Prelude.Recency.{drop_back, evict_back, first}
use unified_cd.Store.Tables.{queued, running, same_status, RunRow, Tables, set_run, get_run}
use unified_cd.Store.Locks.Held.{some-inj}
use unified_cd.Store.Lifecycle.{is_claim_of, claim_run, requeue_claimed_run}
use unified_cd.Store.Lifecycle.Claim.{change_row-hit, set_run_self}
use unified_cd.Controller.AgentGuard.{
  write_ok, not_owned, ClaimedByEntry, ClaimedByCache, find_entry, used, get, put_missing, put,
  claimed_text, guard_row, guard_cached, agent_run_guard,
}
use unified_cd.Controller.AgentGuard.Cache.{get-owner, owner_of}

-- With room for one entry an eviction leaves the front.
evict_back-front :
    {A : Type 0} (fuel cap : ℕ) (e : A) (es : List A)
    → 0 < cap
    → (rest : List A) × (evict_back fuel cap (e ∷ es) ≡ e ∷ rest)
unfolding evict_back drop_back
evict_back-front zero cap e es h = (es, refl)
evict_back-front (suc fuel) cap e [] h = ([], ground arith)
evict_back-front (suc fuel) cap e (f ∷ es) h = elim (Bool-cases (ltb cap (length (e ∷ f ∷ es)))) [
  | inl long ↦
      let (rest, same) = evict_back-front fuel cap e (drop_back (f ∷ es)) h in (rest, rw long same)
  | inr fits ↦ (f ∷ es, rw fits)
]

find_entry-front :
    (run agent : Text) (rest : List ClaimedByEntry)
    → owner_of (find_entry run (record { run_id = run; owner = agent } ∷ rest)) ≡ some agent
unfolding find_entry first
find_entry-front run agent rest = rw (text_eq_refl run)

-- A run that was not cached is cached for its owner.
put_missing-owner :
    (run agent : Text) (c : ClaimedByCache) (o : Option ClaimedByEntry)
    → 0 < c.cap
    → o ≡ none
    → owner_of (find_entry run (put_missing c run agent o).order) ≡ some agent
put_missing-owner run agent c (some e) room h = cc
put_missing-owner run agent c none room h =
    let entry : ClaimedByEntry = record { run_id = run; owner = agent } in
    let (rest, same) = evict_back-front (length (entry ∷ c.order)) c.cap entry c.order room in
    ap (λ es. owner_of (find_entry run es)) same ∙ find_entry-front run agent rest

put-owner :
    (run agent : Text) (c : ClaimedByCache)
    → 0 < c.cap
    → is_empty agent ≡ false
    → find_entry run c.order ≡ none
    → owner_of (find_entry run (put c run agent).order) ≡ some agent
unfolding put
put-owner run [] c room named missing = cc
put-owner run (x ∷ agent) c room named missing =
    put_missing-owner run (x ∷ agent) c (find_entry run c.order) room missing

guard_cached-hit :
    (agent run owner : Text) (t : Tables) (res : ClaimedByCache × Option Text)
    → res.1 ≡ some owner
    → (guard_cached agent run t res).1 ≡ (if text_eq owner agent then write_ok else not_owned)
guard_cached-hit agent run owner t (c, none) h = cc
guard_cached-hit agent run owner t (c, some o) h =
    ap (λ k. if text_eq k agent then write_ok else not_owned) (some-inj h)

-- A cached run is answered for without the store.
agent_run_guard-hit :
    (agent run owner : Text) (t : Tables) (c : ClaimedByCache)
    → owner_of (find_entry run c.order) ≡ some owner
    → (agent_run_guard agent run false t c).1
      ≡ (if text_eq owner agent then write_ok else not_owned)
unfolding agent_run_guard
agent_run_guard-hit agent run owner t c h =
    guard_cached-hit agent run owner t (get c run) (get-owner c run ∙ h)

guard_row-cache :
    (agent run owner : Text) (c : ClaimedByCache) (o : Option RunRow) (row : RunRow)
    → o ≡ some row
    → row.claimed_by ≡ some owner
    → (guard_row agent run false c o).0 ≡ put c run owner
guard_row-cache agent run owner c none row e mine = cc
guard_row-cache agent run owner c (some k) row e mine =
    let claimed : k.claimed_by ≡ some owner =
      ap (λ (x : RunRow). x.claimed_by) (some-inj e) ∙ mine in
    ap (λ o. put c run (claimed_text o)) claimed

used-none :
    (c : ClaimedByCache) (run : Text) (o : Option ClaimedByEntry)
    → o ≡ none
    → used c run o ≡ (c, none)
used-none c run none h = refl
used-none c run (some e) h = cc

-- A run that is not cached is looked up, and its owner is cached.
agent_run_guard-miss :
    (agent run owner : Text) (t : Tables) (c : ClaimedByCache) (row : RunRow)
    → find_entry run c.order ≡ none
    → t.runs run ≡ some row
    → row.claimed_by ≡ some owner
    → (agent_run_guard agent run false t c).0 ≡ put c run owner
unfolding agent_run_guard get get_run
agent_run_guard-miss agent run owner t c row missing there mine =
    ap (λ res. (guard_cached agent run t res).0) (used-none c run (find_entry run c.order) missing)
    ∙ guard_row-cache agent run owner c (t.runs run) row there mine

claim_run-hit :
    (agent r : Text) (t : Tables) (row : RunRow)
    → t.runs r ≡ some row
    → same_status row.status queued ≡ true
    → (claim_run agent r t).0
      ≡ set_run t r (some (record row { claimed_by = some agent; status = running }))
unfolding claim_run
claim_run-hit agent r t row there was =
    ap (λ (x : Tables × Bool). x.0)
      (change_row-hit r (λ row. same_status row.status queued)
        (λ row. record row { claimed_by = some agent; status = running }) t (t.runs r) row there
        was)

requeue-hit :
    (agent r : Text) (t : Tables) (row : RunRow)
    → t.runs r ≡ some row
    → row.status ≡ running
    → row.claimed_by ≡ some agent
    → (requeue_claimed_run r agent t).0
      ≡ set_run t r (some (record row { claimed_by = none; status = queued }))
unfolding requeue_claimed_run same_status
requeue-hit agent r t row there runs mine =
    ap (λ (x : Tables × Bool). x.0)
      (change_row-hit r (λ row. same_status row.status running && is_claim_of agent row.claimed_by)
        (λ row. record row { claimed_by = none; status = queued }) t (t.runs r) row there
        (rw (runs, mine) (text_eq_refl agent)))

runs-of :
    (t u : Tables) (r : Text) (row : RunRow) → t ≡ u → u.runs r ≡ some row → t.runs r ≡ some row
runs-of t u r row same there = ap (λ (x : Tables). x.runs r) same ∙ there

-- For two agents with different names, the first one not empty, a queued run that is not cached,
-- and a cache with room: if the first claims the run and is guarded, the run is requeued and the
-- second claims it, then the guard with the cache refuses the second agent and lets the first one
-- write, though the row names the second.
pub agent_run_guard-stale :
    (a b r : Text) (t : Tables) (c : ClaimedByCache) (row : RunRow)
    → t.runs r ≡ some row
    → same_status row.status queued ≡ true
    → 0 < c.cap
    → find_entry r c.order ≡ none
    → is_empty a ≡ false
    → text_eq a b ≡ false
    → let first_claim = (claim_run a r t).0 in
      let later = (claim_run b r (requeue_claimed_run r a first_claim).0).0 in
      let cache = (agent_run_guard a r false first_claim c).0 in
      (later.runs r ≡ some (record row { claimed_by = some b; status = running }))
      × ((agent_run_guard b r false later cache).1 ≡ not_owned)
      × ((agent_run_guard a r false later cache).1 ≡ write_ok)
unfolding same_status
agent_run_guard-stale a b r t c row there was room missing named apart =
    let taken : RunRow = record row { claimed_by = some a; status = running } in
    let given : RunRow = record row { claimed_by = none; status = queued } in
    let t1 = (claim_run a r t).0 in
    let t2 = (requeue_claimed_run r a t1).0 in
    let t3 = (claim_run b r t2).0 in
    let in_t1 : t1.runs r ≡ some taken =
      runs-of t1 _ r taken (claim_run-hit a r t row there was) (set_run_self t r (some taken)) in
    let in_t2 : t2.runs r ≡ some given =
      runs-of t2 _ r given (requeue-hit a r t1 taken in_t1 refl refl)
        (set_run_self t1 r (some given)) in
    let again : RunRow = record row { claimed_by = some b; status = running } in
    let in_t3 : t3.runs r ≡ some again =
      runs-of t3 _ r again (claim_run-hit b r t2 given in_t2 refl)
        (set_run_self t2 r (some again)) in
    let cached : owner_of (find_entry r (agent_run_guard a r false t1 c).0.order) ≡ some a =
      ap (λ (x : ClaimedByCache). owner_of (find_entry r x.order))
        (agent_run_guard-miss a r a t1 c taken missing in_t1 refl)
      ∙ put-owner r a c room named missing in
    (
      in_t3,
      agent_run_guard-hit b r a t3 (agent_run_guard a r false t1 c).0 cached ∙ rw apart,
      agent_run_guard-hit a r a t3 (agent_run_guard a r false t1 c).0 cached ∙ rw (text_eq_refl a),
    )
