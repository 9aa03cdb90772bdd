-- ===== src/Controller/AgentGuard/Guard.antt =====
-- The guard with its cache against the guard that asks the store each time.
use unified_cd.Prelude.{
  ◌≡◌, refl, sym, ap, ◌∙◌, Bool, true, false, Option, none, some, arith, if◌then◌else◌, inl, inr,
  is_empty, Text, text_eq,
}
use unified_cd.Store.Tables.{RunRow, Tables, get_run}
use unified_cd.Store.Locks.Held.{some-inj}
use unified_cd.Controller.AgentGuard.{
  write_ok, not_owned, ClaimedByEntry, ClaimedByCache, find_entry, get, put, claimed_text,
  row_verdict, guard_row, guard_cached, agent_run_guard,
}
use unified_cd.Controller.AgentGuard.Cache.{get-finds, get-owner, owner_of, put-finds}

-- What the cache says of a run that the store has is what the store says.
pub record IsCoherent (t : Tables) (c : ClaimedByCache) : Type 0 where
  pub named :
      (run : Text) (e : ClaimedByEntry) → find_entry run c.order ≡ some e → is_empty e.owner ≡ false
  pub claimed :
      (run : Text) (e : ClaimedByEntry) (row : RunRow)
      → find_entry run c.order ≡ some e
      → t.runs run ≡ some row
      → row.claimed_by ≡ some e.owner

row_verdict-owner :
    (agent owner : Text) (row : RunRow)
    → row.claimed_by ≡ some owner
    → is_empty owner ≡ false
    → row_verdict agent false row ≡ (if text_eq owner agent then write_ok else not_owned)
unfolding row_verdict
row_verdict-owner agent owner row claimed named = rw (claimed, named) (ground arith)

guard_row-verdict :
    (agent run : Text) (rt : Bool) (c : ClaimedByCache) (o : Option RunRow) (row : RunRow)
    → o ≡ some row
    → (guard_row agent run rt c o).1 ≡ row_verdict agent rt row
guard_row-verdict agent run rt c none row e = cc
guard_row-verdict agent run rt c (some k) row e = ap (row_verdict agent rt) (some-inj e)

guard_cached-verdict :
    (agent run : Text) (t : Tables) (c : ClaimedByCache) (o : Option ClaimedByEntry) (row : RunRow)
    (res : ClaimedByCache × Option Text)
    → IsCoherent t c
    → find_entry run c.order ≡ o
    → res.1 ≡ owner_of o
    → t.runs run ≡ some row
    → (guard_cached agent run t res).1 ≡ row_verdict agent false row
unfolding get_run
guard_cached-verdict agent run t c (some e) row (d, none) v h r er = cc
guard_cached-verdict agent run t c (some e) row (d, some owner) v h r er =
    let same : owner ≡ e.owner = some-inj r in
    rw same (sym (row_verdict-owner agent e.owner row (v.claimed run e row h er) (v.named run e h)))
guard_cached-verdict agent run t c none row (d, some owner) v h r er = cc
guard_cached-verdict agent run t c none row (d, none) v h r er =
    guard_row-verdict agent run false d (t.runs run) row er

-- With a coherent cache the guard answers as the row of the run says.
pub agent_run_guard-verdict :
    (agent run : Text) (rt : Bool) (t : Tables) (c : ClaimedByCache) (row : RunRow)
    → IsCoherent t c
    → t.runs run ≡ some row
    → (agent_run_guard agent run rt t c).1 ≡ row_verdict agent rt row
unfolding agent_run_guard get_run
agent_run_guard-verdict agent run true t c row v er =
    guard_row-verdict agent run true c (t.runs run) row er
agent_run_guard-verdict agent run false t c row v er =
    guard_cached-verdict agent run t c (find_entry run c.order) row (get c run) v refl
      (get-owner c run) er

get-IsCoherent :
    (t : Tables) (c : ClaimedByCache) (run : Text) → IsCoherent t c → IsCoherent t (get c run).0
get-IsCoherent t c run v = record {
  named = λ r e h. v.named r e (sym (get-finds c run r) ∙ h);
  claimed = λ r e row h er. v.claimed r e row (sym (get-finds c run r) ∙ h) er;
}

claimed_text-named :
    (o : Option Text) (owner : Text)
    → claimed_text o ≡ owner
    → is_empty owner ≡ false
    → o ≡ some owner
claimed_text-named none owner e named = let no_way : is_empty owner ≡ true = rw (← e) in cc
claimed_text-named (some a) owner e named = ap some e

put-IsCoherent :
    (t : Tables) (c : ClaimedByCache) (run : Text) (row : RunRow)
    → t.runs run ≡ some row
    → IsCoherent t c
    → IsCoherent t (put c run (claimed_text row.claimed_by))
put-IsCoherent t c run row er v = record {
  named = λ r e h. elim (put-finds c run (claimed_text row.claimed_by) r e h) [
    | inl old ↦ v.named r e old
    | inr new ↦ rw new.1 new.2
  ];
  claimed = λ r e k h ek. elim (put-finds c run (claimed_text row.claimed_by) r e h) [
    | inl old ↦ v.claimed r e k old ek
    | inr new ↦
        let there : t.runs run ≡ some k = ap t.runs new.0 ∙ ek in
        let same : row ≡ k = some-inj (sym er ∙ there) in
        let owner : row.claimed_by ≡ some (claimed_text row.claimed_by) =
          claimed_text-named row.claimed_by (claimed_text row.claimed_by) refl new.2 in
        ap (λ (x : RunRow). x.claimed_by) (sym same) ∙ owner ∙ ap some (sym new.1)
  ];
}

guard_row-IsCoherent :
    (agent run : Text) (rt : Bool) (t : Tables) (c : ClaimedByCache) (o : Option RunRow)
    → t.runs run ≡ o
    → IsCoherent t c
    → IsCoherent t (guard_row agent run rt c o).0
guard_row-IsCoherent agent run rt t c none e v = v
guard_row-IsCoherent agent run rt t c (some row) e v = put-IsCoherent t c run row e v

guard_cached-IsCoherent :
    (agent run : Text) (t : Tables) (res : ClaimedByCache × Option Text)
    → IsCoherent t res.0
    → IsCoherent t (guard_cached agent run t res).0
unfolding get_run
guard_cached-IsCoherent agent run t (d, some owner) v = v
guard_cached-IsCoherent agent run t (d, none) v =
    guard_row-IsCoherent agent run false t d (t.runs run) refl v

-- The guard keeps the cache coherent.
pub agent_run_guard-IsCoherent :
    (agent run : Text) (rt : Bool) (t : Tables) (c : ClaimedByCache)
    → IsCoherent t c
    → IsCoherent t (agent_run_guard agent run rt t c).0
unfolding agent_run_guard get_run
agent_run_guard-IsCoherent agent run true t c v =
    guard_row-IsCoherent agent run true t c (t.runs run) refl v
agent_run_guard-IsCoherent agent run false t c v =
    guard_cached-IsCoherent agent run t (get c run) (get-IsCoherent t c run v)
