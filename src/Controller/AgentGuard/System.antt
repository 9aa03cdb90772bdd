-- ===== src/Controller/AgentGuard/System.antt =====
-- The guard's cache while the store changes under it.
use unified_cd.Prelude.{
  ◌≡◌, refl, sym, subst, ap, ◌∙◌, ℕ, Bool, true, false, ◌||◌, Option, none, some, arith, Text,
}
use unified_cd.Prelude.Recency.{first}
use unified_cd.Store.Tables.{
  RunStatus, pending, queued, running, is_terminal, same_status, RunRow, Tables,
}
use unified_cd.Store.Expand.{Templates}
use unified_cd.Store.Locks.Held.{some-inj}
use unified_cd.Store.Lifecycle.Steps.{
  Step, create, queue, claim, requeue, mark_running, respec, finish, delete,
}
use unified_cd.Store.Lifecycle.Machine.{
  Move, stay, enqueue, take, give_back, start_running, end, Origin, moved, born, takes_back,
  creates, Step-Origin,
}
use unified_cd.Controller.AgentGuard.{
  ClaimedByEntry, ClaimedByCache, new_claimed_by_cache, find_entry, row_verdict, agent_run_guard,
}
use unified_cd.Controller.AgentGuard.Guard.{
  IsCoherent, agent_run_guard-verdict, agent_run_guard-IsCoherent,
}

pub record System : Type 0 where
  pub tables : Tables
  pub cache : ClaimedByCache

-- A statement that takes no claim back, and a new run whose id was not in use before.
abbrev pub IsOrderly : {tpl : Templates} {t u : Tables} → ClaimedByCache → Step tpl t u → Type 0
IsOrderly c (create r spec params fresh) = find_entry r c.order ≡ none
IsOrderly c (queue r spec params) = Unit {0}
IsOrderly c (claim agent r) = Unit {0}
IsOrderly c (requeue r agent) = ⊥
IsOrderly c (mark_running r) = Unit {0}
IsOrderly c (respec r spec) = Unit {0}
IsOrderly c (finish r expected status e) = Unit {0}
IsOrderly c (delete r) = Unit {0}

pub data Turn (tpl : Templates) (s : System) : System → Type 0 where
  stored :
      {u : Tables} (step : Step tpl s.tables u)
      → IsOrderly s.cache step
      → Turn tpl s (record { tables = u; cache = s.cache })
  guarded :
      (agent run : Text) (reject_terminal : Bool)
      → Turn tpl s (record {
        tables = s.tables;
        cache = (agent_run_guard agent run reject_terminal s.tables s.cache).0;
      })

pub data Turns (tpl : Templates) (s : System) : System → Type 0 where
  started : Turns tpl s s
  followed : {u v : System} → Turns tpl s u → Turn tpl u v → Turns tpl s v

-- A run that is not yet running is nobody's.
abbrev pub waits : RunStatus → Bool
waits s = same_status s pending || same_status s queued

abbrev pub IsUnclaimed : Tables → Type 0
IsUnclaimed t =
    (r : Text) (row : RunRow)
    → t.runs r ≡ some row
    → waits row.status ≡ true
    → row.claimed_by ≡ none

running_waits : (s : RunStatus) → s ≡ running → waits s ≡ false
unfolding same_status
running_waits s e = rw e

terminal_waits : (s : RunStatus) → is_terminal s ≡ true → waits s ≡ false
unfolding is_terminal same_status
terminal_waits RunStatus.pending h = cc
terminal_waits RunStatus.queued h = cc
terminal_waits RunStatus.running h = cc
terminal_waits RunStatus.succeeded h = refl
terminal_waits RunStatus.failed h = refl
terminal_waits RunStatus.cancelled h = refl

waits_pending : (s : RunStatus) → same_status s pending ≡ true → waits s ≡ true
waits_pending s h = rw h

waits_queued : (s : RunStatus) → same_status s queued ≡ true → waits s ≡ true
waits_queued s h = ground arith

Move-unclaimed :
    {back : Bool} (old new : RunRow)
    → Move back old new
    → (waits old.status ≡ true → old.claimed_by ≡ none)
    → waits new.status ≡ true
    → new.claimed_by ≡ none
Move-unclaimed old new (stay s c) h w = c ∙ h (sym (ap waits s) ∙ w)
Move-unclaimed old new (enqueue p s c) h w = c ∙ h (waits_pending old.status p)
Move-unclaimed old new (take agent q s c) h w =
    let no_way : true ≡ false = sym w ∙ running_waits new.status s in cc
Move-unclaimed old new (give_back b r s c) h w = c
Move-unclaimed old new (start_running n s c) h w =
    let no_way : true ≡ false = sym w ∙ running_waits new.status s in cc
Move-unclaimed old new (end n s c) h w =
    let no_way : true ≡ false = sym w ∙ terminal_waits new.status s in cc

Origin-unclaimed :
    {back : Bool} {made : Option Text} (t : Tables) (r : Text) (new : RunRow)
    → Origin back made t r new
    → IsUnclaimed t
    → waits new.status ≡ true
    → new.claimed_by ≡ none
Origin-unclaimed t r new (moved old e m) h w = Move-unclaimed old new m (h r old e) w
Origin-unclaimed t r new (born m e s c) h w = c

pub Step-IsUnclaimed :
    {tpl : Templates} {t u : Tables} → Step tpl t u → IsUnclaimed t → IsUnclaimed u
Step-IsUnclaimed {t} step h r row e w = Origin-unclaimed t r row (Step-Origin r row step e) h w

-- A claim that is there stays as it is, unless it is given back.
Move-claimed :
    (old new : RunRow) (owner : Text)
    → Move false old new
    → (waits old.status ≡ true → old.claimed_by ≡ none)
    → old.claimed_by ≡ some owner
    → new.claimed_by ≡ some owner
Move-claimed old new owner (stay s c) h o = c ∙ o
Move-claimed old new owner (enqueue p s c) h o = c ∙ o
Move-claimed old new owner (take agent q s c) h o =
    let no_way : some owner ≡ none = sym o ∙ h (waits_queued old.status q) in cc
Move-claimed old new owner (give_back b r s c) h o = cc
Move-claimed old new owner (start_running n s c) h o = c ∙ o
Move-claimed old new owner (end n s c) h o = c ∙ o

orderly_keeps :
    {tpl : Templates} {t u : Tables} (c : ClaimedByCache) (step : Step tpl t u)
    → IsOrderly c step
    → takes_back step ≡ false
orderly_keeps c (create r spec params fresh) h = refl
orderly_keeps c (queue r spec params) h = refl
orderly_keeps c (claim agent r) h = refl
orderly_keeps c (requeue r agent) h = absurd h
orderly_keeps c (mark_running r) h = refl
orderly_keeps c (respec r spec) h = refl
orderly_keeps c (finish r expected status e) h = refl
orderly_keeps c (delete r) h = refl

-- A run that is cached is not created again.
orderly_new :
    {tpl : Templates} {t u : Tables} (c : ClaimedByCache) (step : Step tpl t u) (r : Text)
    → IsOrderly c step
    → creates step ≡ some r
    → find_entry r c.order ≡ none
orderly_new c (create k spec params fresh) r h e = let same : k ≡ r = some-inj e in rw (← same) h
orderly_new c (queue k spec params) r h e = cc
orderly_new c (claim agent k) r h e = cc
orderly_new c (requeue k agent) r h e = cc
orderly_new c (mark_running k) r h e = cc
orderly_new c (respec k spec) r h e = cc
orderly_new c (finish k expected status s) r h e = cc
orderly_new c (delete k) r h e = cc

Origin-claimed :
    {back : Bool} {made : Option Text} (t : Tables) (c : ClaimedByCache) (r : Text) (new : RunRow)
    (e : ClaimedByEntry)
    → Origin back made t r new
    → back ≡ false
    → (made ≡ some r → find_entry r c.order ≡ none)
    → IsUnclaimed t
    → IsCoherent t c
    → find_entry r c.order ≡ some e
    → new.claimed_by ≡ some e.owner
Origin-claimed t c r new e (moved old there m) kept_back fresh free v found =
    Move-claimed old new e.owner (subst (λ b. Move b old new) kept_back m) (free r old there)
      (v.claimed r e old found there)
Origin-claimed t c r new e (born made gone s o) kept_back fresh free v found =
    let no_way : some e ≡ none = sym found ∙ fresh made in cc

Step-IsCoherent :
    {tpl : Templates} {t u : Tables} (c : ClaimedByCache) (step : Step tpl t u)
    → IsOrderly c step
    → IsUnclaimed t
    → IsCoherent t c
    → IsCoherent u c
Step-IsCoherent {t} c step h free v = record {
  named = v.named;
  claimed = λ r e row found there.
      Origin-claimed t c r row e (Step-Origin r row step there) (orderly_keeps c step h)
        (orderly_new c step r h) free v found;
}

Turns-IsCoherent :
    {tpl : Templates} {s u : System}
    → Turns tpl s u
    → IsUnclaimed s.tables
    → IsCoherent s.tables s.cache
    → IsUnclaimed u.tables × IsCoherent u.tables u.cache
Turns-IsCoherent started free v = (free, v)
Turns-IsCoherent (followed {u} path (stored step h)) free v =
    let (free', v') = Turns-IsCoherent path free v in
    (Step-IsUnclaimed step free', Step-IsCoherent u.cache step h free' v')
Turns-IsCoherent (followed {u} path (guarded agent run rt)) free v =
    let (free', v') = Turns-IsCoherent path free v in
    (free', agent_run_guard-IsCoherent agent run rt u.tables u.cache v')

new-IsCoherent : (t : Tables) (cap : ℕ) → IsCoherent t (new_claimed_by_cache cap)
unfolding new_claimed_by_cache find_entry first
new-IsCoherent t cap = record { named = λ r e h. cc; claimed = λ r e row h er. cc }

-- From an empty cache, through guarded writes and through any statements of the store that take no
-- claim back and create no run under a cached id, the guard answers for a run that the store has
-- exactly what the row of the run says: the cache shows in no verdict. At the start no run that is
-- pending or queued is claimed.
pub agent_run_guard-refines :
    (tpl : Templates) (t : Tables) (cap : ℕ) {s : System}
    → IsUnclaimed t
    → Turns tpl (record { tables = t; cache = new_claimed_by_cache cap }) s
    → (agent run : Text) (reject_terminal : Bool) (row : RunRow) → s.tables.runs run ≡ some row
    → (agent_run_guard agent run reject_terminal s.tables s.cache).1
      ≡ row_verdict agent reject_terminal row
agent_run_guard-refines tpl t cap {s} free path agent run rt row there =
    agent_run_guard-verdict agent run rt s.tables s.cache row
      (Turns-IsCoherent path free (new-IsCoherent t cap)).1 there
