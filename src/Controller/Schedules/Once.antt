-- ===== src/Controller/Schedules/Once.antt =====
-- A schedule fires once for a time of its cron expression.
use unified_cd.Prelude.{
  ◌≡◌, refl, sym, ap, subst, ◌⊎◌, inl, inr, ℕ, ◌<◌, Bool, true, false, ◌&&◌, List, [], ◌∷◌, Option,
  none, some, ltb, lt→ltb, arith, Bool-cases, all, All, Text,
}
use unified_cd.Prelude.Window.{ordered, all_weaken}
use unified_cd.Controller.Schedules.{
  Schedule, Check, window_start, base_of, update_last_fired_at, after_fire, check_next, fire,
  check_schedule,
}

-- A cron expression's next time is later than the time it is asked for.
unfoldable pub IsLater : (Text → ℕ → Option ℕ) → Type 0
IsLater next_cron = (expr : Text) (base next : ℕ) → next_cron expr base ≡ some next → base < next

abbrev pub is_after : Option ℕ → ℕ → Bool
is_after none t = true
is_after (some last) t = ltb last t

-- What one check of a schedule does.
pub data Checked (sc : Schedule) (r : Schedule × Option ℕ) : Type 0 where
  idle : r ≡ (sc, none) → Checked sc r
  moved :
      (next : ℕ)
      → is_after sc.last_fired_at next ≡ true
      → r.0 ≡ record sc { last_fired_at = some next }
      → (r.1 ≡ none) ⊎ (r.1 ≡ some next)
      → Checked sc r

abbrev pub add_fired : Option ℕ → List ℕ → List ℕ
add_fired none ts = ts
add_fired (some t) ts = t ∷ ts

after_fire-Checked :
    (c : Check) (sc : Schedule) (next : ℕ) (ok : Bool)
    → c.updated ≡ true
    → is_after sc.last_fired_at next ≡ true
    → Checked sc (after_fire c sc next ok)
after_fire-Checked c sc next false u a = idle refl
after_fire-Checked c sc next true u a =
    moved next a (ap (λ b. update_last_fired_at b sc next) u) (inr refl)

check_next-Checked :
    (c : Check) (sc : Schedule) (next : Option ℕ)
    → c.updated ≡ true
    → ((t : ℕ) → next ≡ some t → is_after sc.last_fired_at t ≡ true)
    → Checked sc (check_next c sc next)
check_next-Checked c sc none u a = idle refl
check_next-Checked c sc (some next) u a = elim (Bool-cases (ltb c.now next)) [
  | inl early ↦ rw early (idle refl)
  | inr due ↦ elim (Bool-cases (ltb next (window_start c.now))) [
    | inl missed ↦
        rw (due, missed)
          (moved next (a next refl) (ap (λ b. update_last_fired_at b sc next) u) (inl refl))
    | inr recent ↦ rw (due, recent) (after_fire-Checked c sc next (fire c.calls sc) u (a next refl))
  ]
]

abbrev InOrder : Option ℕ → List ℕ → Type 0
InOrder last ts = (all (is_after last) ts ≡ true) × (ordered ltb ts ≡ true)

is_after_trans :
    (last : Option ℕ) (n t : ℕ) → is_after last n ≡ true → ltb n t ≡ true → is_after last t ≡ true
is_after_trans none n t h k = refl
is_after_trans (some l) n t h k = ground arith

InOrder-later :
    (last : Option ℕ) (next : ℕ) (ts : List ℕ)
    → is_after last next ≡ true
    → InOrder (some next) ts
    → InOrder last ts
InOrder-later last next ts a (h, o) =
    (all_weaken (ltb next) (is_after last) ts h (λ t k. is_after_trans last next t a k), o)

InOrder-cons :
    (last : Option ℕ) (next : ℕ) (ts : List ℕ)
    → is_after last next ≡ true
    → InOrder (some next) ts
    → InOrder last (next ∷ ts)
unfolding all ordered
InOrder-cons last next ts a (h, o) = (both a (InOrder-later last next ts a (h, o)).0, both h o)
  where
    both : {b c : Bool} → b ≡ true → c ≡ true → (b && c) ≡ true
    both h k = ground arith

InOrder-add :
    (sc : Schedule) (r : Schedule × Option ℕ) (ts : List ℕ)
    → Checked sc r
    → InOrder r.0.last_fired_at ts
    → InOrder sc.last_fired_at (add_fired r.1 ts)
InOrder-add sc r ts (idle e) h =
    subst (λ q. InOrder q.0.last_fired_at ts → InOrder sc.last_fired_at (add_fired q.1 ts)) (sym e)
      (λ k. k) h
InOrder-add sc r ts (moved next a e (inl f)) h =
    subst (λ o. InOrder sc.last_fired_at (add_fired o ts)) (sym f)
      (InOrder-later sc.last_fired_at next ts a
        (subst (λ o. InOrder o ts) (ap (λ q. q.last_fired_at) e) h))
InOrder-add sc r ts (moved next a e (inr f)) h =
    subst (λ o. InOrder sc.last_fired_at (add_fired o ts)) (sym f)
      (InOrder-cons sc.last_fired_at next ts a
        (subst (λ o. InOrder o ts) (ap (λ q. q.last_fired_at) e) h))

module _ (next_cron : Text → ℕ → Option ℕ) where
  base-is_after :
      (now : ℕ) (last : Option ℕ) (t : ℕ) → base_of now last < t → is_after last t ≡ true
  base-is_after now none t h = refl
  base-is_after now (some last) t h = lt→ltb last t h

  check_schedule-Checked :
      (c : Check) (sc : Schedule)
      → IsLater next_cron
      → c.updated ≡ true
      → Checked sc (check_schedule next_cron c sc)
  unfolding check_schedule IsLater
  check_schedule-Checked c sc later u =
      check_next-Checked c sc (next_cron sc.cron (base_of c.now sc.last_fired_at)) u (λ t e.
        base-is_after c.now sc.last_fired_at t (later sc.cron (base_of c.now sc.last_fired_at) t e))

  -- The times for which the passes create runs of one schedule.
  unfoldable pub fired_times : List Check → Schedule → List ℕ
  unfolding check_schedule
  fired_times [] sc = []
  fired_times (c ∷ cs) sc =
      let r = check_schedule next_cron c sc in let rest = fired_times cs r.0 in add_fired r.1 rest

  fired_times-InOrder :
      (cs : List Check) (sc : Schedule)
      → IsLater next_cron
      → All (λ c. c.updated ≡ true) cs
      → InOrder sc.last_fired_at (fired_times cs sc)
  unfolding fired_times all ordered
  fired_times-InOrder [] sc later u = (refl, refl)
  fired_times-InOrder (c ∷ cs) sc later (u, us) =
      let r = check_schedule next_cron c sc in
      InOrder-add sc r (fired_times cs r.0) (check_schedule-Checked c sc later u)
        (fired_times-InOrder cs r.0 later us)

  -- When each next time of a cron expression is later than the time it is asked for, and the
  -- updates of last_fired_at succeed, the times for which the passes over a schedule create runs
  -- increase, whatever the clock, the jobs and the failures of a fire: no time is fired twice.
  pub fired_times-increase :
      (cs : List Check) (sc : Schedule)
      → IsLater next_cron
      → All (λ c. c.updated ≡ true) cs
      → ordered ltb (fired_times cs sc) ≡ true
  fired_times-increase cs sc later u = (fired_times-InOrder cs sc later u).1
