-- ===== src/Store/Locks/Held.antt =====
-- Who holds what after an acquisition: the run that asks gets locks, nobody loses one.
use unified_cd.Prelude.{
  ◌≡◌, refl, ℕ, zero, suc, ◌-◌, Bool, true, false, List, [], ◌∷◌, Option, none, some, arith,
  if◌then◌else◌, Option-cases, inl, inr, any, any-append, length, Text, text_eq, text_eq_iff,
  text_eq_refl, ◌∙◌, contains, contains-head, contains-tail,
}
use unified_cd.Store.Tables.{Locks, Semaphore, update}
use unified_cd.Store.Expand.{◌>>=◌}
use unified_cd.Store.Locks.{
  insert_free, insert_holder, free_slots, upsert_slots, before_taken, take_slot, acquire_semaphore,
  acquire_candidate,
}

abbrev pub is_holder : Text → Option Text → Bool
is_holder h none = false
is_holder h (some holder) = text_eq holder h

unfoldable pub holds_mutex : Text → Locks → Text → Bool
holds_mutex h l m = is_holder h (l.mutex_holders m)

unfoldable pub holds_slot : Text → Locks → Text → Bool
unfolding any
holds_slot h l p = any (is_holder h) (l.slots p)

-- From `l` to `l'` the run `r` may get locks; every other run has the locks that it had.
pub record Gives (r : Text) (l l' : Locks) : Type 0 where
  pub mutex_kept : (h m : Text) → holds_mutex h l m ≡ true → holds_mutex h l' m ≡ true
  pub mutex_old :
      (h m : Text) → text_eq r h ≡ false → holds_mutex h l' m ≡ true → holds_mutex h l m ≡ true
  pub slot_kept : (h p : Text) → holds_slot h l p ≡ true → holds_slot h l' p ≡ true
  pub slot_old :
      (h p : Text) → text_eq r h ≡ false → holds_slot h l' p ≡ true → holds_slot h l p ≡ true

pub Gives-refl : (r : Text) (l : Locks) → Gives r l l
Gives-refl r l = record {
  mutex_kept = λ h m e. e;
  mutex_old = λ h m n e. e;
  slot_kept = λ h p e. e;
  slot_old = λ h p n e. e;
}

pub Gives-trans : {r : Text} {l k j : Locks} → Gives r l k → Gives r k j → Gives r l j
Gives-trans g f = record {
  mutex_kept = λ h m e. f.mutex_kept h m (g.mutex_kept h m e);
  mutex_old = λ h m n e. g.mutex_old h m n (f.mutex_old h m n e);
  slot_kept = λ h p e. f.slot_kept h p (g.slot_kept h p e);
  slot_old = λ h p n e. g.slot_old h p n (f.slot_old h p n e);
}

insert_free-inv :
    (m r : Text) (l : Locks) (o : Option Text) {l' : Locks}
    → insert_free m r l o ≡ some l'
    → (o ≡ none) × (l' ≡ record l { mutex_holders = update l.mutex_holders m (some r) })
insert_free-inv m r l none e = (refl, cc)
insert_free-inv m r l (some h) e = cc

pub insert_holder-inv :
    (m r : Text) (l : Locks) {l' : Locks}
    → insert_holder m r l ≡ some l'
    → (l.mutex_holders m ≡ none)
      × (l' ≡ record l { mutex_holders = update l.mutex_holders m (some r) })
unfolding insert_holder
insert_holder-inv m r l e = insert_free-inv m r l (l.mutex_holders m) e

inserted-Gives :
    (m r : Text) (l : Locks)
    → l.mutex_holders m ≡ none
    → Gives r l (record l { mutex_holders = update l.mutex_holders m (some r) })
unfolding holds_mutex holds_slot
inserted-Gives m r l free = record {
  mutex_kept = λ h n e. ground (arith, text_eq_iff m n);
  mutex_old = λ h n ne e. ground (arith, text_eq_iff m n);
  slot_kept = λ h p e. e;
  slot_old = λ h p n e. e;
}

pub insert_holder-Gives :
    (m r : Text) (l : Locks) {l' : Locks} → insert_holder m r l ≡ some l' → Gives r l l'
insert_holder-Gives m r l e =
    let inv = insert_holder-inv m r l e in rw inv.1 (inserted-Gives m r l inv.0)

any-free_slots : (h : Text) (n : ℕ) → any (is_holder h) (free_slots n) ≡ false
unfolding any free_slots
any-free_slots h zero = refl
any-free_slots h (suc n) = any-free_slots h n

any-upsert_slots :
    (h : Text) (capacity : ℕ) (slots : List (Option Text))
    → any (is_holder h) (upsert_slots capacity slots) ≡ any (is_holder h) slots
unfolding upsert_slots
any-upsert_slots h capacity slots = ground (
  arith,
  any-append (is_holder h) slots (free_slots (capacity - length slots)),
  any-free_slots h (capacity - length slots),
)

before_taken-inv :
    (slot : Option Text) (o : Option (List (Option Text))) {out : List (Option Text)}
    → before_taken slot o ≡ some out
    → (rest : List (Option Text)) × (o ≡ some rest) × (out ≡ slot ∷ rest)
before_taken-inv slot none e = cc
before_taken-inv slot (some rest) e = (rest, refl, cc)

-- The holders after a slot was taken: those before, and the run.
pub any-take_slot :
    (h r : Text) (slots : List (Option Text)) {out : List (Option Text)}
    → take_slot r slots ≡ some out
    → any (is_holder h) out ≡ (if text_eq r h then true else any (is_holder h) slots)
unfolding any take_slot
any-take_slot h r [] e = cc
any-take_slot h r (none ∷ slots) {out} e =
    let shape : some r ∷ slots ≡ out = cc in rw (← shape) (ground arith)
any-take_slot h r (some k ∷ slots) e =
    let (rest, taken, shape) = before_taken-inv (some k) (take_slot r slots) e in
    rw shape (ground (arith, any-take_slot h r slots taken))

pub some-inj {ℓ} : {A : Type ℓ} {x y : A} → some x ≡ some y → x ≡ y
some-inj e = cc

-- What a chain of steps that may fail did at its first step.
pub >>=-some {ℓ κ} :
    {A : Type ℓ} {B : Type κ} (first : Option A) (next : A → Option B) {b : B}
    → (first >>= next) ≡ some b
    → (a : A) × (first ≡ some a) × (next a ≡ some b)
>>=-some none next e = cc
>>=-some (some a) next e = (a, refl, e)

filled-Gives :
    (r p : Text) (l : Locks) (out : List (Option Text))
    → ((h : Text)
        → any (is_holder h) out ≡ (if text_eq r h then true else any (is_holder h) (l.slots p)))
    → Gives r l (record l { slots = update l.slots p out })
unfolding holds_mutex holds_slot
filled-Gives r p l out f = record {
  mutex_kept = λ h m e. e;
  mutex_old = λ h m n e. e;
  slot_kept = λ h q e. ground (arith, text_eq_iff p q, f h);
  slot_old = λ h q n e. ground (arith, text_eq_iff p q, f h);
}

-- The holders in the pool once a slot of it was taken.
any-taken :
    (r : Text) (nl : Semaphore) (l : Locks) (h : Text) {out : List (Option Text)}
    → take_slot r (upsert_slots nl.capacity (l.slots nl.pool)) ≡ some out
    → any (is_holder h) out ≡ (if text_eq r h then true else any (is_holder h) (l.slots nl.pool))
any-taken r nl l h taken =
    rw (any-take_slot h r (upsert_slots nl.capacity (l.slots nl.pool)) taken)
      (rw (any-upsert_slots h nl.capacity (l.slots nl.pool)))

holds_slot-filled :
    (r p : Text) (l : Locks) (out : List (Option Text))
    → holds_slot r (record l { slots = update l.slots p out }) p ≡ any (is_holder r) out
unfolding holds_slot
holds_slot-filled r p l out = rw (text_eq_refl p)

-- A semaphore gives the run a slot of its pool.
pub acquire_semaphore-inv :
    (r : Text) (nl : Semaphore) (l : Locks) {l' : Locks}
    → acquire_semaphore r nl l ≡ some l'
    → Gives r l l' × (holds_slot r l' nl.pool ≡ true)
unfolding acquire_semaphore
acquire_semaphore-inv r nl l {l'} e =
    let (out, taken, shape) =
      >>=-some (take_slot r (upsert_slots nl.capacity (l.slots nl.pool))) _ e in
    let same : record l { slots = update l.slots nl.pool out } ≡ l' = some-inj shape in
    rw (← same) (
      filled-Gives r nl.pool l out (λ h. any-taken r nl l h taken),
      holds_slot-filled r nl.pool l out ∙ any-taken r nl l r taken ∙ rw (text_eq_refl r),
    )

holds_mutex-inserted :
    (m r : Text) (l : Locks)
    → holds_mutex r (record l { mutex_holders = update l.mutex_holders m (some r) }) m ≡ true
unfolding holds_mutex
holds_mutex-inserted m r l = rw (text_eq_refl m, text_eq_refl r)

pub insert_holder-holds :
    (m r : Text) (l : Locks) {l' : Locks}
    → insert_holder m r l ≡ some l'
    → holds_mutex r l' m ≡ true
insert_holder-holds m r l e = rw (insert_holder-inv m r l e).1 (holds_mutex-inserted m r l)

-- An or-lock gives the run one of its candidates.
pub acquire_candidate-inv :
    (r : Text) (cs : List Text) (l : Locks) {out : Locks × Text}
    → acquire_candidate r cs l ≡ some out
    → Gives r l out.0 × (contains cs out.1 ≡ true) × (holds_mutex r out.0 out.1 ≡ true)
unfolding acquire_candidate
acquire_candidate-inv r [] l e = cc
acquire_candidate-inv r (c ∷ cs) l {out} e = elim (Option-cases (insert_holder c r l)) [
  | inl taken ↦
      let (gives, listed, mine) = acquire_candidate-inv r cs l {out = out} (rw taken at e) in
      (gives, contains-tail c out.1 cs listed, mine)
  | inr (l', free) ↦
      let got : some (l', c) ≡ some out = rw free at e in
      rw (← some-inj got)
        (insert_holder-Gives c r l free, contains-head c cs, insert_holder-holds c r l free)
]
