-- ===== src/Prelude/Recency.antt =====
-- Bounded lists in the order of use: the back is evicted while the list is too long.
use Prim.Native.Nat.{ℕ, zero, suc, ◌≤◌}
use mathlib.Core.Path.{◌≡◌, refl}
use mathlib.Core.Logic.{inl, inr}
use mathlib.Core.Bool.{Bool}
use mathlib.Core.Option.{Option, none, some}
use mathlib.Core.List.{List, [], ◌∷◌}
use native.Mathlib.Omega.{arith}
use unified_cd.Prelude.Tests.{ltb, if◌then◌else◌, Bool-cases}
use unified_cd.Prelude.Lists.{length}

module _ {ℓ} {A : Type ℓ} where
  -- The list without its back.
  unfoldable pub drop_back : List A → List A
  drop_back [] = []
  drop_back (e ∷ []) = []
  drop_back (e ∷ f ∷ es) = e ∷ drop_back (f ∷ es)

  -- `for len(m) > cap`, at most `fuel` times.
  unfoldable pub evict_back : ℕ → ℕ → List A → List A
  evict_back zero cap es = es
  evict_back (suc fuel) cap es =
      let rest = evict_back fuel cap (drop_back es) in if ltb cap (length es) then rest else es

  -- The first member that passes a test.
  unfoldable pub first : (A → Bool) → List A → Option A
  first p [] = none
  first p (e ∷ es) = if p e then some e else first p es

module _ {ℓ} {A : Type ℓ} where
  pub length-drop_back : (e : A) (es : List A) → length (drop_back (e ∷ es)) ≡ length es
  unfolding drop_back
  length-drop_back e [] = refl
  length-drop_back e (f ∷ es) = omega (arith, length-drop_back f es)

  -- As many rounds as the list is long are enough.
  pub length-evict_back :
      (fuel cap : ℕ) (es : List A) → length es ≤ fuel → length (evict_back fuel cap es) ≤ cap
  unfolding evict_back
  length-evict_back zero cap [] h = omega arith
  length-evict_back zero cap (e ∷ es) h = absurd (omega arith)
  length-evict_back (suc fuel) cap [] h = ground arith
  length-evict_back (suc fuel) cap (e ∷ es) h =
      ground (arith, length-drop_back e es, length-evict_back fuel cap (drop_back (e ∷ es)))

  first-drop_back :
      (p : A → Bool) (es : List A) (x : A) → first p (drop_back es) ≡ some x → first p es ≡ some x
  unfolding first drop_back
  first-drop_back p [] x h = h
  first-drop_back p (e ∷ []) x h = cc
  first-drop_back p (e ∷ f ∷ es) x h = elim (Bool-cases (p e)) [
    | inl here ↦ rw here (rw here at h)
    | inr other ↦ rw other (first-drop_back p (f ∷ es) x (rw other at h))
  ]

  -- What is found after an eviction was found before.
  pub first-evict_back :
      (p : A → Bool) (fuel cap : ℕ) (es : List A) (x : A)
      → first p (evict_back fuel cap es) ≡ some x
      → first p es ≡ some x
  unfolding evict_back
  first-evict_back p zero cap es x h = h
  first-evict_back p (suc fuel) cap es x h = elim (Bool-cases (ltb cap (length es))) [
    | inl long ↦
        first-drop_back p es x (first-evict_back p fuel cap (drop_back es) x (rw long at h))
    | inr fits ↦ rw fits at h
  ]
