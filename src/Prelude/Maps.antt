-- ===== src/Prelude/Maps.antt =====
-- Go maps as association lists. A map holds one entry for a key, the first; `for range` over a
-- map has no order, so no definition here depends on the order of the entries.
use mathlib.Core.Path.{◌≡◌, refl, ap}
use mathlib.Core.Logic.{inl, inr}
use mathlib.Core.Bool.{Bool}
use mathlib.Core.Option.{Option, none, some}
use mathlib.Core.List.{List, [], ◌∷◌}
use native.Mathlib.Omega.{arith}
use unified_cd.Prelude.Tests.{if◌then◌else◌, Bool-cases}
use unified_cd.Prelude.Strings.{Text, text_eq, text_eq_iff}

abbrev pub Table {ℓ} : Type ℓ → Type ℓ
Table V = List (Text × V)

module _ {ℓ} {V : Type ℓ} where
  unfoldable pub lookup : Text → Table V → Option V
  unfolding text_eq
  lookup k [] = none
  lookup k ((j, v) ∷ m) = if text_eq j k then some v else lookup k m

  unfoldable pub insert : Text → V → Table V → Table V
  unfolding text_eq
  insert k v [] = (k, v) ∷ []
  insert k v ((j, w) ∷ m) = if text_eq j k then (j, v) ∷ m else (j, w) ∷ insert k v m

  pub lookup-insert :
      (k j : Text) (v : V) (m : Table V)
      → lookup j (insert k v m) ≡ (if text_eq k j then some v else lookup j m)
  unfolding lookup insert
  lookup-insert k j v [] = refl
  lookup-insert k j v ((i, w) ∷ m) =
      ground (arith, text_eq_iff i k, text_eq_iff i j, text_eq_iff k j, lookup-insert k j v m)

-- The entries whose key passes a test.
module _ {ℓ} {V : Type ℓ} where
  unfoldable pub keep_keys : (Text → Bool) → Table V → Table V
  keep_keys p [] = []
  keep_keys p ((j, v) ∷ m) = let rest = keep_keys p m in if p j then (j, v) ∷ rest else rest

  pub lookup-keep_keys :
      (p : Text → Bool) (k : Text) (m : Table V)
      → lookup k (keep_keys p m) ≡ (if p k then lookup k m else none)
  unfolding lookup keep_keys
  lookup-keep_keys p k [] = ground arith
  lookup-keep_keys p k ((j, v) ∷ m) = elim (Bool-cases (text_eq j k)) [
    | inl here ↦
        let same : j ≡ k = (text_eq_iff j k).0 here in
        let both : p j ≡ p k = ap p same in ground (arith, lookup-keep_keys p k m)
    | inr other ↦ ground (arith, lookup-keep_keys p k m)
  ]
