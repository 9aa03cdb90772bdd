-- ===== src/Prelude/Strings.antt =====
-- Go strings: lists of bytes, compared byte by byte.
use Prim.Native.Nat.{ℕ}
use Prim.Native.Char.{code}
use Prim.Native.String.{String}
use mathlib.Core.Path.{◌≡◌, refl, sym}
use mathlib.Core.Logic.{◌↔◌}
use mathlib.Core.Bool.{Bool, true, false, ◌&&◌, ◌||◌}
use mathlib.Core.List.{List, [], ◌∷◌, ◌++◌}
use native.Mathlib.Omega.{arith}
use unified_cd.Prelude.Tests.{◌==◌, ltb, if◌then◌else◌, Bool-eq}
use unified_cd.Prelude.Lists.{any}

abbrev pub Text : Type 0
Text = List ℕ

-- The bytes of a literal (all literals of the program are ASCII).
abbrev pub str : String → Text
str String.[] = []
str (String.◌∷◌ c s) = code c ∷ str s

-- Go's `==` on strings.
unfoldable pub text_eq : Text → Text → Bool
text_eq [] [] = true
text_eq (a ∷ s) (b ∷ t) = a == b && text_eq s t
text_eq _ _ = false

text_eq_sound : (s t : Text) → text_eq s t ≡ true → s ≡ t
unfolding text_eq
text_eq_sound [] [] h = refl
text_eq_sound (a ∷ s) (b ∷ t) h = ground (arith, text_eq_sound s t)
text_eq_sound [] (b ∷ t) h = cc
text_eq_sound (a ∷ s) [] h = cc

pub text_eq_refl : (s : Text) → text_eq s s ≡ true
unfolding text_eq
text_eq_refl [] = refl
text_eq_refl (a ∷ s) = ground (arith, text_eq_refl s)

pub text_eq_iff : (s t : Text) → (text_eq s t ≡ true) ↔ (s ≡ t)
text_eq_iff s t = (text_eq_sound s t, λ e. ground (arith, text_eq_refl s))

-- Go's `<` on strings.
unfoldable pub text_lt : Text → Text → Bool
text_lt _ [] = false
text_lt [] (b ∷ t) = true
text_lt (a ∷ s) (b ∷ t) = if a == b then text_lt s t else ltb a b

-- strings.HasPrefix
unfoldable pub has_prefix : Text → Text → Bool
has_prefix s [] = true
has_prefix [] (b ∷ t) = false
has_prefix (a ∷ s) (b ∷ t) = a == b && has_prefix s t

pub has_prefix-append : (p s : Text) → has_prefix (p ++ s) p ≡ true
unfolding has_prefix
has_prefix-append [] s = refl
has_prefix-append (a ∷ p) s = ground (arith, has_prefix-append p s)

pub has_prefix-append_both : (p s t : Text) → has_prefix (p ++ s) (p ++ t) ≡ has_prefix s t
unfolding has_prefix
has_prefix-append_both [] s t = refl
has_prefix-append_both (a ∷ p) s t = ground (arith, has_prefix-append_both p s t)

-- strings.Contains, of text that is not empty.
unfoldable pub has_substring : Text → Text → Bool
unfolding has_prefix
has_substring [] t = false
has_substring (c ∷ s) t = has_prefix (c ∷ s) t || has_substring s t

-- strings.HasSuffix
unfoldable pub has_suffix : Text → Text → Bool
has_suffix [] suffix = text_eq [] suffix
has_suffix (c ∷ s) suffix = text_eq (c ∷ s) suffix || has_suffix s suffix

-- strings.TrimSuffix, of a suffix that is not empty.
unfoldable pub trim_suffix : Text → Text → Text
trim_suffix [] suffix = []
trim_suffix (c ∷ s) suffix = if text_eq (c ∷ s) suffix then [] else c ∷ trim_suffix s suffix

-- strings.TrimPrefix, of one byte.
unfoldable pub trim_byte : ℕ → Text → Text
trim_byte b [] = []
trim_byte b (c ∷ s) = if c == b then s else c ∷ s

-- Whether a list holds a string: `for _, x := range xs { if x == s { … } }`.
unfoldable pub contains : List Text → Text → Bool
unfolding any text_eq
contains xs s = any (λ x. text_eq x s) xs

pub text_eq_comm : (s t : Text) → text_eq s t ≡ text_eq t s
text_eq_comm s t =
    Bool-eq (text_eq s t) (text_eq t s) (λ h. (text_eq_iff t s).1 (sym ((text_eq_iff s t).0 h)))
      (λ h. (text_eq_iff s t).1 (sym ((text_eq_iff t s).0 h)))

pub contains-head : (x : Text) (xs : List Text) → contains (x ∷ xs) x ≡ true
unfolding contains
contains-head x xs = rw (text_eq_refl x)

pub contains-tail :
    (x y : Text) (xs : List Text) → contains xs y ≡ true → contains (x ∷ xs) y ≡ true
unfolding contains
contains-tail x y xs h = ground arith

-- Two tests that agree on the members agree on the list.
pub any_congr_members :
    (p q : Text → Bool) (xs : List Text)
    → ((x : Text) → contains xs x ≡ true → p x ≡ q x)
    → any p xs ≡ any q xs
unfolding any
any_congr_members p q [] h = refl
any_congr_members p q (x ∷ xs) h =
    rw (h x (contains-head x xs), any_congr_members p q xs (λ y m. h y (contains-tail x y xs m)))

pub has_prefix-extend : (s p u : Text) → has_prefix s p ≡ true → has_prefix (s ++ u) p ≡ true
unfolding has_prefix
has_prefix-extend s [] u h = has_prefix-append [] (s ++ u)
has_prefix-extend [] (b ∷ p) u h = cc
has_prefix-extend (a ∷ s) (b ∷ p) u h = ground (arith, has_prefix-extend s p u)
