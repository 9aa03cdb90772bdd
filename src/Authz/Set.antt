-- ===== src/Authz/Set.antt =====
-- internal/authz/set.go: a set of permissions as a bit set in a uint32.
pub mod Laws
use unified_cd.Prelude.{
  ℕ, zero, suc, ◌+◌, ◌-◌, ◌%◌, ◌^◌, bit_and, bit_or, Bool, true, false, not, List, [], ◌∷◌, Option,
  none, some, ◌==◌, if◌then◌else◌, Text, text_lt, str, text_eq,
}
use unified_cd.Prelude.Sort.{sort_by}
use unified_cd.Authz.Catalogue.{
  Permission, bit_of, catalogue, folder_scopable_count, job_read, vars_read, webhook_read,
  app_source_read, agent_read, job_configure, job_delete, run_trigger, run_replay, run_cancel,
  run_delete, run_approve, schedule_configure, secret_list, token_create,
}

-- Bit `i` is the catalogue's entry `i`.
abbrev pub Set : Type 0
Set = ℕ

abbrev pub u32 : ℕ → ℕ
u32 n = n % 4294967296

-- `1 << i`, as a uint32.
abbrev pub one_shl : ℕ → ℕ
one_shl i = u32 (2 ^ i)

-- `Set(1)<<len(catalogue) - 1`, for the 26 entries.
unfoldable pub all_set : Set
all_set = one_shl 26 - 1

unfoldable pub has_bit : Set → ℕ → Bool
has_bit s i = not (bit_and s (one_shl i) == 0)

unfoldable pub has : Set → Permission → Bool
unfolding bit_of has_bit
has s p = elim (bit_of p) [ none ↦ false | some i ↦ has_bit s i ]

unfoldable pub with_one : Set → Permission → Set
unfolding bit_of
with_one s p = elim (bit_of p) [ none ↦ s | some i ↦ bit_or s (one_shl i) ]

-- `With`: the loop over the permissions.
unfoldable pub with_all : Set → List Permission → Set
unfolding with_one
with_all s [] = s
with_all s (p ∷ ps) = with_all (with_one s p) ps

unfoldable pub union : Set → Set → Set
union s o = bit_or s o

unfoldable pub intersect : Set → Set → Set
intersect s o = bit_and s o

unfoldable pub folder_part : Set → Set
folder_part s = bit_and s (one_shl folder_scopable_count - 1)

unfoldable pub is_empty_set : Set → Bool
is_empty_set s = s == 0

-- The loop of `Names`, from catalogue position `i` on.
unfoldable pub names_from : Set → ℕ → List Permission → List Text
unfolding has_bit
names_from s i [] = []
names_from s i (p ∷ ps) =
    let rest = names_from s (i + 1) ps in if has_bit s i then p ∷ rest else rest

-- sort.Strings
unfoldable pub sort_strings : List Text → List Text
unfolding sort_by text_lt
sort_strings = sort_by (λ a b. not (text_lt b a))

unfoldable pub names : Set → List Text
unfolding names_from sort_strings catalogue
names s = sort_strings (names_from s 0 catalogue)

-- `Bundle` of catalogue.go: the permissions of a built-in role.
abbrev pub viewer_set : Set
viewer_set = with_all 0 (job_read ∷ vars_read ∷ webhook_read ∷ app_source_read ∷ agent_read ∷ [])

abbrev pub developer_set : Set
developer_set = with_all viewer_set (
    job_configure ∷ job_delete ∷ run_trigger ∷ run_replay ∷ run_cancel ∷ run_delete ∷ run_approve
    ∷ schedule_configure ∷ secret_list ∷ token_create ∷ [])

unfoldable pub bundle : Text → Option Set
unfolding text_eq with_all all_set
bundle role =
    if text_eq role (str "viewer")
    then some viewer_set
    else if text_eq role (str "developer")
    then some developer_set
    else if text_eq role (str "admin")
    then some all_set
    else none
