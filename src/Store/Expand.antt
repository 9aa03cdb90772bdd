-- ===== src/Store/Expand.antt =====
-- internal/dsl/template.go and foreach.go: the templates in the locks and volumes of a job,
-- expanded with the parameters of a run. The template engine (text/template) and the JSON decoder
-- are parameters.
use unified_cd.Prelude.{
  List, [], ◌∷◌, Option, none, some, if◌then◌else◌, is_empty, any, Text, str, has_prefix, trim_byte,
  map, Table, lookup,
}
use unified_cd.Prelude.Spaces.{trim_space, fields, trim_last}
use unified_cd.Authz.Folder.{split}
use unified_cd.Store.Tables.{ForeachSource, Semaphore, OrLock, Concurrency}

infixl 5 ◌>>=◌
abbrev pub ◌>>=◌ {ℓ κ} : {A : Type ℓ} {B : Type κ} → Option A → (A → Option B) → Option B
none >>= f = none
some a >>= f = f a

-- The work on each element in turn; the first that fails ends it.
unfoldable pub traverse {ℓ κ} :
    {A : Type ℓ} {B : Type κ} → (A → Option B) → List A → Option (List B)
traverse f [] = some []
traverse f (x ∷ xs) = do y ← f x; ys ← traverse f xs; some (y ∷ ys)

pub record Templates : Type 0 where
  pub expand : Text → Table Text → Option Text
  pub decode_list : Text → Option (List Text)

abbrev pub one_part : Text → List Text → List Text
one_part result (only ∷ []) = split b',' result
one_part result parts = parts

-- What a template for a list came out as: items between spaces, or one text split at its commas.
unfoldable pub split_items : Text → List Text
unfolding fields trim_space trim_byte trim_last
split_items result =
    let inner = trim_last b']' (trim_byte b'[' (trim_space result)) in
    if is_empty (trim_space result) then [] else map trim_space (one_part inner (fields inner))

module _ (tpl : Templates) where
  open tpl use {expand, decode_list}

  abbrev pub drop_one : Text → Text
  drop_one [] = []
  drop_one (c ∷ s) = s

  -- A JSON list, or else the text split at its commas.
  abbrev pub list_or_split : Text → Option (List Text) → List Text
  list_or_split raw none = split b',' raw
  list_or_split raw (some items) = items

  abbrev pub decoded : Option Text → Option (List Text)
  decoded none = none
  decoded (some raw) = some (list_or_split raw (decode_list raw))

  unfoldable pub eval_foreach_source : ForeachSource → Table Text → Option (List Text)
  eval_foreach_source src params =
      if is_empty src.literal
      then if has_prefix src.expr (str "$")
        then decoded (lookup (drop_one src.expr) params)
        else (do result ← expand src.expr params; some (split_items result))
      else some src.literal

  unfoldable pub expand_semaphore : Table Text → Semaphore → Option Semaphore
  expand_semaphore params nl = do
    pool ← expand nl.pool params
    some (record { pool = pool; capacity = nl.capacity })

  unfoldable pub expand_or_lock : Table Text → OrLock → Option OrLock
  expand_or_lock params ol = do
    candidates ← eval_foreach_source ol.source params
    some (record { name = ol.name; source = record { literal = candidates; expr = [] } })

  unfoldable pub expand_concurrency : Option Concurrency → Table Text → Option (Option Concurrency)
  expand_concurrency none params = some none
  expand_concurrency (some c) params = do
    mutex ← if is_empty c.mutex then some [] else expand c.mutex params
    semaphores ← traverse (expand_semaphore params) c.semaphores
    or_locks ← traverse (expand_or_lock params) c.or_locks
    some (some (record { mutex = mutex; semaphores = semaphores; or_locks = or_locks }))

  abbrev pub non_empty : List Text → Option (List Text)
  non_empty names = if any is_empty names then none else some names

  -- dsl.ExpandVolumes, then the check that no name came out empty.
  unfoldable pub expand_volumes_non_empty :
      List (List Text) → Table Text → Option (List (List Text))
  expand_volumes_non_empty vs params = do
    out ← traverse (traverse (λ n. expand n params)) vs
    traverse non_empty out
