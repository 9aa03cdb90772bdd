-- ===== src/Controller/Params/Webhook.antt =====
-- What the webhook check and `resolveParams` guarantee together.
use unified_cd.Prelude.{
  Bool, false, not, ◌&&◌, ◌||◌, Option, none, some, is_empty, contains, Text, Table, lookup,
}
use unified_cd.Controller.Params.{Input, is_set}
use unified_cd.Controller.Params.Resolved.{matches_with, accepts}
use unified_cd.Controller.Params.Empty.{allows_empty}

-- The author of the job vouches for the value: it is free-form on purpose, or held to a pattern or to
-- choices. Under choices it may still be empty, where the input allows no value.
abbrev pub is_vouched : (Text → Option (Text → Bool)) → Option Input → Option Text → Bool
is_vouched compile none o = false
is_vouched compile (some i) none = false
is_vouched compile (some i) (some v) =
    i.unvalidated
    || ((not (is_empty i.pattern) || not (is_empty i.choices))
        && ((is_empty i.pattern || matches_with (compile i.pattern) v)
            && (is_empty i.choices
                || (contains i.choices v || (is_empty v && allows_empty i.required i.default)))))

-- What the loops of `resolveParams` leave true of an input under the name `n`.
abbrev is_checked : (Text → Option (Text → Bool)) → Table Text → Input → Text → Bool
is_checked compile r i n =
    accepts compile i (lookup n r) && (is_set r n || allows_empty i.required i.default)
