-- ===== src/Tests/Names.antt =====
-- Names of jobs and agents, and the bindings of ciphertexts.
use unified_cd.Prelude.{
  ◌≡◌, refl, ◌∷◌, ◌++◌, ◌<◌, ◌^◌, Bool, true, false, arith, map, List, [], length, Text, str,
}
use unified_cd.Authz.Folder.{slash, trim}
use unified_cd.Dsl.QualifiedName.{has_slash}
use unified_cd.Agent.Portable.{validate_portable, to_lower, validate_portable-folds}
use unified_cd.Secrets.Binding.{Binding, secret_binding, IsShort, canonical_inj}

name_without_slash : has_slash (trim slash (str "build/")) ≡ false
unfolding trim unified_cd.Prelude.any
name_without_slash = refl

qualified_has_slash : has_slash (str "team/build") ≡ true
unfolding unified_cd.Prelude.any
qualified_has_slash = refl

agent_is_portable : validate_portable (str "agent-1.local") ≡ true
unfolding validate_portable unified_cd.Agent.Portable.starts_alphanumeric
    unified_cd.Agent.Portable.is_ascii_alphanumeric unified_cd.Agent.Portable.ends_alphanumeric
    unified_cd.Prelude.all unified_cd.Agent.Portable.is_portable_byte
    unified_cd.Agent.Portable.is_windows_reserved_name unified_cd.Prelude.contains
    unified_cd.Agent.Portable.before_dot unified_cd.Agent.Portable.is_numbered_device
agent_is_portable = refl

device_is_refused : validate_portable (str "com1.local") ≡ false
unfolding validate_portable unified_cd.Agent.Portable.starts_alphanumeric
    unified_cd.Agent.Portable.is_ascii_alphanumeric unified_cd.Agent.Portable.ends_alphanumeric
    unified_cd.Prelude.all unified_cd.Agent.Portable.is_portable_byte
    unified_cd.Agent.Portable.is_windows_reserved_name unified_cd.Prelude.contains
    unified_cd.Agent.Portable.before_dot unified_cd.Agent.Portable.is_numbered_device
device_is_refused = refl

abbrev token : Binding
token = secret_binding (str "token")

token-IsShort : IsShort (token.kind ∷ token.fields)
unfolding secret_binding
token-IsShort = (omega arith, (omega arith, tt))

canonical_inj_example : token ≡ token
canonical_inj_example = canonical_inj token token token-IsShort token-IsShort refl
