-- ===== src/Authz/Catalogue.antt =====
-- internal/authz/catalogue.go: the permission names and their bit positions.
use unified_cd.Prelude.{
  ℕ, zero, suc, inl, inr, Option-cases, ◌+◌, ◌<◌, ◌≡◌, refl, Bool, true, false, List, [], ◌∷◌,
  Option, none, some, arith, ltb, if◌then◌else◌, length, Text, str, text_eq, text_eq_iff, contains,
  any,
}
use mathlib.Core.Option

-- A permission is its dotted name.
abbrev pub Permission : Type 0
Permission = Text

abbrev pub job_read : Permission
job_read = str "job.read"

abbrev pub job_configure : Permission
job_configure = str "job.configure"

abbrev pub job_delete : Permission
job_delete = str "job.delete"

abbrev pub run_trigger : Permission
run_trigger = str "run.trigger"

abbrev pub run_replay : Permission
run_replay = str "run.replay"

abbrev pub run_cancel : Permission
run_cancel = str "run.cancel"

abbrev pub run_delete : Permission
run_delete = str "run.delete"

abbrev pub run_approve : Permission
run_approve = str "run.approve"

abbrev pub schedule_configure : Permission
schedule_configure = str "schedule.configure"

abbrev pub secret_list : Permission
secret_list = str "secret.list"

abbrev pub vars_read : Permission
vars_read = str "vars.read"

abbrev pub webhook_read : Permission
webhook_read = str "webhook.read"

abbrev pub app_source_read : Permission
app_source_read = str "appsource.read"

abbrev pub agent_read : Permission
agent_read = str "agent.read"

abbrev pub token_create : Permission
token_create = str "token.create"

abbrev pub agent_manage : Permission
agent_manage = str "agent.manage"

abbrev pub agent_enroll : Permission
agent_enroll = str "agent.enroll"

-- The number of leading entries that may be granted on a folder.
abbrev pub folder_scopable_count : ℕ
folder_scopable_count = 9

unfoldable pub catalogue : List Permission
catalogue =
    job_read
    ∷ job_configure
    ∷ job_delete
    ∷ run_trigger
    ∷ run_replay
    ∷ run_cancel
    ∷ run_delete
    ∷ run_approve
    ∷ schedule_configure
    ∷ secret_list
    ∷ str "secret.write"
    ∷ str "gitcredential.read"
    ∷ str "gitcredential.write"
    ∷ vars_read
    ∷ str "vars.write"
    ∷ webhook_read
    ∷ str "webhook.write"
    ∷ app_source_read
    ∷ str "appsource.write"
    ∷ agent_read
    ∷ agent_manage
    ∷ token_create
    ∷ str "token.manage"
    ∷ str "audit.read"
    ∷ str "authz.read"
    ∷ agent_enroll
    ∷ []

-- The loop of `bitOf`; `none` is its -1.
unfoldable pub position : Permission → List Permission → Option ℕ
unfolding text_eq
position p [] = none
position p (c ∷ cs) = if text_eq c p then some 0 else Option.map (λ i. i + 1) (position p cs)

unfoldable pub bit_of : Permission → Option ℕ
unfolding position catalogue
bit_of p = position p catalogue

abbrev parsed : Text → Option ℕ → Option Permission
parsed name none = none
parsed name (some i) = some name

-- `Parse`: the permission and whether it is known.
unfoldable pub parse : Text → Option Permission
unfolding bit_of
parse name = parsed name (bit_of name)

abbrev pub is_scopable_bit : Option ℕ → Bool
is_scopable_bit none = false
is_scopable_bit (some i) = ltb i folder_scopable_count

unfoldable pub folder_scopable : Permission → Bool
unfolding bit_of
folder_scopable p = is_scopable_bit (bit_of p)

-- Whether the catalogue lists the permission.
unfoldable pub is_known : Permission → Bool
unfolding contains catalogue
is_known p = contains catalogue p

position-lt-length :
    (p : Permission) (cs : List Permission) (i : ℕ) → position p cs ≡ some i → i < length cs
unfolding position
position-lt-length p [] i h = cc
position-lt-length p (c ∷ cs) i h = elim (Option-cases (position p cs)) [
  | inl e ↦ ground (arith, e)
  | inr (j, e) ↦ ground (arith, position-lt-length p cs j)
]

-- Every bit index is one of the 26.
pub bit_of-lt : (p : Permission) (i : ℕ) → bit_of p ≡ some i → i < 26
unfolding bit_of
bit_of-lt p i h = unfold catalogue in position-lt-length p catalogue i h

-- Two permissions with one bit are the same permission.
position_inj :
    (p q : Permission) (cs : List Permission) (i : ℕ)
    → position p cs ≡ some i
    → position q cs ≡ some i
    → p ≡ q
unfolding position
position_inj p q [] i h k = cc
position_inj p q (c ∷ cs) zero h k = ground (arith, text_eq_iff c p, text_eq_iff c q)
position_inj p q (c ∷ cs) (suc i) h k =
    ground (arith, text_eq_iff c p, text_eq_iff c q, position_inj p q cs i)

pub bit_of_inj : (p q : Permission) (i : ℕ) → bit_of p ≡ some i → bit_of q ≡ some i → p ≡ q
unfolding bit_of
bit_of_inj p q i h k = position_inj p q catalogue i h k

is_known-position :
    (p : Permission) (cs : List Permission)
    → contains cs p ≡ elim (position p cs) [ none ↦ false | some i ↦ true ]
unfolding contains position any
is_known-position p [] = refl
is_known-position p (c ∷ cs) = ground (arith, is_known-position p cs)

pub is_known-bit_of :
    (p : Permission) → is_known p ≡ elim (bit_of p) [ none ↦ false | some i ↦ true ]
unfolding is_known bit_of
is_known-bit_of p = is_known-position p catalogue

parsed_same :
    (name : Text) (i : Option ℕ) {perm : Permission} → parsed name i ≡ some perm → perm ≡ name
parsed_same name none h = cc
parsed_same name (some i) h = cc

-- A name that parses is the permission of that name.
pub parse-same : (name : Text) {perm : Permission} → parse name ≡ some perm → perm ≡ name
unfolding parse
parse-same name h = parsed_same name (bit_of name) h

parsed-none : (name : Text) (i : Option ℕ) → parsed name i ≡ none → i ≡ none
parsed-none name none h = refl
parsed-none name (some i) h = cc

-- A name that does not parse is not in the catalogue.
pub parse-none : (name : Text) → parse name ≡ none → is_known name ≡ false
unfolding parse
parse-none name h = rw (is_known-bit_of name, parsed-none name (bit_of name) h)
