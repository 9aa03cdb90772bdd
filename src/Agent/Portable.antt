-- ===== src/Agent/Portable.antt =====
-- internal/agentid/portable.go: agent ids that are used as directory names.
use unified_cd.Prelude.{
  ◌≡◌, refl, sym, ap, ◌∙◌, ℕ, ◌+◌, Bool, true, false, not, ◌&&◌, ◌||◌, [], ◌∷◌, map, arith, leb,
  ◌==◌, if◌then◌else◌, is_empty, all, Text, str, text_eq, contains,
}

unfoldable pub is_ascii_alphanumeric : ℕ → Bool
is_ascii_alphanumeric c = (leb 97 c && leb c 122) || (leb 48 c && leb c 57)

abbrev pub dot : ℕ
dot = 46

-- The bytes that the loop lets pass: also `.`, `_` and `-`.
unfoldable pub is_portable_byte : ℕ → Bool
is_portable_byte c = is_ascii_alphanumeric c || (c == dot || (c == 95 || c == 45))

-- `id[0]` and `id[len(id)-1]` of an id that is not empty.
unfoldable pub starts_alphanumeric : Text → Bool
starts_alphanumeric [] = false
starts_alphanumeric (c ∷ s) = is_ascii_alphanumeric c

unfoldable pub ends_alphanumeric : Text → Bool
ends_alphanumeric [] = false
ends_alphanumeric (c ∷ []) = is_ascii_alphanumeric c
ends_alphanumeric (c ∷ d ∷ s) = ends_alphanumeric (d ∷ s)

-- The part that `strings.Cut(id, ".")` leaves before the dot.
unfoldable pub before_dot : Text → Text
before_dot [] = []
before_dot (c ∷ s) = if c == dot then [] else c ∷ before_dot s

unfoldable pub is_numbered_device : Text → Bool
is_numbered_device (a ∷ b ∷ c ∷ d ∷ []) =
    (text_eq (a ∷ b ∷ c ∷ []) (str "com") || text_eq (a ∷ b ∷ c ∷ []) (str "lpt"))
    && (leb 49 d && leb d 57)
is_numbered_device _ = false

unfoldable pub is_windows_reserved_name : Text → Bool
is_windows_reserved_name v =
    contains (str "con" ∷ str "prn" ∷ str "aux" ∷ str "nul" ∷ []) v || is_numbered_device v

-- `true` is a nil error.
unfoldable pub validate_portable : Text → Bool
validate_portable id =
    if is_empty id || (not (starts_alphanumeric id) || not (ends_alphanumeric id))
    then false
    else all is_portable_byte id && not (is_windows_reserved_name (before_dot id))

-- ASCII case folding, as a file system that ignores case does it.
abbrev pub to_lower : ℕ → ℕ
to_lower c = if leb 65 c && leb c 90 then c + 32 else c

portable-lower : (c : ℕ) → is_portable_byte c ≡ true → to_lower c ≡ c
unfolding is_portable_byte is_ascii_alphanumeric
portable-lower c h = ground arith

all-lower : (s : Text) → all is_portable_byte s ≡ true → map to_lower s ≡ s
unfolding all
all-lower [] h = refl
all-lower (c ∷ s) h =
    ap (λ d. d ∷ map to_lower s) (portable-lower c (ground arith))
    ∙ ap (λ t. c ∷ t) (all-lower s (ground arith))

validate-bytes : (id : Text) → validate_portable id ≡ true → all is_portable_byte id ≡ true
unfolding validate_portable
validate-bytes id h = ground arith

-- Two portable agent ids that differ at most in the case of ASCII letters are the same id.
pub validate_portable-folds :
    (id other : Text)
    → validate_portable id ≡ true
    → validate_portable other ≡ true
    → map to_lower id ≡ map to_lower other
    → id ≡ other
validate_portable-folds id other h k same =
    sym (all-lower id (validate-bytes id h)) ∙ (same ∙ all-lower other (validate-bytes other k))
