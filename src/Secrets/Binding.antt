-- ===== src/Secrets/Binding.antt =====
-- internal/secrets/binding.go: the additional authenticated data of a ciphertext.
use unified_cd.Prelude.{
  ◌≡◌, ◌≢◌, refl, sym, ◌∙◌, ℕ, ◌/◌, ◌%◌, ◌^◌, ◌<◌, List, [], ◌∷◌, ◌++◌, append_assoc, append-nil,
  arith, length, All, Text, str,
}

pub record Binding : Type 0 where
  pub kind : Text
  pub fields : List Text

unfoldable pub secret_binding : Text → Binding
secret_binding name = record { kind = str "secret"; fields = name ∷ [] }

unfoldable pub session_refresh_binding : Text → Binding
session_refresh_binding session_id = record {
  kind = str "session_refresh";
  fields = session_id ∷ [];
}

-- binary.BigEndian.PutUint32 of `uint32(n)`.
unfoldable pub put_uint32 : ℕ → Text
put_uint32 n =
    let u = n % 2 ^ 32 in u / 2 ^ 24 ∷ u / 2 ^ 16 % 2 ^ 8 ∷ u / 2 ^ 8 % 2 ^ 8 ∷ u % 2 ^ 8 ∷ []

unfoldable pub append_field : Text → Text → Text
append_field dst s = (dst ++ put_uint32 (length s)) ++ s

unfoldable pub append_fields : Text → List Text → Text
append_fields dst [] = dst
append_fields dst (f ∷ fs) = append_fields (append_field dst f) fs

unfoldable pub canonical : Binding → Text
canonical b = append_fields (append_field [] b.kind) b.fields

-- The encoding, read from the front.
encode : List Text → Text
encode [] = []
encode (f ∷ fs) = put_uint32 (length f) ++ (f ++ encode fs)

append_fields-encode : (dst : Text) (fs : List Text) → append_fields dst fs ≡ dst ++ encode fs
unfolding append_fields encode append_field
append_fields-encode dst [] = sym (append-nil dst)
append_fields-encode dst (f ∷ fs) =
    append_fields-encode (append_field dst f) fs
    ∙ append_assoc (dst ++ put_uint32 (length f)) f (encode fs)
    ∙ append_assoc dst (put_uint32 (length f)) (f ++ encode fs)

canonical-encode : (b : Binding) → canonical b ≡ encode (b.kind ∷ b.fields)
unfolding canonical encode append_field
canonical-encode b =
    append_fields-encode (append_field [] b.kind) b.fields
    ∙ append_assoc (put_uint32 (length b.kind)) b.kind (encode b.fields)

same_heads :
    {a b c d a' b' c' d' : ℕ} {s t : Text}
    → (a ∷ b ∷ c ∷ d ∷ s) ≡ (a' ∷ b' ∷ c' ∷ d' ∷ t)
    → ((a ≡ a') × (b ≡ b')) × ((c ≡ c') × (d ≡ d')) × (s ≡ t)
same_heads h = ((cc, cc), (cc, cc), cc)

same_bytes :
    (m n : ℕ)
    → m < 2 ^ 32
    → n < 2 ^ 32
    → m % 2 ^ 32 / 2 ^ 24 ≡ n % 2 ^ 32 / 2 ^ 24
    → m % 2 ^ 32 / 2 ^ 16 % 2 ^ 8 ≡ n % 2 ^ 32 / 2 ^ 16 % 2 ^ 8
    → m % 2 ^ 32 / 2 ^ 8 % 2 ^ 8 ≡ n % 2 ^ 32 / 2 ^ 8 % 2 ^ 8
    → m % 2 ^ 32 % 2 ^ 8 ≡ n % 2 ^ 32 % 2 ^ 8
    → m ≡ n
same_bytes m n hm hn a b c d = omega arith

-- Lengths that fit 32 bits are told apart, whatever follows.
put_uint32_inj :
    (m n : ℕ) (s t : Text)
    → m < 2 ^ 32
    → n < 2 ^ 32
    → (put_uint32 m ++ s) ≡ (put_uint32 n ++ t)
    → (m ≡ n) × (s ≡ t)
unfolding put_uint32
put_uint32_inj m n s t hm hn h =
    let ((a, b), (c, d), rest) = same_heads h in (same_bytes m n hm hn a b c d, rest)

same_head : {x y : ℕ} {s t : Text} → (x ∷ s) ≡ (y ∷ t) → (x ≡ y) × (s ≡ t)
same_head h = (cc, cc)

append_inj : (a b s t : Text) → length a ≡ length b → (a ++ s) ≡ (b ++ t) → (a ≡ b) × (s ≡ t)
append_inj [] [] s t l h = (refl, h)
append_inj (x ∷ a) (y ∷ b) s t l h =
    let (head, tail) = same_head h in
    let (same, rest) = append_inj a b s t (omega (arith, l)) tail in (rw (head, same), rest)
append_inj [] (y ∷ b) s t l h = ground (arith, l)
append_inj (x ∷ a) [] s t l h = ground (arith, l)

no_prefix : (a b c d : ℕ) (s : Text) → [] ≢ (a ∷ b ∷ c ∷ d ∷ s)
no_prefix a b c d s h = cc

-- Fields of less than 4 GiB.
abbrev pub IsShort : List Text → Type 0
IsShort = All (λ f. length f < 2 ^ 32)

encode_inj : (fs gs : List Text) → IsShort fs → IsShort gs → encode fs ≡ encode gs → fs ≡ gs
unfolding encode
encode_inj [] [] hf hg h = refl
encode_inj (f ∷ fs) (g ∷ gs) (hf, hfs) (hg, hgs) h =
    let (len, bodies) =
      put_uint32_inj (length f) (length g) (f ++ encode fs) (g ++ encode gs) hf hg h in
    let (same, rest) = append_inj f g (encode fs) (encode gs) len bodies in
    rw (same, encode_inj fs gs hfs hgs rest)
encode_inj [] (g ∷ gs) hf hg h = unfold put_uint32 in cc
encode_inj (f ∷ fs) [] hf hg h = unfold put_uint32 in cc

binding_eta : (b c : Binding) → (b.kind ∷ b.fields) ≡ (c.kind ∷ c.fields) → b ≡ c
binding_eta b c h = cc

-- Two bindings whose kind and fields are shorter than 4 GiB and that have the same canonical
-- encoding are the same binding.
pub canonical_inj :
    (b c : Binding)
    → IsShort (b.kind ∷ b.fields)
    → IsShort (c.kind ∷ c.fields)
    → canonical b ≡ canonical c
    → b ≡ c
canonical_inj b c hb hc h = binding_eta b c (
    encode_inj (b.kind ∷ b.fields) (c.kind ∷ c.fields) hb hc
      (sym (canonical-encode b) ∙ (h ∙ canonical-encode c)))
