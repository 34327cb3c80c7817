-- ===== src/Software/Frame.antt =====
-- The length-framed encodings determine what they frame.
use ai_auth.Common.{
  ℕ, ◌+◌, length-append, ◌<◌, ◌^◌, ◌≡◌, refl, sym, ◌∙◌, ap, List, [], ◌∷◌, ◌++◌, length,
  append_split, arith,
}
use ai_auth.Software.{aad, index_parts, domain_blind_index}
use ai_auth.Text.{Str, Bytes, IsStr, as_bytes, len}
use ai_auth.Text.Utf8.{as_bytes_injective}
use ai_auth.Words.{u64_to_be_bytes, length-u64_to_be_bytes, u64_to_be_bytes_injective}

-- A length in front of a part, the part, and what follows.
frame_split :
    (xs ys us vs : Bytes)
    → length xs < 2 ^ 64
    → length ys < 2 ^ 64
    → u64_to_be_bytes (length xs) ++ (xs ++ us) ≡ u64_to_be_bytes (length ys) ++ (ys ++ vs)
    → (xs ≡ ys) × (us ≡ vs)
frame_split xs ys us vs hx hy e =
    let same_size = length-u64_to_be_bytes (length xs) ∙ sym (length-u64_to_be_bytes (length ys)) in
    let (sizes, rest) =
      append_split (u64_to_be_bytes (length xs)) (u64_to_be_bytes (length ys)) _ _ same_size e in
    append_split xs ys us vs (u64_to_be_bytes_injective (length xs) (length ys) hx hy sizes) rest

length-prefix : (domain : Bytes) (n : ℕ) → length (domain ++ u64_to_be_bytes n) ≡ length domain + 8
length-prefix domain n =
    length-append domain (u64_to_be_bytes n) ∙ ap (◌+◌ (length domain)) (length-u64_to_be_bytes n)

pub length-aad : (domain : Bytes) (t : Str) → length (aad domain t) ≡ length domain + 8 + len t
unfolding aad
length-aad domain t = omega (
  arith,
  length-append (domain ++ u64_to_be_bytes (len t)) (as_bytes t),
  length-prefix domain (len t),
)

-- In every domain the associated data determines the tenant, a text of code points.
pub aad_injective :
    (domain : Bytes) (s t : Str) → IsStr s → IsStr t → aad domain s ≡ aad domain t → s ≡ t
unfolding aad
aad_injective domain s t hs ht e =
    let sizes = length-prefix domain (len s) ∙ sym (length-prefix domain (len t)) in
    as_bytes_injective s t hs ht
      (append_split (domain ++ u64_to_be_bytes (len s)) (domain ++ u64_to_be_bytes (len t))
        (as_bytes s) (as_bytes t) sizes e).1

-- The bytes that an HMAC sees when it is fed a list of parts.
abbrev pub concat : List Bytes → Bytes
concat [] = []
concat (p ∷ ps) = p ++ concat ps

-- The parts of a blind index, run together, determine the tenant and the input, of less than 2^64
-- bytes each: no byte can move across the boundary.
pub index_parts_injective :
    (s t : Str) (xs ys : Bytes)
    → IsStr s
    → IsStr t
    → len s < 2 ^ 64
    → len t < 2 ^ 64
    → length xs < 2 ^ 64
    → length ys < 2 ^ 64
    → concat (index_parts s xs) ≡ concat (index_parts t ys)
    → (s ≡ t) × (xs ≡ ys)
unfolding index_parts
index_parts_injective s t xs ys hs ht ls lt lx ly e =
    let (_, tail) = append_split domain_blind_index domain_blind_index _ _ refl e in
    let (texts, inputs) = frame_split (as_bytes s) (as_bytes t) _ _ ls lt tail in
    (as_bytes_injective s t hs ht texts, (frame_split xs ys [] [] lx ly inputs).0)
