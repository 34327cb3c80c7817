-- ===== src/Text/Utf8.antt =====
-- UTF-8 determines the text that it encodes.
use ai_auth.Common.{ℕ, ◌<◌, ◌≡◌, refl, List, [], ◌∷◌, ◌++◌, arith}
use ai_auth.Text.{Str, IsStr, encode_utf8, as_bytes}

encode_utf8-prefix_free :
    (c d : ℕ) (s t : List ℕ)
    → c < 0x11_0000
    → d < 0x11_0000
    → encode_utf8 c ++ s ≡ encode_utf8 d ++ t
    → (c ≡ d) × (s ≡ t)
unfolding encode_utf8
encode_utf8-prefix_free c d s t hc hd e = ground arith

encode_utf8-ne-nil : (c : ℕ) (s : List ℕ) → ¬ (encode_utf8 c ++ s ≡ [])
unfolding encode_utf8
encode_utf8-ne-nil c s e = ground arith

pub as_bytes_injective : (s t : Str) → IsStr s → IsStr t → as_bytes s ≡ as_bytes t → s ≡ t
unfolding as_bytes
as_bytes_injective [] [] hs ht e = refl
as_bytes_injective [] (d ∷ t) hs ht e = absurd (encode_utf8-ne-nil d (as_bytes t) (cc))
as_bytes_injective (c ∷ s) [] hs ht e = absurd (encode_utf8-ne-nil c (as_bytes s) e)
as_bytes_injective (c ∷ s) (d ∷ t) (hc, hs) (hd, ht) e =
    let (p, q) = encode_utf8-prefix_free c d (as_bytes s) (as_bytes t) hc hd e in
    let ih = as_bytes_injective s t hs ht q in cc
