-- ===== src/Software/BlindIndex.antt =====
-- Blind indexes of different tenants or inputs.
use ai_auth.Common.{
  ◌<◌, ◌^◌, ◌≡◌, ◌⊎◌, inl, inr, sym, ◌∙◌, ap, List, [], ◌∷◌, some, ok, append-nil, length,
  >>=-eq-ok, ok_or-eq-ok, map_err-eq-ok, ok-injective, ok-injective,
}
use ai_auth.HashMap.{lookup}
use ai_auth.Provider.{KeyHandle, KeyHandle-discrete}
use ai_auth.Software.{Primitives, SoftwareProvider, updates, index_parts, blind_index}
use ai_auth.Software.Assumptions.{IsStreaming, Collision}
use ai_auth.Software.Frame.{concat, index_parts_injective}
use ai_auth.Text.{Str, Bytes, IsStr, len, Str-discrete}

module _ (P : Primitives) (h : IsStreaming P) where
  updates-concat :
      (mac : P.Mac) (p : Bytes) (ps : List Bytes)
      → updates P mac (p ∷ ps) ≡ P.mac_update mac (concat (p ∷ ps))
  unfolding updates
  updates-concat mac p [] = ap (P.mac_update mac) (sym (append-nil p))
  updates-concat mac p (q ∷ ps) =
      updates-concat (P.mac_update mac p) q ps ∙ h.update_append mac p (concat (q ∷ ps))

  updates-index :
      (mac : P.Mac) (t : Str) (input : Bytes)
      → updates P mac (index_parts t input) ≡ P.mac_update mac (concat (index_parts t input))
  unfolding index_parts
  updates-index mac t input = updates-concat mac _ _

  -- What a blind index is: the tag of the framed parts under the key's material.
  blind_index_inv :
      (p : SoftwareProvider) (handle : KeyHandle) (t : Str) (input index : Bytes)
      → blind_index P p handle t input ≡ ok index
      → (material : Bytes) × (mac : P.Mac) × (lookup KeyHandle-discrete handle p.keys
          ≡ some material)
        × (P.mac_from_slice material ≡ ok mac)
        × (P.mac_finalize (P.mac_update mac (concat (index_parts t input))) ≡ index)
  unfolding blind_index
  blind_index_inv p handle t input index e =
      let (material, found, e') = >>=-eq-ok _ _ e in
      let (mac, made, out) = >>=-eq-ok _ _ e' in
      (
        material,
        mac,
        ok_or-eq-ok _ _ found,
        map_err-eq-ok _ _ made,
        ap P.mac_finalize (sym (updates-index mac t input)) ∙ ok-injective out,
      )

  -- Two tenants, or two inputs, of less than 2^64 bytes with one index under one key give a
  -- collision of the HMAC: their framed encodings are two messages with one tag. The HMAC is one
  -- that is fed in parts.
  pub blind_index-Collision :
      (p : SoftwareProvider) (handle : KeyHandle) (s t : Str) (xs ys index : Bytes)
      → IsStr s
      → IsStr t
      → len s < 2 ^ 64
      → len t < 2 ^ 64
      → length xs < 2 ^ 64
      → length ys < 2 ^ 64
      → blind_index P p handle s xs ≡ ok index
      → blind_index P p handle t ys ≡ ok index
      → ((s ≡ t) × (xs ≡ ys)) ⊎ Collision P (concat (index_parts s xs)) (concat (index_parts t ys))
  blind_index-Collision p handle s t xs ys index hs ht ls lt lx ly e f =
      let (m, mac, found, made, out) = blind_index_inv p handle s xs index e in
      let (m', mac', found', made', out') = blind_index_inv p handle t ys index f in
      let a = concat (index_parts s xs) in
      let b = concat (index_parts t ys) in
      elim (Str-discrete a b) [
        | yes same ↦ inl (index_parts_injective s t xs ys hs ht ls lt lx ly same)
        | no differ ↦ inr (record { mac = mac; differ = differ; agree = cc })
      ]
