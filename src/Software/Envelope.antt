-- ===== src/Software/Envelope.antt =====
-- Envelope encryption: the round trip, and the tenant that every step is bound to.
use ai_auth.Common.{◌≤◌, ◌^◌, ◌≡◌, ◌≢◌, refl, ok, err, length, arith, inl, inr, ◌⊎◌, Result-cases}
use ai_auth.Provider.{KeyHandle, decrypt}
use ai_auth.Software.{
  Primitives, SoftwareProvider, dek_len, aad, domain_dek_wrap, domain_field, aead_seal, kek,
  unwrap_dek, generate_wrapped_dek, encrypt_field, decrypt_field,
}
use ai_auth.Software.Assumptions.{IsAead, Forgery}
use ai_auth.Software.Frame.{aad_injective, length-aad}
use ai_auth.Software.Sealed.{
  Seals, aead_seal-Seals, aead_seal_total, aead_open-seal, aead_open_other,
}
use ai_auth.Text.{Str, Bytes, IsStr, len, as_bytes, str}

length-domains : (length domain_dek_wrap ≡ 18) × (length domain_field ≡ 15)
unfolding domain_dek_wrap domain_field as_bytes str
length-domains = (refl, refl)

module _ (P : Primitives) (h : IsAead P) where
  -- A wrapped key and what it wraps.
  record Wraps (p : SoftwareProvider) (handle : KeyHandle) (t : Str) (wrapped : Bytes)
      : Type 0 where
    material : Bytes
    dek : Bytes
    found : kek p handle ≡ ok material
    sized : length dek ≡ dek_len
    seals : Seals P h material (aad domain_dek_wrap t) dek wrapped

  generate_wrapped_dek-Wraps :
      (p : SoftwareProvider) (handle : KeyHandle) (t : Str) (wrapped : Bytes) (rng rng' : P.Rng)
      → generate_wrapped_dek P p handle t rng ≡ (ok wrapped, rng')
      → Wraps p handle t wrapped
  unfolding generate_wrapped_dek
  generate_wrapped_dek-Wraps p handle t wrapped rng rng' e = elim (Result-cases (kek p handle)) [
    | inr (x, bad) ↦ absurd (ground arith)
    | inl (k, found) ↦ record {
      material = k;
      dek = (P.fill_bytes dek_len rng).0;
      found = found;
      sized = h.fills dek_len rng;
      seals = aead_seal-Seals P h k _ _ (P.fill_bytes dek_len rng).1 rng' wrapped (ground arith);
    }
  ]

  unwrap_dek-Wraps :
      (p : SoftwareProvider) (handle : KeyHandle) (t : Str) (wrapped : Bytes)
      → (w : Wraps p handle t wrapped) → unwrap_dek P p handle t wrapped ≡ ok w.dek
  unfolding unwrap_dek
  unwrap_dek-Wraps p handle t wrapped w =
      ground (arith, w.found, aead_open-seal P h w.material _ w.dek wrapped w.seals)

  unwrap_dek_other :
      (p : SoftwareProvider) (handle : KeyHandle) (t other : Str) (wrapped : Bytes)
      → IsStr t
      → IsStr other
      → other ≢ t
      → Wraps p handle t wrapped
      → (unwrap_dek P p handle other wrapped ≡ err decrypt)
        ⊎ Forgery P (aad domain_dek_wrap t) (aad domain_dek_wrap other) wrapped
  unfolding unwrap_dek
  unwrap_dek_other p handle t other wrapped ht ho differ w =
      elim (aead_open_other P h w.material (aad domain_dek_wrap t) (aad domain_dek_wrap other) w.dek
        wrapped w.seals (λ e. differ (aad_injective domain_dek_wrap other t ho ht e))) [
          | inl shut ↦ inl (ground (arith, w.found, shut))
          | inr forged ↦ inr forged
        ]

  -- A wrapped key that was generated for one tenant does nothing for another: decryption and
  -- encryption fail alike, with the one undifferentiated error, before any field is touched; or the
  -- wrapped key is a forgery, which opens under the other tenant's associated data.
  pub other_tenant_refused :
      (p : SoftwareProvider) (handle : KeyHandle) (t other : Str) (wrapped text : Bytes)
      (rng rng' later : P.Rng)
      → IsStr t
      → IsStr other
      → other ≢ t
      → generate_wrapped_dek P p handle t rng ≡ (ok wrapped, rng')
      → ((decrypt_field P p handle other wrapped text ≡ err decrypt)
          × (encrypt_field P p handle other wrapped text later ≡ (err decrypt, later)))
        ⊎ Forgery P (aad domain_dek_wrap t) (aad domain_dek_wrap other) wrapped
  unfolding decrypt_field encrypt_field
  other_tenant_refused p handle t other wrapped text rng rng' later ht ho differ e =
      elim (unwrap_dek_other p handle t other wrapped ht ho differ
        (generate_wrapped_dek-Wraps p handle t wrapped rng rng' e)) [
          | inl refused ↦ inl (rw refused, rw (refused, encrypt_field))
          | inr forged ↦ inr forged
        ]

  -- A field that was sealed under a generated key opens to its text for the same tenant.
  pub decrypt_field-encrypt_field :
      (p : SoftwareProvider) (handle : KeyHandle) (t : Str) (wrapped text sealed : Bytes)
      (rng rng' before after : P.Rng)
      → generate_wrapped_dek P p handle t rng ≡ (ok wrapped, rng')
      → encrypt_field P p handle t wrapped text before ≡ (ok sealed, after)
      → decrypt_field P p handle t wrapped sealed ≡ ok text
  unfolding decrypt_field encrypt_field
  decrypt_field-encrypt_field p handle t wrapped text sealed rng rng' before after g e =
      let w = generate_wrapped_dek-Wraps p handle t wrapped rng rng' g in
      let opened = unwrap_dek-Wraps p handle t wrapped w in
      let sealed_ : aead_seal P w.dek (aad domain_field t) text before ≡ (ok sealed, after) =
        ground (arith, opened) in
      rw opened (
        aead_open-seal P h w.dek _ text sealed
          (aead_seal-Seals P h w.dek _ text before after sealed sealed_))

  generate_wrapped_dek_total :
      (p : SoftwareProvider) (handle : KeyHandle) (t : Str) (material : Bytes) (rng : P.Rng)
      → kek p handle ≡ ok material
      → length material ≡ 32
      → len t ≤ 2 ^ 32
      → (wrapped : Bytes) × (rng' : P.Rng) × (generate_wrapped_dek P p handle t rng
          ≡ (ok wrapped, rng'))
  unfolding generate_wrapped_dek
  generate_wrapped_dek_total p handle t material rng found size short =
      let (wrapped, rng', e) =
        aead_seal_total P h material (aad domain_dek_wrap t) (P.fill_bytes dek_len rng).0
          (P.fill_bytes dek_len rng).1 size
          (omega (arith, length-aad domain_dek_wrap t, length-domains.0))
          (omega (arith, h.fills dek_len rng)) in
      (wrapped, rng', rw (found, generate_wrapped_dek) e)

  -- With a key encryption key of 32 bytes, a tenant id of at most 2^32 bytes and a text of at most
  -- 2^36, the first write of a row succeeds and the row reads back: a key is generated, the text is
  -- sealed under it, and opening the result gives the text.
  pub envelope_round_trip :
      (p : SoftwareProvider) (handle : KeyHandle) (t : Str) (material text : Bytes) (rng : P.Rng)
      → kek p handle ≡ ok material
      → length material ≡ 32
      → len t ≤ 2 ^ 32
      → length text ≤ 2 ^ 36
      → (wrapped : Bytes) × (between : P.Rng) × (sealed : Bytes) × (after : P.Rng)
        × (generate_wrapped_dek P p handle t rng ≡ (ok wrapped, between))
        × (encrypt_field P p handle t wrapped text between ≡ (ok sealed, after))
        × (decrypt_field P p handle t wrapped sealed ≡ ok text)
  unfolding encrypt_field
  envelope_round_trip p handle t material text rng found size short bounded =
      let (wrapped, between, g) =
        generate_wrapped_dek_total p handle t material rng found size short in
      let w = generate_wrapped_dek-Wraps p handle t wrapped rng between g in
      let (sealed, after, s) =
        aead_seal_total P h w.dek (aad domain_field t) text between w.sized
          (omega (arith, length-aad domain_field t, length-domains.1)) bounded in
      let e : encrypt_field P p handle t wrapped text between ≡ (ok sealed, after) =
        rw (unwrap_dek-Wraps p handle t wrapped w, encrypt_field) s in
      (
        wrapped,
        between,
        sealed,
        after,
        g,
        e,
        decrypt_field-encrypt_field p handle t wrapped text sealed rng between between after g e,
      )
