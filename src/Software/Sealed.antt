-- ===== src/Software/Sealed.antt =====
-- One sealed text: what it is, that it opens, and what opens it.
use ai_auth.Common.{
  ◌≤◌, ◌<◌, ◌^◌, ◌≡◌, ◌≢◌, sym, ◌∙◌, ap, ◌++◌, some, none, ok, err, length, take, drop,
  length-append, take-append, drop-append, arith, inl, inr, ◌⊎◌, Option-cases, Result-cases,
}
use ai_auth.Provider.{decrypt}
use ai_auth.Software.{Primitives, nonce_len, aead_seal, aead_open}
use ai_auth.Software.Assumptions.{IsAead, Forgery}
use ai_auth.Text.{Bytes}

module _ (P : Primitives) (h : IsAead P) where
  -- A sealed text and what made it.
  pub record Seals (key ad msg sealed : Bytes) : Type 0 where
    pub cipher : P.Cipher
    pub nonce : Bytes
    pub ct : Bytes
    pub made : P.cipher_from_slice key ≡ ok cipher
    pub sized : length nonce ≡ nonce_len
    pub encrypted : P.cipher_encrypt cipher nonce ad msg ≡ ok ct
    pub joined : sealed ≡ nonce ++ ct

  pub aead_seal-Seals :
      (key ad msg : Bytes) (rng rng' : P.Rng) (sealed : Bytes)
      → aead_seal P key ad msg rng ≡ (ok sealed, rng')
      → Seals key ad msg sealed
  unfolding aead_seal
  aead_seal-Seals key ad msg rng rng' sealed e =
      let nonce = (P.fill_bytes nonce_len rng).0 in
      elim (Result-cases (P.cipher_from_slice key)) [
        | inr (x, bad) ↦ absurd (ground arith)
        | inl (c, made) ↦ elim (Result-cases (P.cipher_encrypt c nonce ad msg)) [
          | inr (x, bad) ↦ absurd (ground arith)
          | inl (ct, encrypted) ↦ record {
            cipher = c;
            nonce = nonce;
            ct = ct;
            made = made;
            sized = h.fills nonce_len rng;
            encrypted = encrypted;
            joined = ground arith;
          }
        ]
      ]

  pub aead_seal_total :
      (key ad msg : Bytes) (rng : P.Rng)
      → length key ≡ 32
      → length ad ≤ 2 ^ 36
      → length msg ≤ 2 ^ 36
      → (sealed : Bytes) × (rng' : P.Rng) × (aead_seal P key ad msg rng ≡ (ok sealed, rng'))
  unfolding aead_seal
  aead_seal_total key ad msg rng k a m =
      let (c, made) = h.accepts key k in
      let (ct, enc) = h.encrypts c (P.fill_bytes nonce_len rng).0 ad msg a m in
      (
        (P.fill_bytes nonce_len rng).0 ++ ct,
        (P.fill_bytes nonce_len rng).1,
        rw (made, aead_seal) (rw enc),
      )

  aead_open-sealed :
      (key ad other msg sealed : Bytes)
      → (s : Seals key ad msg sealed)
      → aead_open P key other sealed
        ≡ elim (P.cipher_decrypt s.cipher s.nonce other s.ct) [ none ↦ err decrypt | some m ↦ ok m ]
  unfolding aead_open
  aead_open-sealed key ad other msg sealed s =
      let first : take nonce_len sealed ≡ s.nonce =
        ap (take nonce_len) s.joined
        ∙ ap (λ n. take n (s.nonce ++ s.ct)) (sym s.sized)
        ∙ take-append s.nonce s.ct in
      let second : drop nonce_len sealed ≡ s.ct =
        ap (drop nonce_len) s.joined
        ∙ ap (λ n. drop n (s.nonce ++ s.ct)) (sym s.sized)
        ∙ drop-append s.nonce s.ct in
      let long : nonce_len < length sealed = omega (
        arith,
        ap length s.joined,
        length-append s.nonce s.ct,
        s.sized,
        h.tags s.cipher s.nonce ad msg s.ct s.encrypted,
      ) in
      ground (arith, long, first, second, s.made)

  pub aead_open-seal :
      (key ad msg sealed : Bytes) → Seals key ad msg sealed → aead_open P key ad sealed ≡ ok msg
  aead_open-seal key ad msg sealed s = ground (
    arith,
    aead_open-sealed key ad ad msg sealed s,
    h.opens s.cipher s.nonce ad msg s.ct s.encrypted,
  )

  -- Under other associated data a sealed text stays shut, unless that is a forgery.
  pub aead_open_other :
      (key ad other msg sealed : Bytes)
      → Seals key ad msg sealed
      → other ≢ ad
      → (aead_open P key other sealed ≡ err decrypt) ⊎ Forgery P ad other sealed
  aead_open_other key ad other msg sealed s differ =
      elim (Option-cases (P.cipher_decrypt s.cipher s.nonce other s.ct)) [
        | inl shut ↦ inl (ground (arith, aead_open-sealed key ad other msg sealed s))
        | inr (opened, passed) ↦ inr (record {
          cipher = s.cipher;
          nonce = s.nonce;
          msg = msg;
          opened = opened;
          ct = s.ct;
          joined = s.joined;
          differ = differ;
          made = s.encrypted;
          passed = passed;
        })
      ]
