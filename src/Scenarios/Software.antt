-- ===== src/Scenarios/Software.antt =====
-- crypto/src/providers/software.rs: the tests of the provider, for any primitives and any state of
-- the generator. The assertions of a test hold only where what it unwraps is there.
use ai_auth.Common.{
  Bool, true, false, not, ◌&&◌, [], ◌∷◌, none, some, Result, ok, err, ite, replicate,
}
use Prim.Native.Nat.{bit_xor}
use ai_auth.Provider.{KeyHandle, ProviderError, unknown_key, backend, decrypt, debug}
use ai_auth.Scenarios.{contains}
use ai_auth.Software
use ai_auth.Software.{Primitives, SoftwareProvider}
use ai_auth.Text.{Str, Bytes, str, Str-discrete, as_bytes}

-- `unwrap`, and the assertions after it.
unfoldable pub unwrapped : {A E : Type 0} → Result A E → (A → Bool) → Bool
unwrapped (ok a) rest = rest a
unwrapped (err e) rest = false

-- `assert_eq!(a, b)` of texts of bytes.
unfoldable pub same : Bytes → Bytes → Bool
same a b = ite (Str-discrete a b) true false

-- The result is `Err(ProviderError::Decrypt)`.
unfoldable pub not_decrypted : Result Bytes ProviderError → Bool
not_decrypted (err decrypt) = true
not_decrypted _ = false

-- `ct[last] ^= 0x01`
unfoldable pub flip_last : Bytes → Bytes
flip_last [] = []
flip_last (b ∷ []) = bit_xor b 1 ∷ []
flip_last (b ∷ c ∷ rest) = b ∷ flip_last (c ∷ rest)

unfoldable pub provider : SoftwareProvider
provider = Software.with_key Software.new (record { id = str "idx-1" }) (replicate 32 7)

abbrev pub k : KeyHandle
k = record { id = str "idx-1" }

unfoldable pub key_handle_debug_shows_id_not_material : Bool
key_handle_debug_shows_id_not_material =
    let printed = debug (record { id = str "idx-1" }) in
    contains printed (str "idx-1") && not (contains printed (str "7"))

module _ (P : Primitives) where
  -- Two indexes under one key, compared.
  unfoldable pub indexes : Str → Str → Str → Str → (Bytes → Bytes → Bool) → Bool
  unfolding provider unwrapped
  indexes tenant₁ input₁ tenant₂ input₂ test =
      unwrapped (Software.blind_index P provider k tenant₁ (as_bytes input₁))
        λ a. unwrapped (Software.blind_index P provider k tenant₂ (as_bytes input₂)) λ b. test a b

  unfoldable pub index_is_deterministic : Bool
  unfolding indexes same
  index_is_deterministic =
      indexes (str "tenant-a") (str "user@example.com") (str "tenant-a") (str "user@example.com")
        same

  unfoldable pub same_plaintext_differs_across_tenants : Bool
  unfolding indexes same
  same_plaintext_differs_across_tenants =
      indexes (str "tenant-a") (str "user@example.com") (str "tenant-b") (str "user@example.com")
        λ a b. not (same a b)

  unfoldable pub framing_prevents_cross_boundary_collision : Bool
  unfolding indexes same
  framing_prevents_cross_boundary_collision =
      indexes (str "ab") (str "c") (str "a") (str "bc") λ a b. not (same a b)

  unfoldable pub different_input_differs : Bool
  unfolding indexes same
  different_input_differs =
      indexes (str "t") (str "alice@example.com") (str "t") (str "bob@example.com")
        λ a b. not (same a b)

  unfoldable pub unknown_handle_is_an_error_not_a_default_key : Bool
  unfolding provider
  unknown_handle_is_an_error_not_a_default_key =
      elim (Software.blind_index P provider (record { id = str "nope" }) (str "t")
        (as_bytes (str "x"))) [
          | ok a ↦ false
          | err (unknown_key h) ↦ true
          | err (backend m) ↦ false
          | err decrypt ↦ false
        ]

  unfoldable pub attestation_admits_it_is_not_fips : Bool
  attestation_admits_it_is_not_fips =
      let a = Software.attestation P in
      not a.fips && elim a.certificate [ none ↦ true | some c ↦ false ]

  -- A key for the tenant `t1`, and a text sealed under it.
  unfoldable pub with_dek : P.Rng → (Bytes → P.Rng → Bool) → Bool
  unfolding provider unwrapped
  with_dek rng rest =
      let (dek, rng') = Software.generate_wrapped_dek P provider k (str "t1") rng in
      unwrapped dek λ wrapped. rest wrapped rng'

  unfoldable pub with_sealed : Str → P.Rng → (Bytes → Bytes → Bool) → Bool
  unfolding with_dek
  with_sealed text rng rest = with_dek rng λ dek rng'.
      unwrapped (Software.encrypt_field P provider k (str "t1") dek (as_bytes text) rng').0
        λ ct. rest dek ct

  unfoldable pub an_envelope_round_trip : P.Rng → Bool
  unfolding with_sealed same
  an_envelope_round_trip rng = with_sealed (str "secret@example.com") rng λ dek ct.
      unwrapped (Software.decrypt_field P provider k (str "t1") dek ct)
        λ pt. same pt (as_bytes (str "secret@example.com"))

  unfoldable pub ciphertext_never_contains_the_plaintext : P.Rng → Bool
  unfolding with_sealed
  ciphertext_never_contains_the_plaintext rng =
      with_sealed (str "secret@example.com") rng
        λ dek ct. not (contains ct (as_bytes (str "secret")))

  unfoldable pub a_dek_cannot_open_another_tenants_ciphertext : P.Rng → Bool
  unfolding with_sealed not_decrypted
  a_dek_cannot_open_another_tenants_ciphertext rng =
      with_sealed (str "payload") rng
        λ dek ct. not_decrypted (Software.decrypt_field P provider k (str "t2") dek ct)

  unfoldable pub wrapped_dek_is_bound_to_its_tenant : P.Rng → Bool
  unfolding with_dek not_decrypted
  wrapped_dek_is_bound_to_its_tenant rng = with_dek rng λ dek rng'.
      not_decrypted (Software.encrypt_field P provider k (str "t2") dek (as_bytes (str "x")) rng').0

  unfoldable pub tampered_ciphertext_is_rejected : P.Rng → Bool
  unfolding with_sealed not_decrypted flip_last
  tampered_ciphertext_is_rejected rng =
      with_sealed (str "payload") rng
        λ dek ct. not_decrypted (Software.decrypt_field P provider k (str "t1") dek (flip_last ct))

  unfoldable pub each_encryption_uses_a_fresh_nonce : P.Rng → Bool
  unfolding with_dek same
  each_encryption_uses_a_fresh_nonce rng = with_dek rng λ dek rng'.
      let (first, rng₂) =
        Software.encrypt_field P provider k (str "t1") dek (as_bytes (str "same")) rng' in
      let second =
        (Software.encrypt_field P provider k (str "t1") dek (as_bytes (str "same")) rng₂).0 in
      unwrapped first λ a. unwrapped second λ b. not (same a b)

  unfoldable pub truncated_input_is_rejected_not_panicked : P.Rng → Bool
  unfolding with_dek not_decrypted
  truncated_input_is_rejected_not_panicked rng = with_dek rng λ dek rng'.
      not_decrypted (Software.decrypt_field P provider k (str "t1") dek (as_bytes (str "short")))
