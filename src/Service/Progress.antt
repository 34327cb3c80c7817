-- ===== src/Service/Progress.antt =====
-- An authorised first write gets its row.
use ai_auth.Common.{ℕ, ◌≤◌, ◌^◌, ◌≡◌, ap, ◌∙◌, List, [], ok, arith, length}
use ai_auth.Limits.{Key, Bucket}
use ai_auth.Limits.Float.{F64}
use ai_auth.Proto.{EncryptFieldRequest, EncryptFieldResponse}
use ai_auth.Provider.{KeyHandle}
use ai_auth.Service.Begins.{charged}
use ai_auth.Service.Gate.{Authorised, serve-body}
use ai_auth.Service.Guard.{Guard, State, returned}
use ai_auth.Service.Handlers.{encrypt_field_body, seal_row}
use ai_auth.Service.Rows.{guard}
use ai_auth.Service.Serve.{serve, encrypts}
use ai_auth.Software
use ai_auth.Software.{Primitives, SoftwareProvider}
use ai_auth.Software.Assumptions.{IsAead}
use ai_auth.Software.Envelope.{envelope_round_trip}
use ai_auth.Text.{Str, Bytes, len}
use ai_auth.Webauthn.{Libraries}

module _ (P : Primitives) (h : IsAead P) (p : SoftwareProvider) (floats : F64)
    (iter : List (Key × Bucket floats) → List (Key × Bucket floats)) (libraries : Libraries)
    (index_key kek : KeyHandle) where
  abbrev this : Guard
  this = guard P h p floats iter libraries index_key kek

  encrypt_field_body-minted :
      (e : EncryptFieldRequest) (tenant : Str) (s : State this) (wrapped sealed : Bytes)
      (between after : P.Rng)
      → e.wrapped_dek ≡ []
      → Software.generate_wrapped_dek P p kek tenant s.held ≡ (ok wrapped, between)
      → Software.encrypt_field P p kek tenant wrapped e.plaintext between ≡ (ok sealed, after)
      → (encrypt_field_body this e tenant s).0
        ≡ returned (ok (record { ciphertext = sealed; wrapped_dek = wrapped }))
  unfolding encrypt_field_body seal_row
  encrypt_field_body-minted e tenant s wrapped sealed between after first gen enc =
      ground (arith, first, gen, enc)

  -- With a key encryption key of 32 bytes, a tenant id of at most 2^32 bytes and a text of at most
  -- 2^36, an authorised first write of a row is answered with the row.
  pub serve-encrypts_total :
      (now : ℕ) (e : EncryptFieldRequest) (s : State this) (material : Bytes)
      → (w : Authorised this now (encrypts e) s) → e.wrapped_dek ≡ []
      → Software.kek p kek ≡ ok material
      → length material ≡ 32
      → len w.ctx.tenant_id ≤ 2 ^ 32
      → length e.plaintext ≤ 2 ^ 36
      → (reply : EncryptFieldResponse) × ((serve this now (encrypts e) s).0 ≡ returned (ok reply))
  serve-encrypts_total now e s material w first found size short bounded =
      let (wrapped, between, sealed, after, gen, enc, _) =
        envelope_round_trip P h p kek w.ctx.tenant_id material e.plaintext s.held found size short
          bounded in
      (
        record { ciphertext = sealed; wrapped_dek = wrapped },
        ap (λ x. x.0) (serve-body this now (encrypts e) s w)
            ∙ encrypt_field_body-minted e w.ctx.tenant_id (charged this now _ w.ctx s) wrapped
                sealed between after first gen enc,
      )
