-- ===== src/Service/Handlers.antt =====
-- crypto/src/service.rs: the four handlers of the service.
use ai_auth.Common.{ℕ, true, false, ◌++◌, [], Option, some, ok, err, is_empty, if◌then◌else◌}
use ai_auth.Proto.{
  RequestContext, invalid_argument, internal, VerifyAssertionRequest, VerifyAssertionResponse,
  EncryptFieldRequest, EncryptFieldResponse, DecryptFieldRequest, DecryptFieldResponse,
  BlindIndexRequest, BlindIndexResponse, StoredCredential, Assertion,
}
use ai_auth.Proto.Purpose
use ai_auth.Proto.Verdict
use ai_auth.Provider.{ProviderError, display}
use ai_auth.Text.{Str, Bytes, str}
use ai_auth.Webauthn.{Expectations, verify, code}
use ai_auth.Service.Guard.{Guard, State, returned, Handler, audit, error_line, fail, gated}

module _ (g : Guard) where
  unfoldable pub refuse : {A : Type 0} → Str → Option RequestContext → ProviderError → Handler g A
  refuse op ctx e s = let (status, s') = fail g op ctx e s in (returned (err status), s')

  -- The answer to an assertion: a rejection is a reply too, with the stored count.
  unfoldable pub verdict_of :
      Expectations → StoredCredential → Assertion → VerifyAssertionResponse × Str
  verdict_of exp cred a =
      elim (verify g.libraries exp cred.cose_public_key a.authenticator_data a.client_data_json
        a.signature) [
          | ok v ↦ (
            record {
              verdict = Verdict.as_i32 Verdict.verified;
              reason = [];
              new_sign_count = v.new_sign_count;
            },
            str "verified",
          )
          | err rejection ↦ (
            record {
              verdict = Verdict.as_i32 Verdict.rejected;
              reason = code rejection;
              new_sign_count = cred.sign_count;
            },
            code rejection,
          )
        ]

  unfoldable pub verify_assertion_body :
      VerifyAssertionRequest
      → Option StoredCredential
      → Option Assertion
      → Handler g VerifyAssertionResponse
  verify_assertion_body msg (some cred) (some a) s =
      let exp : Expectations = record {
        rp_id = msg.rp_id;
        origin = msg.expected_origin;
        challenge = msg.expected_challenge;
        stored_sign_count = cred.sign_count;
      } in
      let (response, outcome) = verdict_of exp cred a in
      (returned (ok response), audit g (str "verify_assertion") msg.context outcome s)
  verify_assertion_body msg _ _ s = (
    returned (err (invalid_argument (str "credential and assertion are required"))),
    audit g (str "verify_assertion") msg.context (str "rejected") s,
  )

  unfoldable pub verify_assertion : ℕ → VerifyAssertionRequest → Handler g VerifyAssertionResponse
  verify_assertion now msg =
      gated g now (str "verify_assertion") Purpose.passkey_login false msg.context
        λ tenant s. verify_assertion_body msg msg.credential msg.assertion s

  unfoldable pub seal_row :
      Option RequestContext → Str → Bytes → Bytes → Handler g EncryptFieldResponse
  seal_row ctx tenant wrapped plaintext s =
      let (sealed, held) = g.provider.encrypt_field g.kek tenant wrapped plaintext s.held in
      let s' : State g = record s { held = held } in
      elim sealed [
        | ok ciphertext ↦ (
          returned (ok (record { ciphertext = ciphertext; wrapped_dek = wrapped })),
          audit g (str "encrypt_field") ctx (str "ok") s',
        )
        | err e ↦ refuse (str "encrypt_field") ctx e s'
      ]

  -- An empty wrapped key means the first write of a row: one is minted.
  unfoldable pub encrypt_field_body : EncryptFieldRequest → Str → Handler g EncryptFieldResponse
  encrypt_field_body msg tenant s =
      if is_empty msg.wrapped_dek
      then (let (minted, held) = g.provider.generate_wrapped_dek g.kek tenant s.held in
          let s' : State g = record s { held = held } in
          elim minted [
            | ok wrapped ↦ seal_row msg.context tenant wrapped msg.plaintext s'
            | err e ↦ refuse (str "encrypt_field") msg.context e s'
          ])
      else seal_row msg.context tenant msg.wrapped_dek msg.plaintext s

  unfoldable pub encrypt_field : ℕ → EncryptFieldRequest → Handler g EncryptFieldResponse
  encrypt_field now msg =
      gated g now (str "encrypt_field") Purpose.row_encrypt true msg.context
        λ tenant s. encrypt_field_body msg tenant s

  unfoldable pub decrypt_field_body : DecryptFieldRequest → Str → Handler g DecryptFieldResponse
  decrypt_field_body msg tenant s =
      let (opened, held) =
        g.provider.decrypt_field g.kek tenant msg.wrapped_dek msg.ciphertext s.held in
      let s' : State g = record s { held = held } in
      elim opened [
        | ok plaintext ↦ (
          returned (ok (record { plaintext = plaintext })),
          audit g (str "decrypt_field") msg.context (str "ok") s',
        )
        | err e ↦ refuse (str "decrypt_field") msg.context e s'
      ]

  unfoldable pub decrypt_field : ℕ → DecryptFieldRequest → Handler g DecryptFieldResponse
  decrypt_field now msg =
      gated g now (str "decrypt_field") Purpose.row_decrypt true msg.context
        λ tenant s. decrypt_field_body msg tenant s

  unfoldable pub blind_index_body : BlindIndexRequest → Str → Handler g BlindIndexResponse
  blind_index_body msg tenant s =
      let (indexed, held) = g.provider.blind_index g.index_key tenant msg.input s.held in
      let s' : State g = record s { held = held } in
      elim indexed [
        | ok index ↦ (
          returned (ok (record { index = index })),
          audit g (str "blind_index") msg.context (str "ok") s',
        )
        | err e ↦
            let logged = audit g (str "blind_index") msg.context (str "backend_error") s' in
            (
              returned (err (internal (str "blind index unavailable"))),
              record logged {
                stderr = logged.stderr ++ error_line (str "blind_index backend") (display e);
              },
            )
      ]

  unfoldable pub blind_index : ℕ → BlindIndexRequest → Handler g BlindIndexResponse
  blind_index now msg =
      gated g now (str "blind_index") Purpose.blind_index false msg.context
        λ tenant s. blind_index_body msg tenant s
