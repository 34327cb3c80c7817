-- ===== src/Service/Reread.antt =====
-- Reading rows back under concurrent requests, with the software provider behind the service.
use ai_auth.Common.{
  refl, ◌≡◌, ◌≢◌, ◌⊎◌, inl, inr, ℕ, sym, subst, ◌∙◌, [], List, ◌∷◌, ◌++◌, some, Result, ok, err,
}
use ai_auth.Limits.{Key, Bucket}
use ai_auth.Limits.Float.{F64}
use ai_auth.Proto.{
  RequestContext, Status, permission_denied, resource_exhausted, EncryptFieldRequest,
  EncryptFieldResponse, DecryptFieldRequest, DecryptFieldResponse,
}
use ai_auth.Provider.{KeyHandle}
use ai_auth.Service.Answers.{Admitted}
use ai_auth.Service.Guard.{Guard, State, fail_status}
use ai_auth.Service.Rows.{guard}
use ai_auth.Service.Serve.{encrypts, decrypts}
use ai_auth.Service.Threads.{Thread, System, Reach}
use ai_auth.Service.Vault.{gave, Row, opened, Opened, answer-Opened, answer-Row}
use ai_auth.Software
use ai_auth.Software.{Primitives, domain_dek_wrap, SoftwareProvider}
use ai_auth.Software.Assumptions.{IsAead, Forgery}
use ai_auth.Software.Envelope.{other_tenant_refused, decrypt_field-encrypt_field}
use ai_auth.Text.{Str, Bytes, IsStr, str}
use ai_auth.Webauthn.{Libraries}

module _ (P : Primitives) (h : IsAead P) (p : SoftwareProvider) (floats : F64)
    (iter : List (Key × Bucket floats) → List (Key × Bucket floats)) (libraries : Libraries)
    (index_key kek : KeyHandle) where
  abbrev g : Guard
  g = guard P h p floats iter libraries index_key kek

  opened-own :
      (d : DecryptFieldRequest) (tenant : Str) (text : Bytes) (row : EncryptFieldResponse)
      → Row P h p floats iter libraries index_key kek tenant text row
      → d.wrapped_dek ≡ row.wrapped_dek
      → d.ciphertext ≡ row.ciphertext
      → opened P h p floats iter libraries index_key kek d tenant ≡ ok (record { plaintext = text })
  unfolding opened
  opened-own d tenant text row w dek ct =
      let reads =
        decrypt_field-encrypt_field P h p kek tenant row.wrapped_dek text row.ciphertext w.rng
          w.generated_at w.before w.after w.generated w.sealed in
      rw (dek, ct, opened) (rw (reads, opened) refl)

  opened-other :
      (d : DecryptFieldRequest) (tenant other : Str) (text : Bytes) (row : EncryptFieldResponse)
      → Row P h p floats iter libraries index_key kek tenant text row
      → IsStr tenant
      → IsStr other
      → other ≢ tenant
      → d.wrapped_dek ≡ row.wrapped_dek
      → (opened P h p floats iter libraries index_key kek d other
          ≡ err (permission_denied (str "not available for this context")))
        ⊎ Forgery P
            (Software.aad domain_dek_wrap tenant)
            (Software.aad domain_dek_wrap other)
            row.wrapped_dek
  unfolding opened fail_status
  opened-other d tenant other text row w ht ho differ dek =
      elim (other_tenant_refused P h p kek tenant other row.wrapped_dek d.ciphertext w.rng
        w.generated_at w.rng ht ho differ w.generated) [
          | inr forged ↦ inr forged
          | inl (closed, _) ↦ inl (rw (dek, opened) (rw (closed, opened) refl))
        ]

  -- Two runs of the Guard, or one and the same: in the first a handler has returned a row to a first
  -- write, and in the second a handler has returned an answer to an admitted decryption of that row.
  pub record Reread : Type 0 where
    pub s : State g
    pub clock : ℕ
    pub u : System g
    pub run : Reach g (record { shared = s; clock = clock; threads = [] }) u
    pub before : List (Thread g)
    pub after : List (Thread g)
    pub e : EncryptFieldRequest
    pub row : EncryptFieldResponse
    pub written :
        u.threads
        ≡ before ++ gave P h p floats iter libraries index_key kek (encrypts e) (ok row) ∷ after
    pub writer : RequestContext
    pub from : e.context ≡ some writer
    pub first : e.wrapped_dek ≡ []
    pub s' : State g
    pub clock' : ℕ
    pub u' : System g
    pub run' : Reach g (record { shared = s'; clock = clock'; threads = [] }) u'
    pub before' : List (Thread g)
    pub after' : List (Thread g)
    pub d : DecryptFieldRequest
    pub answer : Result DecryptFieldResponse Status
    pub read :
        u'.threads
        ≡ before' ++ gave P h p floats iter libraries index_key kek (decrypts d) answer ∷ after'
    pub reader : RequestContext
    pub by : d.context ≡ some reader
    pub admitted : Admitted (decrypts d)
    pub dek : d.wrapped_dek ≡ row.wrapped_dek

  module _ (r : Reread) where
    row_of : Row P h p floats iter libraries index_key kek r.writer.tenant_id r.e.plaintext r.row
    row_of =
        answer-Row P h p floats iter libraries index_key kek r.s r.clock r.u r.before r.after r.e
          r.row r.writer r.run r.written r.from r.first

    answer_of :
        Opened P h p floats iter libraries index_key kek r.d r.reader r.by r.admitted r.answer
    answer_of =
        answer-Opened P h p floats iter libraries index_key kek r.d r.reader r.by r.admitted r.s'
          r.clock' r.u' r.before' r.after' r.answer r.run' r.read

    -- However handlers interleave, in the run in which a first write is answered with a row and in
    -- the one that reads it, with a cipher that opens what it seals: an admitted decryption of the row
    -- for its own tenant is answered with its text, or that it is over budget.
    pub Reread-own :
        r.reader.tenant_id ≡ r.writer.tenant_id
        → r.d.ciphertext ≡ r.row.ciphertext
        → (r.answer ≡ ok (record { plaintext = r.e.plaintext }))
          ⊎ (r.answer ≡ err (resource_exhausted (str "operation budget exceeded")))
    Reread-own tenant ct = elim answer_of [
      | inr over ↦ inr over
      | inl same ↦ inl (
          same
          ∙ opened-own r.d r.reader.tenant_id r.e.plaintext r.row
              (subst (λ t. Row P h p floats iter libraries index_key kek t r.e.plaintext r.row)
                (sym tenant) row_of)
              r.dek ct)
    ]

    -- However handlers interleave, in the run in which a first write is answered with a row and in
    -- the one that reads it, with a cipher that opens what it seals: an admitted decryption under the
    -- row's key for another tenant is answered with an error that does not say why, or that it is
    -- over budget; or the row's wrapped key is a forgery, which opens under the other tenant's
    -- associated data.
    pub Reread-other :
        IsStr r.writer.tenant_id
        → IsStr r.reader.tenant_id
        → r.reader.tenant_id ≢ r.writer.tenant_id
        → (r.answer ≡ err (permission_denied (str "not available for this context")))
          ⊎ ((r.answer ≡ err (resource_exhausted (str "operation budget exceeded")))
              ⊎ Forgery P
                  (Software.aad domain_dek_wrap r.writer.tenant_id)
                  (Software.aad domain_dek_wrap r.reader.tenant_id)
                  r.row.wrapped_dek)
    Reread-other hw hr differ = elim answer_of [
      | inr over ↦ inr (inl over)
      | inl same ↦
          elim (opened-other r.d r.writer.tenant_id r.reader.tenant_id r.e.plaintext r.row row_of hw
            hr differ r.dek) [ inr forged ↦ inr (inr forged) | inl refused ↦ inl (same ∙ refused) ]
    ]
