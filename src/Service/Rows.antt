-- ===== src/Service/Rows.antt =====
-- Rows over the service, with the software provider behind it.
use ai_auth.Common.{
  ◌⊎◌, ℕ, ◌≡◌, ◌≢◌, ap, sym, subst, ◌∙◌, List, [], some, ok, err, arith, Result-cases, inl, inr,
}
use ai_auth.Limits.{Key, Bucket}
use ai_auth.Limits.Float.{F64}
use ai_auth.Proto.{
  RequestContext, permission_denied, EncryptFieldRequest, EncryptFieldResponse, DecryptFieldRequest,
}
use ai_auth.Provider.{KeyHandle, decrypt}
use ai_auth.Service.Begins.{charged}
use ai_auth.Service.Gate.{Authorised, serve-Authorised, serve-body, some-eq}
use ai_auth.Service.Guard.{Guard, State, returned, fail, fail_status}
use ai_auth.Service.Handlers.{encrypt_field_body, seal_row, decrypt_field_body, refuse}
use ai_auth.Service.Serve.{serve, encrypts, decrypts}
use ai_auth.Software
use ai_auth.Software.{Primitives, domain_dek_wrap, SoftwareProvider, software}
use ai_auth.Software.Assumptions.{IsAead, Forgery}
use ai_auth.Software.Envelope.{other_tenant_refused, decrypt_field-encrypt_field}
use ai_auth.Text.{Str, Bytes, IsStr, str}
use ai_auth.Webauthn.{Libraries}

module _ (P : Primitives) (h : IsAead P) (p : SoftwareProvider) (floats : F64)
    (iter : List (Key × Bucket floats) → List (Key × Bucket floats)) (libraries : Libraries)
    (index_key kek : KeyHandle) where
  abbrev pub guard : Guard
  guard = record {
    floats = floats;
    iter = iter;
    libraries = libraries;
    provider = software P p;
    index_key = index_key;
    kek = kek;
  }

  -- A reply to a first write, and the generated key and sealed text in it.
  record Minted (tenant : Str) (text : Bytes) (reply : EncryptFieldResponse) : Type 0 where
    rng : P.Rng
    between : P.Rng
    after : P.Rng
    generated : Software.generate_wrapped_dek P p kek tenant rng ≡ (ok reply.wrapped_dek, between)
    sealed :
        Software.encrypt_field P p kek tenant reply.wrapped_dek text between
        ≡ (ok reply.ciphertext, after)

  encrypt_field_body-Minted :
      (e : EncryptFieldRequest) (tenant : Str) (s : State guard) (reply : EncryptFieldResponse)
      → e.wrapped_dek ≡ []
      → (encrypt_field_body guard e tenant s).0 ≡ returned (ok reply)
      → Minted tenant e.plaintext reply
  unfolding encrypt_field_body seal_row refuse fail
  encrypt_field_body-Minted e tenant s reply first out =
      elim (Result-cases (Software.generate_wrapped_dek P p kek tenant s.held).0) [
        | inr (x, bad) ↦ absurd (ground arith)
        | inl (w, minted) ↦
            elim (Result-cases
              (Software.encrypt_field P p kek tenant w e.plaintext
                (Software.generate_wrapped_dek P p kek tenant s.held).1).0) [
                  | inr (x, bad) ↦ absurd (ground arith)
                  | inl (ct, sealed) ↦ record {
                    rng = s.held;
                    between = (Software.generate_wrapped_dek P p kek tenant s.held).1;
                    after =
                        (Software.encrypt_field P p kek tenant w e.plaintext
                          (Software.generate_wrapped_dek P p kek tenant s.held).1).1;
                    generated = ground arith;
                    sealed = ground arith;
                  }
                ]
      ]

  first_write-Minted :
      (now : ℕ) (e : EncryptFieldRequest) (s : State guard) (reply : EncryptFieldResponse)
      → e.wrapped_dek ≡ []
      → (serve guard now (encrypts e) s).0 ≡ returned (ok reply)
      → (w : Authorised guard now (encrypts e) s) × Minted w.ctx.tenant_id e.plaintext reply
  first_write-Minted now e s reply first out =
      let w = serve-Authorised guard now (encrypts e) s reply out in
      (
        w,
        encrypt_field_body-Minted e w.ctx.tenant_id (charged guard now _ w.ctx s) reply first
            (sym (ap (λ x. x.0) (serve-body guard now (encrypts e) s w)) ∙ out),
      )

  decrypt_field_body-opened :
      (d : DecryptFieldRequest) (tenant : Str) (s : State guard) (text : Bytes)
      → Software.decrypt_field P p kek tenant d.wrapped_dek d.ciphertext ≡ ok text
      → (decrypt_field_body guard d tenant s).0 ≡ returned (ok (record { plaintext = text }))
  unfolding decrypt_field_body
  decrypt_field_body-opened d tenant s text opened = rw (opened, decrypt_field_body)

  decrypt_field_body-refused :
      (d : DecryptFieldRequest) (tenant : Str) (s : State guard)
      → Software.decrypt_field P p kek tenant d.wrapped_dek d.ciphertext ≡ err decrypt
      → (decrypt_field_body guard d tenant s).0
        ≡ returned (err (permission_denied (str "not available for this context")))
  unfolding decrypt_field_body refuse fail fail_status
  decrypt_field_body-refused d tenant s closed = rw (closed, decrypt_field_body)

  -- With a cipher that opens what it seals, a row that a first write sealed is read back, at the
  -- same guard, by every later authorised request of its tenant, whoever the subject and whatever
  -- the state in between.
  pub serve-decrypts-encrypts :
      (now later : ℕ) (e : EncryptFieldRequest) (d : DecryptFieldRequest) (s t : State guard)
      (reply : EncryptFieldResponse) (c : RequestContext)
      → e.context ≡ some c
      → e.wrapped_dek ≡ []
      → (serve guard now (encrypts e) s).0 ≡ returned (ok reply)
      → (r : Authorised guard later (decrypts d) t) → r.ctx.tenant_id ≡ c.tenant_id
      → d.wrapped_dek ≡ reply.wrapped_dek
      → d.ciphertext ≡ reply.ciphertext
      → (serve guard later (decrypts d) t).0 ≡ returned (ok (record { plaintext = e.plaintext }))
  serve-decrypts-encrypts now later e d s t reply c present first out r tenant dek ct =
      let (w, m) = first_write-Minted now e s reply first out in
      let same : w.ctx ≡ c = some-eq (sym w.present ∙ present) in
      let tenants : r.ctx.tenant_id ≡ w.ctx.tenant_id = tenant ∙ ap (λ x. x.tenant_id) (sym same) in
      let opened =
        decrypt_field-encrypt_field P h p kek w.ctx.tenant_id reply.wrapped_dek e.plaintext
          reply.ciphertext m.rng m.between m.between m.after m.generated m.sealed in
      ap (λ x. x.0) (serve-body guard later (decrypts d) t r)
      ∙ decrypt_field_body-opened d r.ctx.tenant_id _ e.plaintext (rw (tenants, dek, ct) opened)

  -- A row that a first write sealed is refused to every authorised request of any other tenant,
  -- with an answer that does not say why; or the row's wrapped key is a forgery, which opens
  -- under the other tenant's associated data.
  pub serve-decrypts_other :
      (now later : ℕ) (e : EncryptFieldRequest) (d : DecryptFieldRequest) (s t : State guard)
      (reply : EncryptFieldResponse) (c : RequestContext)
      → e.context ≡ some c
      → e.wrapped_dek ≡ []
      → (serve guard now (encrypts e) s).0 ≡ returned (ok reply)
      → (r : Authorised guard later (decrypts d) t) → IsStr r.ctx.tenant_id
      → IsStr c.tenant_id
      → r.ctx.tenant_id ≢ c.tenant_id
      → d.wrapped_dek ≡ reply.wrapped_dek
      → ((serve guard later (decrypts d) t).0
          ≡ returned (err (permission_denied (str "not available for this context"))))
        ⊎ Forgery P
            (Software.aad domain_dek_wrap c.tenant_id)
            (Software.aad domain_dek_wrap r.ctx.tenant_id)
            reply.wrapped_dek
  serve-decrypts_other now later e d s t reply c present first out r hr hc differ dek =
      let (w, m) = first_write-Minted now e s reply first out in
      let same : w.ctx ≡ c = some-eq (sym w.present ∙ present) in
      let tenant : w.ctx.tenant_id ≡ c.tenant_id = ap (λ x. x.tenant_id) same in
      elim (other_tenant_refused P h p kek w.ctx.tenant_id r.ctx.tenant_id reply.wrapped_dek
        d.ciphertext m.rng m.between t.held (subst IsStr (sym tenant) hc) hr
        (λ e. differ (e ∙ tenant)) m.generated) [
          | inr forged ↦ inr (rw (sym tenant) forged)
          | inl (closed, _) ↦ inl (
              ap (λ x. x.0) (serve-body guard later (decrypts d) t r)
              ∙ decrypt_field_body-refused d r.ctx.tenant_id _ (rw dek closed))
        ]
