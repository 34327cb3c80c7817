-- ===== src/Tests/Rows.antt =====
-- Rows and requests at a running guard.
use ai_auth.Software.Assumptions.{Forgery}
use ai_auth.Common.{
  ◌⊎◌, ℕ, ◌≡◌, ◌≢◌, refl, inl, inr, true, false, ◌++◌, List, [], ◌∷◌, none, some, ok, err, ap,
  get_or, replicate, arith,
}
use ai_auth.Proto.{
  RequestContext, permission_denied, EncryptFieldRequest, EncryptFieldResponse, DecryptFieldRequest,
}
use ai_auth.Limits.Float.{nanos}
use ai_auth.Software.{aad, domain_dek_wrap, domain_field}
use ai_auth.Service.Guard.{Guard, State, start, returned}
use ai_auth.Context.Gate.{Admits}
use ai_auth.Proto.Purpose.{row_decrypt}
use ai_auth.Service.Gate.{Authorised}
use ai_auth.Service.Progress.{serve-encrypts_total}
use ai_auth.Service.Rows.{guard, serve-decrypts-encrypts, serve-decrypts_other}
use ai_auth.Service.Serve.{serve, encrypts, decrypts}
use ai_auth.Text.{Str, Bytes, IsStr, str}
use ai_auth.Tests.Fixtures.{
  clear, clear_seal, clear_open, clear-IsAead, index_key, kek, box, libraries, in_order,
}

abbrev pub g : Guard
g = guard clear clear-IsAead box nanos in_order libraries index_key kek

abbrev pub writer : RequestContext
writer = record { tenant_id = str "a"; subject_id = str "u"; purpose = 2; request_id = str "r" }

abbrev pub reader : RequestContext
reader = record { tenant_id = str "a"; subject_id = str "v"; purpose = 3; request_id = str "s" }

abbrev pub intruder : RequestContext
intruder = record { tenant_id = str "b"; subject_id = str "v"; purpose = 3; request_id = str "s" }

abbrev pub wrapped : Bytes
wrapped = replicate 12 8 ++ clear_seal (aad domain_dek_wrap (str "a")) (replicate 32 7)

abbrev pub sealed : Bytes
sealed = replicate 12 9 ++ clear_seal (aad domain_field (str "a")) (1 ∷ 2 ∷ [])

abbrev pub write : EncryptFieldRequest
write = record { context = some writer; plaintext = 1 ∷ 2 ∷ []; wrapped_dek = [] }

abbrev pub reply : EncryptFieldResponse
reply = record { ciphertext = sealed; wrapped_dek = wrapped }

abbrev pub read : DecryptFieldRequest
read = record { context = some reader; ciphertext = sealed; wrapped_dek = wrapped }

abbrev pub steal : DecryptFieldRequest
steal = record { context = some intruder; ciphertext = sealed; wrapped_dek = wrapped }

abbrev pub first : State g
first = start g 7

abbrev pub second : State g
second = start g 10

pub reply-written : (serve g 0 (encrypts write) first).0 ≡ returned (ok reply)
unfolding serve ai_auth.Service.Handlers.encrypt_field ai_auth.Service.Handlers.decrypt_field
    ai_auth.Service.Guard.gated ai_auth.Context.validate str ai_auth.Proto.Purpose.Purpose-discrete
    ai_auth.Proto.Purpose.from_i32 ai_auth.Service.Guard.within_limits ai_auth.Limits.allow
    ai_auth.Limits.charge_global ai_auth.Limits.take_token ai_auth.Limits.or_insert
    ai_auth.HashMap.lookup start ai_auth.Limits.default_limiter ai_auth.Limits.charge_tenant
    ai_auth.Limits.make_room ai_auth.Service.Handlers.encrypt_field_body
    ai_auth.Service.Handlers.seal_row ai_auth.Software.generate_wrapped_dek ai_auth.Software.kek
    ai_auth.Provider.KeyHandle-discrete ai_auth.Text.Str-discrete ai_auth.Common.ℕ_discrete
    ai_auth.Software.aead_seal ai_auth.Software.encrypt_field ai_auth.Software.unwrap_dek
    ai_auth.Software.aead_open clear_open aad domain_dek_wrap domain_field
    ai_auth.Words.u64_to_be_bytes ai_auth.Text.as_bytes
reply-written = refl

cons-ne-nil : {A : Type 0} (x : A) (l : List A) → (x ∷ l) ≢ []
cons-ne-nil x l h = cc

pub read-Admits : Admits reader row_decrypt true
unfolding ai_auth.Proto.Purpose.from_i32 str
read-Admits = record {
  request = cons-ne-nil _ _;
  tenant = cons-ne-nil _ _;
  subject = inr (cons-ne-nil _ _);
  purpose = refl;
}

pub steal-Admits : Admits intruder row_decrypt true
unfolding ai_auth.Proto.Purpose.from_i32 str
steal-Admits = record {
  request = cons-ne-nil _ _;
  tenant = cons-ne-nil _ _;
  subject = inr (cons-ne-nil _ _);
  purpose = refl;
}

read-Authorised : Authorised g 9 (decrypts read) second
unfolding serve ai_auth.Service.Handlers.encrypt_field ai_auth.Service.Handlers.decrypt_field
    ai_auth.Service.Guard.gated ai_auth.Context.validate str ai_auth.Proto.Purpose.Purpose-discrete
    ai_auth.Proto.Purpose.from_i32 ai_auth.Service.Guard.within_limits ai_auth.Limits.allow
    ai_auth.Limits.charge_global ai_auth.Limits.take_token ai_auth.Limits.or_insert
    ai_auth.HashMap.lookup start ai_auth.Limits.default_limiter ai_auth.Limits.charge_tenant
    ai_auth.Limits.make_room ai_auth.Service.Handlers.encrypt_field_body
    ai_auth.Service.Handlers.seal_row ai_auth.Software.generate_wrapped_dek ai_auth.Software.kek
    ai_auth.Provider.KeyHandle-discrete ai_auth.Text.Str-discrete ai_auth.Common.ℕ_discrete
    ai_auth.Software.aead_seal ai_auth.Software.encrypt_field ai_auth.Software.unwrap_dek
    ai_auth.Software.aead_open clear_open aad domain_dek_wrap domain_field
    ai_auth.Words.u64_to_be_bytes ai_auth.Text.as_bytes
read-Authorised = record { ctx = reader; present = refl; admits = read-Admits; budgeted = refl }

steal-Authorised : Authorised g 9 (decrypts steal) second
unfolding serve ai_auth.Service.Handlers.encrypt_field ai_auth.Service.Handlers.decrypt_field
    ai_auth.Service.Guard.gated ai_auth.Context.validate str ai_auth.Proto.Purpose.Purpose-discrete
    ai_auth.Proto.Purpose.from_i32 ai_auth.Service.Guard.within_limits ai_auth.Limits.allow
    ai_auth.Limits.charge_global ai_auth.Limits.take_token ai_auth.Limits.or_insert
    ai_auth.HashMap.lookup start ai_auth.Limits.default_limiter ai_auth.Limits.charge_tenant
    ai_auth.Limits.make_room ai_auth.Service.Handlers.encrypt_field_body
    ai_auth.Service.Handlers.seal_row ai_auth.Software.generate_wrapped_dek ai_auth.Software.kek
    ai_auth.Provider.KeyHandle-discrete ai_auth.Text.Str-discrete ai_auth.Common.ℕ_discrete
    ai_auth.Software.aead_seal ai_auth.Software.encrypt_field ai_auth.Software.unwrap_dek
    ai_auth.Software.aead_open clear_open aad domain_dek_wrap domain_field
    ai_auth.Words.u64_to_be_bytes ai_auth.Text.as_bytes
steal-Authorised = record { ctx = intruder; present = refl; admits = steal-Admits; budgeted = refl }

pub a-IsStr : IsStr (str "a")
unfolding str
a-IsStr = (omega arith, tt)

pub b-IsStr : IsStr (str "b")
unfolding str
b-IsStr = (omega arith, tt)

pub b-ne-a : str "b" ≢ str "a"
unfolding str
b-ne-a h = omega (arith, ap (λ (l : Str). get_or l 0 0) h)

serve-decrypts-encrypts_example :
    (serve g 9 (decrypts read) second).0 ≡ returned (ok (record { plaintext = 1 ∷ 2 ∷ [] }))
unfolding str read-Authorised
serve-decrypts-encrypts_example =
    serve-decrypts-encrypts clear clear-IsAead box nanos in_order libraries index_key kek 0 9 write
      read first second reply writer refl refl reply-written read-Authorised refl refl refl

serve-decrypts_other_example :
    ((serve g 9 (decrypts steal) second).0
      ≡ returned (err (permission_denied (str "not available for this context"))))
    ⊎ Forgery clear (aad domain_dek_wrap (str "a")) (aad domain_dek_wrap (str "b")) wrapped
unfolding str steal-Authorised
serve-decrypts_other_example =
    serve-decrypts_other clear clear-IsAead box nanos in_order libraries index_key kek 0 9 write
      steal first second reply writer refl refl reply-written steal-Authorised b-IsStr a-IsStr
      b-ne-a refl

write-Authorised : Authorised g 0 (encrypts write) first
unfolding serve ai_auth.Service.Handlers.encrypt_field ai_auth.Service.Handlers.decrypt_field
    ai_auth.Service.Guard.gated ai_auth.Context.validate str ai_auth.Proto.Purpose.Purpose-discrete
    ai_auth.Proto.Purpose.from_i32 ai_auth.Service.Guard.within_limits ai_auth.Limits.allow
    ai_auth.Limits.charge_global ai_auth.Limits.take_token ai_auth.Limits.or_insert
    ai_auth.HashMap.lookup start ai_auth.Limits.default_limiter ai_auth.Limits.charge_tenant
    ai_auth.Limits.make_room ai_auth.Service.Handlers.encrypt_field_body
    ai_auth.Service.Handlers.seal_row ai_auth.Software.generate_wrapped_dek ai_auth.Software.kek
    ai_auth.Provider.KeyHandle-discrete ai_auth.Text.Str-discrete ai_auth.Common.ℕ_discrete
    ai_auth.Software.aead_seal ai_auth.Software.encrypt_field ai_auth.Software.unwrap_dek
    ai_auth.Software.aead_open clear_open aad domain_dek_wrap domain_field
    ai_auth.Words.u64_to_be_bytes ai_auth.Text.as_bytes
write-Authorised = record {
  ctx = writer;
  present = refl;
  admits = record {
    request = cons-ne-nil _ _;
    tenant = cons-ne-nil _ _;
    subject = inr (cons-ne-nil _ _);
    purpose = refl;
  };
  budgeted = refl;
}

serve-encrypts_total_example :
    (r : EncryptFieldResponse) × ((serve g 0 (encrypts write) first).0 ≡ returned (ok r))
unfolding write-Authorised ai_auth.Software.kek ai_auth.HashMap.lookup
    ai_auth.Provider.KeyHandle-discrete ai_auth.Text.Str-discrete str ai_auth.Common.ℕ_discrete
    ai_auth.Text.as_bytes
serve-encrypts_total_example =
    serve-encrypts_total clear clear-IsAead box nanos in_order libraries index_key kek 0 write first
      (replicate 32 0xa5) write-Authorised refl refl refl (omega arith) (omega arith)
