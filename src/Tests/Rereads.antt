-- ===== src/Tests/Rereads.antt =====
-- A row that one run of the guard writes and another reads.
use ai_auth.Common.{◌≡◌, ◌⊎◌, refl, ap, [], ◌∷◌, ok, err, none, some, inr}
use ai_auth.Limits.Float.{nanos}
use ai_auth.Proto.{permission_denied, resource_exhausted}
use ai_auth.Service.Alone.{solo}
use ai_auth.Service.Guard.{Outcome, returned, start}
use ai_auth.Service.Reread.{Reread, Reread-own, Reread-other}
use ai_auth.Service.Runs.{alone}
use ai_auth.Service.Serve.{serve, encrypts, decrypts}
use ai_auth.Service.Threads.{finished}
use ai_auth.Software.{aad, domain_dek_wrap, domain_field}
use ai_auth.Software.Assumptions.{Forgery}
use ai_auth.Tests.Fixtures.{
  clear, clear_open, clear-IsAead, index_key, kek, box, libraries, in_order,
}
use ai_auth.Tests.Rows.{
  g, writer, reader, intruder, write, reply, read, steal, first, second, wrapped, reply-written,
  read-Admits, steal-Admits, a-IsStr, b-IsStr, b-ne-a,
}
use ai_auth.Text.{str}

read-opened :
    (serve g 9 (decrypts read) second).0 ≡ returned (ok (record { plaintext = 1 ∷ 2 ∷ [] }))
unfolding serve ai_auth.Service.Handlers.encrypt_field ai_auth.Service.Handlers.decrypt_field
    ai_auth.Service.Guard.gated ai_auth.Context.validate str ai_auth.Proto.Purpose.Purpose-discrete
    ai_auth.Proto.Purpose.from_i32 ai_auth.Service.Guard.within_limits ai_auth.Limits.allow
    ai_auth.Limits.charge_global ai_auth.Limits.take_token ai_auth.Limits.or_insert
    ai_auth.HashMap.lookup start ai_auth.Limits.default_limiter ai_auth.Limits.charge_tenant
    ai_auth.Limits.make_room ai_auth.Service.Handlers.encrypt_field_body
    ai_auth.Service.Handlers.seal_row ai_auth.Software.generate_wrapped_dek ai_auth.Software.kek
    ai_auth.Provider.KeyHandle-discrete ai_auth.Text.Str-discrete ai_auth.Common.ℕ_discrete
    ai_auth.Software.aead_seal ai_auth.Software.encrypt_field ai_auth.Software.unwrap_dek
    ai_auth.Software.aead_open clear_open aad domain_dek_wrap domain_field
    ai_auth.Words.u64_to_be_bytes ai_auth.Text.as_bytes ai_auth.Service.Handlers.decrypt_field_body
    ai_auth.Software.decrypt_field
read-opened = refl

steal-refused :
    (serve g 9 (decrypts steal) second).0
    ≡ returned (err (permission_denied (str "not available for this context")))
unfolding serve ai_auth.Service.Handlers.encrypt_field ai_auth.Service.Handlers.decrypt_field
    ai_auth.Service.Guard.gated ai_auth.Context.validate str ai_auth.Proto.Purpose.Purpose-discrete
    ai_auth.Proto.Purpose.from_i32 ai_auth.Service.Guard.within_limits ai_auth.Limits.allow
    ai_auth.Limits.charge_global ai_auth.Limits.take_token ai_auth.Limits.or_insert
    ai_auth.HashMap.lookup start ai_auth.Limits.default_limiter ai_auth.Limits.charge_tenant
    ai_auth.Limits.make_room ai_auth.Service.Handlers.encrypt_field_body
    ai_auth.Service.Handlers.seal_row ai_auth.Software.generate_wrapped_dek ai_auth.Software.kek
    ai_auth.Provider.KeyHandle-discrete ai_auth.Text.Str-discrete ai_auth.Common.ℕ_discrete
    ai_auth.Software.aead_seal ai_auth.Software.encrypt_field ai_auth.Software.unwrap_dek
    ai_auth.Software.aead_open clear_open aad domain_dek_wrap domain_field
    ai_auth.Words.u64_to_be_bytes ai_auth.Text.as_bytes ai_auth.Service.Handlers.decrypt_field_body
    ai_auth.Software.decrypt_field ai_auth.Service.Handlers.refuse ai_auth.Service.Guard.fail
    ai_auth.Service.Guard.fail_status
steal-refused = refl

abbrev own : Reread clear clear-IsAead box nanos in_order libraries index_key kek
own = record {
  s = first;
  clock = 0;
  u =
      alone g 0 (serve g 0 (encrypts write) first).1 (encrypts write)
        (finished (serve g 0 (encrypts write) first).0);
  run = solo g 0 (encrypts write) first;
  before = [];
  after = [];
  e = write;
  row = reply;
  written = ap (λ o. record { request = encrypts write; stage = finished o } ∷ []) reply-written;
  writer = writer;
  from = refl;
  first = refl;
  s' = second;
  clock' = 9;
  u' =
      alone g 9 (serve g 9 (decrypts read) second).1 (decrypts read)
        (finished (serve g 9 (decrypts read) second).0);
  run' = solo g 9 (decrypts read) second;
  before' = [];
  after' = [];
  d = read;
  answer = ok (record { plaintext = 1 ∷ 2 ∷ [] });
  read = ap (λ o. record { request = decrypts read; stage = finished o } ∷ []) read-opened;
  reader = reader;
  by = refl;
  admitted = read-Admits;
  dek = refl;
}

abbrev theft : Reread clear clear-IsAead box nanos in_order libraries index_key kek
theft = record own {
  u' =
      alone g 9 (serve g 9 (decrypts steal) second).1 (decrypts steal)
        (finished (serve g 9 (decrypts steal) second).0);
  run' = solo g 9 (decrypts steal) second;
  d = steal;
  answer = err (permission_denied (str "not available for this context"));
  read = ap (λ o. record { request = decrypts steal; stage = finished o } ∷ []) steal-refused;
  reader = intruder;
  by = refl;
  admitted = steal-Admits;
  dek = refl;
}

Reread-own_example :
    (own.answer ≡ ok (record { plaintext = 1 ∷ 2 ∷ [] }))
    ⊎ (own.answer ≡ err (resource_exhausted (str "operation budget exceeded")))
unfolding str
Reread-own_example =
    Reread-own clear clear-IsAead box nanos in_order libraries index_key kek own refl refl

Reread-other_example :
    (theft.answer ≡ err (permission_denied (str "not available for this context")))
    ⊎ ((theft.answer ≡ err (resource_exhausted (str "operation budget exceeded")))
        ⊎ Forgery clear (aad domain_dek_wrap (str "a")) (aad domain_dek_wrap (str "b")) wrapped)
Reread-other_example =
    Reread-other clear clear-IsAead box nanos in_order libraries index_key kek theft a-IsStr b-IsStr
      b-ne-a
