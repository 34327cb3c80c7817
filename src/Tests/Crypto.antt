-- ===== src/Tests/Crypto.antt =====
-- The software provider, the audit record and the profiles on concrete inputs.
use ai_auth.Common.{
  ℕ, ◌+◌, ◌≤◌, ◌<◌, ◌^◌, ◌≡◌, ◌≢◌, ◌↔◌, ◌⊎◌, refl, ap, get_or, false, true, ◌++◌, List, [], ◌∷◌,
  none, some, ok, err, length, replicate, arith, All,
}
use ai_auth.Profile
use ai_auth.Profile.{regulated, balanced}
use ai_auth.Profile.Parse.{parse_iff}
use ai_auth.Provider.{decrypt}
use ai_auth.Proto.{RequestContext}
use ai_auth.Service.Audit.{Reports}
use ai_auth.Service.Record.{key_op}
use ai_auth.Service.Serve.{Request, indexes, serve}
use ai_auth.Tests.Requests.{g, first}
use ai_auth.Service.Forge.{forged_tenant, serve-forged}
use ai_auth.Software.{
  aad, domain_dek_wrap, domain_field, index_parts, generate_wrapped_dek, encrypt_field,
  decrypt_field, blind_index, attestation,
}
use ai_auth.Software.Assumptions.{Collision}
use ai_auth.Software.Frame.{concat}
use ai_auth.Software.BlindIndex.{blind_index-Collision}
use ai_auth.Text.{Str, Bytes, IsStr, str, len}
use ai_auth.Tests.Fixtures.{clear, clear_seal, clear-IsStreaming, index_key, box}

a-IsStr : IsStr (str "a")
unfolding str
a-IsStr = (omega arith, tt)

b-IsStr : IsStr (str "b")
unfolding str
b-IsStr = (omega arith, tt)

b-ne-a : str "b" ≢ str "a"
unfolding str
b-ne-a h = omega (arith, ap (λ (l : Str). get_or l 0 0) h)

abbrev wrapped : Bytes
wrapped = replicate 12 8 ++ clear_seal (aad domain_dek_wrap (str "a")) (replicate 32 7)

abbrev index : Bytes
index = replicate 32 0x5a ++ concat (index_parts (str "a") (1 ∷ []))

blind_index-Collision_example :
    ((str "a" ≡ str "a") × (◌≡◌ {A = Bytes} (1 ∷ []) (1 ∷ [])))
    ⊎ Collision clear
        (concat (index_parts (str "a") (1 ∷ [])))
        (concat (index_parts (str "a") (1 ∷ [])))
unfolding blind_index ai_auth.HashMap.lookup ai_auth.Provider.KeyHandle-discrete
    ai_auth.Text.Str-discrete str ai_auth.Common.ℕ_discrete ai_auth.Software.updates index_parts
    ai_auth.Text.as_bytes ai_auth.Software.domain_blind_index ai_auth.Words.u64_to_be_bytes
blind_index-Collision_example =
    blind_index-Collision clear clear-IsStreaming box index_key (str "a") (str "a") (1 ∷ [])
      (1 ∷ []) index a-IsStr a-IsStr (omega arith) (omega arith) (omega arith) (omega arith) refl
      refl

abbrev quoted : Str → Str
quoted s = str "\"" ++ s ++ str "\""

parse_iff_example :
    (Profile.parse quoted (str " Regulated\n") ≡ ok regulated)
    ↔ (Profile.to_ascii_lowercase (Profile.trim (str " Regulated\n")) ≡ Profile.as_str regulated)
parse_iff_example = parse_iff quoted (str " Regulated\n") regulated

-- A padded name in any case is trimmed and met.
trimmed : Profile.to_ascii_lowercase (Profile.trim (str " Regulated\n")) ≡ Profile.as_str regulated
unfolding Profile.trim str Profile.as_str Profile.to_ascii_lowercase Profile.trim_start
    Profile.is_whitespace Profile.ascii_lower
trimmed = refl

abbrev forger : RequestContext
forger = record {
  tenant_id = forged_tenant (str "a") (str "r") (str "ok") (str "decrypt_field") (str "b");
  subject_id = [];
  purpose = 4;
  request_id = str "s";
}

abbrev forgery : Request
forgery = indexes (record { context = some forger; input = 1 ∷ [] })

serve-forged_example :
    (outcome : Str) × Reports forgery (serve g 0 forgery first).0 outcome
    × ((serve g 0 forgery first).1.stdout
        ≡ first.stdout
          ++ (key_op (str "blind_index") (str "a") (str "r") (str "ok")
              ++ key_op (str "decrypt_field") (str "b") (str "s") outcome))
serve-forged_example =
    serve-forged g 0 forgery first forger (str "a") (str "r") (str "ok") (str "decrypt_field")
      (str "b") refl refl
