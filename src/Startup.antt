-- ===== src/Startup.antt =====
-- crypto/src/main.rs: what the process reads and checks before it serves, in the order of the code.
-- `Environment` is what the operating system and other crates answer.
pub mod Serves
pub mod Run
pub mod Announced
use ai_auth.Common.{
  ℕ, Bool, true, false, ◌++◌, List, [], ◌∷◌, Option, none, some, Result, ok, err, ◌>>=◌, map_err,
  ok_or, is_empty, if◌then◌else◌, replicate,
}
use ai_auth.Profile
use ai_auth.Profile.{Profile, refusal_text}
use ai_auth.Provider.{KeyHandle}
use ai_auth.Software
use ai_auth.Software.{SoftwareProvider, Primitives}
use ai_auth.Text.{Str, Bytes, str}

-- `std::env::VarError`
pub data VarError : Type 0 where
  not_present not_unicode : VarError

pub record Environment : Type 1 where
  -- std::env::var
  pub var : Str → Result Str VarError
  -- std::fs::read, with the text of its error
  pub read : Str → Result Bytes Str
  -- `str::parse` of a socket address
  pub SocketAddr : Type 0
  pub parse_addr : Str → Result SocketAddr Str
  -- `{:?}` of a str
  pub debug : Str → Str

-- Why the process ends before it serves: the error that main returns, or a line on stderr and
-- exit code 1.
pub data Fatal : Type 0 where
  returned_error : Str → Fatal
  exited : Str → Fatal

-- What the server is started with.
pub record Started (A : Type 0) : Type 0 where
  pub addr : A
  pub ca : Bytes
  pub cert : Bytes
  pub key : Bytes
  pub profile : Profile
  pub provider : SoftwareProvider
  pub index_key : KeyHandle
  pub kek : KeyHandle

unfoldable pub missing_line : Str → Str
missing_line name =
    str "{\"fatal\":\"missing required environment\",\"var\":\"" ++ name ++ str "\"}\n"

unfoldable pub unreadable_line : Str → Str → Str
unreadable_line path e =
    str "{\"fatal\":\"cannot read credential file\",\"path\":\""
    ++ path
    ++ str "\",\"err\":\""
    ++ e
    ++ str "\"}\n"

unfoldable pub profile_line : Str → Str
profile_line e = str "{\"fatal\":\"invalid profile\",\"detail\":\"" ++ e ++ str "\"}\n"

unfoldable pub refusal_line : Str → Str
refusal_line refusal =
    str "{\"fatal\":\"profile precondition unmet\",\"detail\":\"" ++ refusal ++ str "\"}\n"

unfoldable pub index_key : KeyHandle
index_key = record { id = str "blind-index-v1" }

unfoldable pub kek : KeyHandle
kek = record { id = str "kek-v1" }

-- The provider with the development keys.
unfoldable pub development_provider : SoftwareProvider
development_provider =
    Software.with_key (Software.with_key Software.new index_key (replicate 32 0x5a)) kek
      (replicate 32 0xa5)

module _ (E : Environment) where
  unfoldable pub required_env : Str → Result Str Fatal
  required_env name = elim (E.var name) [
    | ok v ↦ if is_empty v then err (exited (missing_line name)) else ok v
    | err e ↦ err (exited (missing_line name))
  ]

  unfoldable pub must_read : Str → Result Bytes Fatal
  must_read path = map_err (E.read path) λ e. exited (unreadable_line path e)

  -- `must_read(&required_env(name))`
  unfoldable pub credential : Str → Result Bytes Fatal
  credential name = do path ← required_env name; must_read path

  unfoldable pub listen_addr : Result E.SocketAddr Fatal
  listen_addr =
      map_err
        (E.parse_addr (elim (E.var (str "CRYPTO_ADDR")) [ ok v ↦ v | err e ↦ str "0.0.0.0:9090" ]))
        returned_error

  unfoldable pub chosen_profile : Result Profile Fatal
  chosen_profile = elim (E.var (str "AIAUTH_PROFILE")) [
    | ok v ↦ map_err (Profile.parse E.debug v) λ e. exited (profile_line e)
    | err e ↦ ok Profile.default
  ]

  -- `main`, up to the server.
  unfoldable pub start : Primitives → Result (Started E.SocketAddr) Fatal
  start P = do
    addr ← listen_addr
    ca ← credential (str "CRYPTO_CA_FILE")
    cert ← credential (str "CRYPTO_CERT_FILE")
    key ← credential (str "CRYPTO_KEY_FILE")
    profile ← chosen_profile
    _ ←
        map_err (Profile.check profile (Software.attestation P))
          λ refusal. exited (refusal_line (refusal_text refusal))
    ok (record {
      addr = addr;
      ca = ca;
      cert = cert;
      key = key;
      profile = profile;
      provider = development_provider;
      index_key = index_key;
      kek = kek;
    })
