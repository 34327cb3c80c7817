-- ===== src/Risk.antt =====
-- crypto/src/gen/aiauth/risk/v1: the messages of aiauth.risk.v1.rs, over a type of floats, and what
-- the client and the server of aiauth.risk.v1.tonic.rs share.
pub mod Band
pub mod Names
pub mod Server
pub mod Client
pub mod Routes
pub mod Remote
use ai_auth.Common.{ℕ, Option, List}
use ai_auth.Text.{Str, str}
use ai_auth.Wire.{Wire}

pub record Reason (f64 : Type 0) : Type 0 where
  pub code : Str
  pub detail : Str
  pub weight : f64

-- `band` is the 32-bit pattern of an i32.
pub record RiskAssessment (f64 : Type 0) : Type 0 where
  pub score : f64
  pub band : ℕ
  pub reasons : List (Reason f64)
  pub model_version : Str
  pub assessed_at_unix_ms : ℕ

pub record ScoreResponse (f64 : Type 0) : Type 0 where
  pub assessment : Option (RiskAssessment f64)

pub record ScoreRequest : Type 0 where
  pub tenant_id : Str
  pub subject_id : Str
  pub request_id : Str
  pub client_ip : Str
  pub user_agent : Str
  pub device_fingerprint : Str
  pub attempted_at_unix_ms : ℕ
  pub country_code : Str

-- The one method of the service.
pub data Method : Type 0 where
  scoring : Method

abbrev pub Message : Method → Type 0
Message scoring = ScoreRequest

abbrev pub Reply : Type 0 → Method → Type 0
Reply f64 scoring = ScoreResponse f64

-- The wire of this service.
abbrev pub Tonic : Type 0 → Type 1
Tonic f64 = Wire Message (Reply f64)

unfoldable pub service_name : Str
service_name = str "aiauth.risk.v1.RiskService"
