-- ===== src/Risk/Routes.antt =====
-- Which paths the server of the risk service answers.
use ai_auth.Common.{◌≡◌, refl, ◌++◌, ◌⊎◌, some, arith}
use ai_auth.Risk.{Method, scoring, Tonic, service_name}
use ai_auth.Risk.Server.{RiskServiceServer, route, call, score_arm}
use ai_auth.Text.{Str, str, Str-discrete}
use ai_auth.Wire.{Answered, answered}

-- The service's name and the method's after slashes.
abbrev pub path : Str
path = str "/" ++ service_name ++ str "/" ++ str "Score"

pub route-path : route path ≡ some scoring
unfolding route service_name str Str-discrete ai_auth.Common.ℕ_discrete
route-path = refl

module _ {f64 : Type 0} (T : Tonic f64) where
  -- The response with gRPC's status 12 and content type, and without a body.
  abbrev pub not_implemented : T.HttpResponse
  not_implemented =
      T.insert (T.insert T.empty_response (str "grpc-status") (str "12")) (str "content-type")
        (str "application/grpc")

module _ {f64 : Type 0} (T : Tonic f64) {S : Type 0} where
  -- What a call of the server comes to: the arm of `Score`, or the unimplemented response with the
  -- state as it was.
  abbrev pub Dispatched :
      RiskServiceServer T S → Str → T.Body → S → Answered T.HttpResponse × S → Type 0
  Dispatched server p body s r =
      ((p ≡ path) × (r ≡ score_arm T server body s))
      ⊎ ((¬ (p ≡ path)) × (r ≡ (answered (not_implemented T), s)))

  pub call-route :
      (server : RiskServiceServer T S) (p : Str) (body : T.Body) (s : S) (m : Method)
      → route p ≡ some m
      → call T server p body s ≡ score_arm T server body s
  unfolding call
  call-route server p body s scoring h = ground (arith, h)
