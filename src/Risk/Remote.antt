-- ===== src/Risk/Remote.antt =====
-- The client of the risk service connected to its server, over any implementation of the trait.
use ai_auth.Common.{◌≡◌, refl, ap, ◌∙◌, Result, ok, err}
use ai_auth.Proto.{Status}
use ai_auth.Risk.{scoring, ScoreRequest, ScoreResponse, Tonic, service_name}
use ai_auth.Risk.Client.{RiskServiceClient, score}
use ai_auth.Risk.Routes.{route-path, call-route, path}
use ai_auth.Risk.Server.{RiskServiceServer, call, score_arm}
use ai_auth.Service.Guard.{Outcome, returned, panicked}
use ai_auth.Text.{str}
use ai_auth.Wire.{Answered, answered, cut_off}

module _ {f64 : Type 0} (T : Tonic f64) where
  -- What the caller hears of an outcome.
  abbrev pub heard : Outcome (ScoreResponse f64) → Result (ScoreResponse f64) Status
  heard (returned r) = r
  heard panicked = err T.broken

module _ {f64 : Type 0} (T : Tonic f64) {S : Type 0} where
  -- A client whose transport hands each request to a server.
  abbrev pub connected : T.Grpc → RiskServiceServer T S → RiskServiceClient T S
  connected grpc server = record {
    grpc = grpc;
    channel = record { ready = λ s. ok tt; transport = call T server };
  }

  -- A message and the answers to it pass between the client and the server.
  pub record Carries (grpc : T.Grpc) (server : RiskServiceServer T S) (q : ScoreRequest) (s : S)
      : Type 0 where
    pub body : T.Body
    pub sent : T.send scoring grpc (service_name, str "Score") q ≡ ok body
    pub read :
        T.read scoring server.accept_compression_encodings server.max_decoding_message_size body
        ≡ ok q
    pub received :
        (r : Result (ScoreResponse f64) Status)
        → (server.inner.score q s).0 ≡ returned r
        → T.receive scoring grpc
            (T.write scoring server.send_compression_encodings server.max_encoding_message_size r)
          ≡ r

  module _ (grpc : T.Grpc) (server : RiskServiceServer T S) (q : ScoreRequest) (s : S)
      (w : Carries grpc server q s) where
    -- The answer that goes back for an outcome.
    abbrev sent_back : Outcome (ScoreResponse f64) → Answered T.HttpResponse
    sent_back (returned r) =
        answered
          (T.write scoring server.send_compression_encodings server.max_encoding_message_size r)
    sent_back panicked = cut_off

    arm :
        (o : Outcome (ScoreResponse f64)) (s' : S)
        → server.inner.score q s ≡ (o, s')
        → score_arm T server w.body s ≡ (sent_back o, s')
    unfolding score_arm
    arm (returned r) s' h = rw (w.read, score_arm) (rw h (rw h refl))
    arm panicked s' h = rw (w.read, score_arm) (rw h (rw h refl))

    wire :
        (o : Outcome (ScoreResponse f64)) (s' : S)
        → server.inner.score q s ≡ (o, s')
        → call T server path w.body s ≡ (sent_back o, s')
    wire o s' h = call-route T server path w.body s scoring route-path ∙ arm o s' h

    heard-score :
        (o : Outcome (ScoreResponse f64)) (s' : S)
        → server.inner.score q s ≡ (o, s')
        → score T (connected grpc server) q s ≡ (heard T o, s')
    unfolding score service_name str
    heard-score (returned r) s' h =
        rw (w.sent, score)
          (rw (wire (returned r) s' h)
            (rw (wire (returned r) s' h) (ap (λ x. (x, s')) (w.received r (ap (λ x. x.0) h)))))
    heard-score panicked s' h =
        rw (w.sent, score) (rw (wire panicked s' h) (rw (wire panicked s' h) refl))

-- Where the message and its answer are carried, a call of the client is one call of the server's
-- implementation: the caller hears its answer, or a broken connection where it panics, and its
-- state is as it leaves it.
pub score_remote :
    {f64 : Type 0} (T : Tonic f64) {S : Type 0} (grpc : T.Grpc) (server : RiskServiceServer T S)
    (q : ScoreRequest) (s : S)
    → Carries T grpc server q s
    → score T (connected T grpc server) q s
      ≡ (heard T (server.inner.score q s).0, (server.inner.score q s).1)
score_remote T grpc server q s w = heard-score T grpc server q s w _ _ refl
