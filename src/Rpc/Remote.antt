-- ===== src/Rpc/Remote.antt =====
-- The client connected to a server that a Guard stands behind.
use ai_auth.Common.{ℕ, ◌≡◌, ◌≢◌, refl, ap, ◌∙◌, Result, ok}
use ai_auth.Proto.{Status}
use ai_auth.Rpc.{
  Method, verifying, encrypting, decrypting, indexing, Message, Reply, Tonic, service_name,
}
use ai_auth.Wire.{answered}
use ai_auth.Rpc.Client
use ai_auth.Rpc.Client.{CryptoServiceClient}
use ai_auth.Rpc.Routes.{name, path, method, route-path, call-route}
use ai_auth.Rpc.Server
use ai_auth.Rpc.Server.{CryptoService, CryptoServiceServer, call}
use ai_auth.Service.Gate.{serve-ne-panicked}
use ai_auth.Service.Guard.{Guard, State, Outcome, returned, panicked}
use ai_auth.Service.Handlers
use ai_auth.Service.Serve.{serve, verifies, encrypts, decrypts, indexes}
use ai_auth.Text.{str}

-- `impl CryptoService for Guard`, at the time of the call.
abbrev pub guard_service : (g : Guard) → ℕ → CryptoService (State g)
guard_service g now = record {
  verify_assertion = Handlers.verify_assertion g now;
  encrypt_field = Handlers.encrypt_field g now;
  decrypt_field = Handlers.decrypt_field g now;
  blind_index = Handlers.blind_index g now;
}

pub method-ne-panicked :
    (g : Guard) (now : ℕ) (m : Method) (q : Message m) (s : State g)
    → (method (guard_service g now) m q s).0 ≢ panicked
unfolding serve
method-ne-panicked g now verifying q s = serve-ne-panicked g now (verifies q) s
method-ne-panicked g now encrypting q s = serve-ne-panicked g now (encrypts q) s
method-ne-panicked g now decrypting q s = serve-ne-panicked g now (decrypts q) s
method-ne-panicked g now indexing q s = serve-ne-panicked g now (indexes q) s

returns : {A : Type 0} (o : Outcome A) → o ≢ panicked → (r : Result A Status) × (o ≡ returned r)
returns (returned r) n = (r, refl)
returns panicked n = absurd (n refl)

module _ (T : Tonic) {S : Type 0} where
  -- A client whose transport hands each request to a server.
  abbrev pub connected : T.Grpc → CryptoServiceServer T S → CryptoServiceClient T S
  connected grpc server = record {
    grpc = grpc;
    channel = record { ready = λ s. ok tt; transport = call T server };
  }

  -- The client's call of a method.
  abbrev pub invoke :
      (m : Method) → CryptoServiceClient T S → Message m → S → Result (Reply m) Status × S
  invoke verifying = Client.verify_assertion T
  invoke encrypting = Client.encrypt_field T
  invoke decrypting = Client.decrypt_field T
  invoke indexing = Client.blind_index T

  -- A message and the answers to it pass between the client and the server.
  pub record Carries (grpc : T.Grpc) (server : CryptoServiceServer T S) (m : Method) (q : Message m)
      (s : S) : Type 0 where
    pub body : T.Body
    pub sent : T.send m grpc (service_name, name m) q ≡ ok body
    pub read :
        T.read m server.accept_compression_encodings server.max_decoding_message_size body ≡ ok q
    pub received :
        (r : Result (Reply m) Status)
        → (method server.inner m q s).0 ≡ returned r
        → T.receive m grpc
            (T.write m server.send_compression_encodings server.max_encoding_message_size r)
          ≡ r

  invoke-unary :
      (m : Method) (c : CryptoServiceClient T S) (q : Message m) (s : S)
      → invoke m c q s ≡ Client.unary T m c (path m) (service_name, name m) q s
  unfolding Client.verify_assertion Client.encrypt_field Client.decrypt_field Client.blind_index
      service_name str
  invoke-unary verifying c q s = refl
  invoke-unary encrypting c q s = refl
  invoke-unary decrypting c q s = refl
  invoke-unary indexing c q s = refl

  module _ (grpc : T.Grpc) (server : CryptoServiceServer T S) (m : Method) (q : Message m) (s : S)
      (w : Carries grpc server m q s) (r : Result (Reply m) Status) (s' : S)
      (local : method server.inner m q s ≡ (returned r, s')) where
    unary-returned : Server.unary T m server (method server.inner m) w.body s ≡ (
      answered (T.write m server.send_compression_encodings server.max_encoding_message_size r),
      s',
    )
    unfolding Server.unary
    unary-returned = rw (w.read, Server.unary) (rw local (rw local refl))

    wire : call T server (path m) w.body s ≡ (
      answered (T.write m server.send_compression_encodings server.max_encoding_message_size r),
      s',
    )
    wire = call-route T server m (path m) w.body s (route-path m) ∙ unary-returned

    pub invoke-returned : invoke m (connected grpc server) q s ≡ (r, s')
    unfolding Client.unary
    invoke-returned =
        invoke-unary m (connected grpc server) q s
        ∙ rw (w.sent, Client.unary)
            (rw wire (rw wire (ap (λ x. (x, s')) (w.received r (ap (λ x. x.0) local)))))

-- Where the message and its answer are carried, a call of any of the client's methods over the
-- wire is a call of the Guard's handler: it has the handler's answer, reply or status, and leaves
-- the Guard in the state that the handler does.
pub invoke_guard :
    (T : Tonic) (g : Guard) (now : ℕ) (grpc : T.Grpc) (server : CryptoServiceServer T (State g))
    (m : Method) (q : Message m) (s : State g)
    → server.inner ≡ guard_service g now
    → Carries T grpc server m q s
    → (r : Result (Reply m) Status) × (method (guard_service g now) m q s).0 ≡ returned r
      × invoke T m (connected T grpc server) q s ≡ (r, (method (guard_service g now) m q s).1)
invoke_guard T g now grpc server m q s same w =
    let (r, h) = returns _ (method-ne-panicked g now m q s) in
    (
      r,
      h,
      invoke-returned T grpc server m q s w r _
          (ap (λ i. method i m q s) same ∙ ap (λ o. (o, (method (guard_service g now) m q s).1)) h),
    )
