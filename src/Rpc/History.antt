-- ===== src/Rpc/History.antt =====
-- The requests that a sequence of arrivals on the wire brings to the Guard.
use ai_auth.Common.{
  ℕ, ◌≡◌, refl, sym, ap, ◌∙◌, inl, inr, arith, Option, none, some, List, [], ◌∷◌, Result, ok, err,
  Result-cases, Option-cases,
}
use ai_auth.Rpc.{Method, verifying, encrypting, decrypting, indexing, Message, Tonic}
use ai_auth.Rpc.Remote.{guard_service}
use ai_auth.Rpc.Routes.{method, call-route}
use ai_auth.Rpc.Served.{Arrival, at, served, unary-unread, unary-read}
use ai_auth.Rpc.Server
use ai_auth.Rpc.Server.{CryptoServiceServer, call, route}
use ai_auth.Service.Drain.{Incoming}
use ai_auth.Service.Guard.{Guard, State}
use ai_auth.Service.Journal.{attended}
use ai_auth.Service.Serve.{Request, serve, verifies, encrypts, decrypts, indexes}

abbrev pub request : (m : Method) → Message m → Request
request verifying = verifies
request encrypting = encrypts
request decrypting = decrypts
request indexing = indexes

abbrev onto : {A : Type 0} → Option A → List A → List A
onto none l = l
onto (some a) l = a ∷ l

module _ (T : Tonic) (g : Guard) (server : CryptoServiceServer T (State g)) where
  abbrev read_body : (m : Method) → T.Body → Result (Message m) T.HttpResponse
  read_body m body =
      T.read m server.accept_compression_encodings server.max_decoding_message_size body

  abbrev asked : ℕ → (m : Method) → Result (Message m) T.HttpResponse → Option Incoming
  asked now m (err response) = none
  asked now m (ok q) = some (record { now = now; request = request m q })

  abbrev routed : ℕ → T.Body → Option Method → Option Incoming
  routed now body none = none
  routed now body (some m) = asked now m (read_body m body)

  -- The request that an arrival brings, where its path names a method and its body is a message.
  unfoldable pub incoming : Arrival T → Option Incoming
  incoming a = routed a.now a.body (route a.path)

  unfoldable pub requests : List (Arrival T) → List Incoming
  requests [] = []
  requests (a ∷ rest) = onto (incoming a) (requests rest)

  after : Option Incoming → State g → State g
  after none s = s
  after (some i) s = (serve g i.now i.request s).1

  method-serve :
      (now : ℕ) (m : Method) (q : Message m) (s : State g)
      → (method (guard_service g now) m q s).1 ≡ (serve g now (request m q) s).1
  unfolding serve
  method-serve now verifying q s = refl
  method-serve now encrypting q s = refl
  method-serve now decrypting q s = refl
  method-serve now indexing q s = refl

  unary-after :
      (now : ℕ) (m : Method) (body : T.Body) (s : State g)
      → (Server.unary T m (at T g server now) (method (guard_service g now) m) body s).1
        ≡ after (asked now m (read_body m body)) s
  unfolding after
  unary-after now m body s =
      let handle = method (guard_service g now) m in
      let reads = λ (r : Result (Message m) T.HttpResponse). after (asked now m r) s in
      elim (Result-cases (read_body m body)) [
        | inr (response, failed) ↦
            unary-unread T m (at T g server now) handle body s response failed
            ∙ ap reads (sym failed)
        | inl (q, found) ↦
            unary-read T m (at T g server now) handle body s q found
            ∙ method-serve now m q s
            ∙ ap reads (sym found)
      ]

  call-after :
      (a : Arrival T) (s : State g)
      → (call T (at T g server a.now) a.path a.body s).1 ≡ after (incoming a) s
  unfolding call incoming after
  call-after a s =
      let leads = λ (o : Option Method). after (routed a.now a.body o) s in
      elim (Option-cases (route a.path)) [
        | inl missing ↦ ground (arith, missing) ∙ ap leads (sym missing)
        | inr (m, found) ↦
            ap (λ r. r.1) (call-route T (at T g server a.now) m a.path a.body s found)
            ∙ unary-after a.now m a.body s
            ∙ ap leads (sym found)
      ]

  attended-onto :
      (o : Option Incoming) (l : List Incoming) (s : State g)
      → attended g (onto o l) s ≡ attended g l (after o s)
  unfolding attended after
  attended-onto none l s = refl
  attended-onto (some i) l s = refl

  -- Arrivals leave the Guard in the state that the requests among them do.
  pub served-attended :
      (arrivals : List (Arrival T)) (s : State g)
      → served T g server arrivals s ≡ attended g (requests arrivals) s
  unfolding served attended requests
  served-attended [] s = refl
  served-attended (a ∷ rest) s =
      served-attended rest _
      ∙ ap (attended g (requests rest)) (call-after a s)
      ∙ sym (attended-onto (incoming a) (requests rest) s)
