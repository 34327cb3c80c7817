-- ===== src/Rpc/Served.antt =====
-- A sequence of requests on the wire, whatever paths and bodies they carry.
use ai_auth.Common.{ℕ, ◌≡◌, inl, inr, arith, sym, subst, List, [], ◌∷◌, Result-cases, ok, err}
use ai_auth.Limits.{Key, Bucket}
use ai_auth.Limits.Bound.{IsWellFormed}
use ai_auth.Rpc.{Method, verifying, encrypting, decrypting, indexing, Message, Reply, Tonic}
use ai_auth.Rpc.Remote.{guard_service}
use ai_auth.Rpc.Routes.{method, call_lem}
use ai_auth.Rpc.Server
use ai_auth.Rpc.Server.{CryptoServiceServer, call}
use ai_auth.Service.Budget.{serve-IsWellFormed}
use ai_auth.Service.Guard.{Guard, State, Outcome}
use ai_auth.Service.Serve.{serve, verifies, encrypts, decrypts, indexes}
use ai_auth.Text.{Str}
use mathlib.Core.List.{Perm}

-- The state after an arm: as it was where the body is not read, and as the method leaves it.
module _ (T : Tonic) {S : Type 0} (m : Method) (server : CryptoServiceServer T S)
    (handle : Message m → S → Outcome (Reply m) × S) (body : T.Body) (s : S) where
  pub unary-unread :
      (response : T.HttpResponse)
      → T.read m server.accept_compression_encodings server.max_decoding_message_size body
        ≡ err response
      → (Server.unary T m server handle body s).1 ≡ s
  unfolding Server.unary
  unary-unread response failed = ground (arith, failed)

  pub unary-read :
      (q : Message m)
      → T.read m server.accept_compression_encodings server.max_decoding_message_size body ≡ ok q
      → (Server.unary T m server handle body s).1 ≡ (handle q s).1
  unfolding Server.unary
  unary-read q found = ground (arith, found)

module _ (T : Tonic) where
  -- When a request arrives, its path and its body.
  pub record Arrival : Type 0 where
    pub now : ℕ
    pub path : Str
    pub body : T.Body

  module _ (g : Guard) where
    -- A configured server, with the clock at a reading.
    abbrev pub at : CryptoServiceServer T (State g) → ℕ → CryptoServiceServer T (State g)
    at server now = record server { inner = guard_service g now }

    unfoldable pub served : CryptoServiceServer T (State g) → List Arrival → State g → State g
    served server [] s = s
    served server (a ∷ rest) s = served server rest (call T (at server a.now) a.path a.body s).1

    module _ (iter_perm : (m : List (Key × Bucket g.floats)) → Perm (g.iter m) m)
        (server : CryptoServiceServer T (State g)) where
      method-IsWellFormed :
          (now : ℕ) (m : Method) (q : Message m) (s : State g)
          → IsWellFormed s.limiter
          → IsWellFormed (method (guard_service g now) m q s).1.limiter
      unfolding serve
      method-IsWellFormed now verifying q s = serve-IsWellFormed g iter_perm now (verifies q) s
      method-IsWellFormed now encrypting q s = serve-IsWellFormed g iter_perm now (encrypts q) s
      method-IsWellFormed now decrypting q s = serve-IsWellFormed g iter_perm now (decrypts q) s
      method-IsWellFormed now indexing q s = serve-IsWellFormed g iter_perm now (indexes q) s

      unary-IsWellFormed :
          (now : ℕ) (m : Method) (body : T.Body) (s : State g)
          → IsWellFormed s.limiter
          → IsWellFormed
              (Server.unary T m (at server now) (method (guard_service g now) m) body s).1.limiter
      unary-IsWellFormed now m body s w =
          let handle = method (guard_service g now) m in
          let keeps : (s' : State g) → Type 0 = λ s'. IsWellFormed s'.limiter in
          elim (Result-cases
            (T.read m server.accept_compression_encodings server.max_decoding_message_size body)) [
              | inr (response, failed) ↦
                  subst keeps (sym (unary-unread T m (at server now) handle body s response failed))
                    w
              | inl (q, found) ↦
                  subst keeps (sym (unary-read T m (at server now) handle body s q found))
                    (method-IsWellFormed now m q s w)
            ]

      call-IsWellFormed :
          (a : Arrival) (s : State g)
          → IsWellFormed s.limiter
          → IsWellFormed (call T (at server a.now) a.path a.body s).1.limiter
      call-IsWellFormed a s w = elim (call_lem T (at server a.now) a.path a.body s) [
        | inl (m, _, same) ↦
            subst (λ r. IsWellFormed r.1.limiter) (sym same) (unary-IsWellFormed a.now m a.body s w)
        | inr (_, same) ↦ subst (λ r. IsWellFormed r.1.limiter) (sym same) w
      ]

      -- Whatever requests arrive on the wire, at whatever readings of the clock, with whatever
      -- paths and bodies, they leave a well-formed limiter well-formed: it keeps one bucket for a
      -- key and at most `max_buckets` buckets.
      pub served-IsWellFormed :
          (arrivals : List Arrival) (s : State g)
          → IsWellFormed s.limiter
          → IsWellFormed (served server arrivals s).limiter
      unfolding served
      served-IsWellFormed [] s w = w
      served-IsWellFormed (a ∷ rest) s w = served-IsWellFormed rest _ (call-IsWellFormed a s w)
