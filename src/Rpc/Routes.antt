-- ===== src/Rpc/Routes.antt =====
-- Which paths the server answers.
use ai_auth.Common.{
  ◌≡◌, refl, sym, ap, ◌∙◌, ◌++◌, ◌⊎◌, inl, inr, ite-eq-some, Option, none, some, ite, arith,
  Option-cases,
}
use ai_auth.Rpc.{
  Method, verifying, encrypting, decrypting, indexing, Message, Reply, Tonic, service_name,
}
use ai_auth.Wire.{Answered, answered}
use ai_auth.Rpc.Server.{
  CryptoService, CryptoServiceServer, route, unary, unimplemented, call, verify_assertion_arm,
  encrypt_field_arm, decrypt_field_arm, blind_index_arm,
}
use ai_auth.Service.Guard.{Outcome}
use ai_auth.Text.{Str, str, Str-discrete}

-- The method's name in the service's definition.
abbrev pub name : Method → Str
name verifying = str "VerifyAssertion"
name encrypting = str "EncryptField"
name decrypting = str "DecryptField"
name indexing = str "BlindIndex"

abbrev pub path : Method → Str
path m = str "/" ++ service_name ++ str "/" ++ name m

abbrev pub method :
    {S : Type 0} → CryptoService S → (m : Method) → Message m → S → Outcome (Reply m) × S
method inner verifying = inner.verify_assertion
method inner encrypting = inner.encrypt_field
method inner decrypting = inner.decrypt_field
method inner indexing = inner.blind_index

pub route-path : (m : Method) → route (path m) ≡ some m
unfolding route service_name str Str-discrete ai_auth.Common.ℕ_discrete
route-path verifying = refl
route-path encrypting = refl
route-path decrypting = refl
route-path indexing = refl

met : {p : Str} {q m : Method} → (p ≡ path q) × (q ≡ m) → p ≡ path m
met (e, f) = e ∙ ap path f

pub route-eq-some : (p : Str) (m : Method) → route p ≡ some m → p ≡ path m
unfolding route service_name str
route-eq-some p m h =
    elim (ite-eq-some (Str-discrete p (str "/aiauth.crypto.v1.CryptoService/VerifyAssertion")) h) [
      | inl a ↦ met {q = verifying} a
      | inr h1 ↦
          elim (ite-eq-some (Str-discrete p (str "/aiauth.crypto.v1.CryptoService/EncryptField"))
            h1) [
              | inl a ↦ met {q = encrypting} a
              | inr h2 ↦
                  elim (ite-eq-some
                    (Str-discrete p (str "/aiauth.crypto.v1.CryptoService/DecryptField")) h2) [
                      | inl a ↦ met {q = decrypting} a
                      | inr h3 ↦
                          elim (ite-eq-some
                            (Str-discrete p (str "/aiauth.crypto.v1.CryptoService/BlindIndex"))
                            h3) [ inl a ↦ met {q = indexing} a | inr h4 ↦ absurd (cc) ]
                    ]
            ]
    ]

some-ne : {m : Method} → ¬ (some m ≡ none)
some-ne h = cc

module _ (T : Tonic) where
  -- The response with gRPC's status 12 and content type, and without a body.
  abbrev pub not_implemented : T.HttpResponse
  not_implemented =
      T.insert (T.insert T.empty_response (str "grpc-status") (str "12")) (str "content-type")
        (str "application/grpc")

module _ (T : Tonic) {S : Type 0} where
  -- What a call of the server comes to: the method whose path it names, or the unimplemented
  -- response with the state as it was.
  abbrev pub Dispatched :
      CryptoServiceServer T S → Str → T.Body → S → Answered T.HttpResponse × S → Type 0
  Dispatched server p body s r =
      ((m : Method) × (p ≡ path m) × (r ≡ unary T m server (method server.inner m) body s))
      ⊎ (((m : Method) → ¬ (p ≡ path m)) × (r ≡ (answered (not_implemented T), s)))

  pub call-route :
      (server : CryptoServiceServer T S) (m : Method) (p : Str) (body : T.Body) (s : S)
      → route p ≡ some m
      → call T server p body s ≡ unary T m server (method server.inner m) body s
  unfolding call verify_assertion_arm encrypt_field_arm decrypt_field_arm blind_index_arm
  call-route server verifying p body s h = ground (arith, h)
  call-route server encrypting p body s h = ground (arith, h)
  call-route server decrypting p body s h = ground (arith, h)
  call-route server indexing p body s h = ground (arith, h)

  -- A request is handled by the method whose path, the service's name and the method's after
  -- slashes, is the request's path; any other path is answered with gRPC's status 12, unimplemented, and leaves
  -- the state as it was.
  pub call_lem :
      (server : CryptoServiceServer T S) (p : Str) (body : T.Body) (s : S)
      → Dispatched server p body s (call T server p body s)
  unfolding call unimplemented
  call_lem server p body s = elim (Option-cases (route p)) [
    | inl missing ↦ inr (
      λ m same. some-ne (sym (route-path m) ∙ ap route (sym same) ∙ missing),
      ground (arith, missing),
    )
    | inr (m, found) ↦ inl (m, route-eq-some p m found, call-route server m p body s found)
  ]
