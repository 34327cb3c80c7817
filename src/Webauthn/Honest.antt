-- ===== src/Webauthn/Honest.antt =====
-- crypto/src/webauthn.rs: what an authenticator and a browser make, as the verifier's tests build it.
-- `Client` is what the tests call in other crates: base64 the other way, and a P-256 signing key.
use ai_auth.Common.{
  ℕ, zero, suc, ◌+◌, ◌^◌, ◌<◌, ◌≡◌, ◌≢◌, ◌⊎◌, refl, sym, ap, subst, true, ◌++◌, [], ◌∷◌, some, ok,
  err, length, take, get_or, bit_and, length-append, take-append, arith,
}
use ai_auth.Text.{Str, Bytes, str, as_bytes}
use ai_auth.Webauthn.{
  Expectations, Libraries, or_else, byte_at, flag_up, sign_count_of, text_field, is_text,
  check_client_data, origin_mismatch, verify,
}
use ai_auth.Webauthn.Accepted.{IsFresh, IsPresent, IsSigned, verify_iff}
use ai_auth.Words.{u32_from_be_bytes, u32_to_be_bytes}

pub record Client : Type 1 where
  -- base64, URL_SAFE_NO_PAD
  pub base64_encode : Bytes → Str
  -- p256::ecdsa
  pub SigningKey : Type 0
  pub public_key : SigningKey → Bytes
  pub sign_der : SigningKey → Bytes → Bytes

module _ (L : Libraries) (C : Client) where
  pub record Fixture : Type 0 where
    pub key : C.SigningKey
    pub pubkey : Bytes
    pub challenge : Bytes

  unfoldable pub fixture : C.SigningKey → Bytes → Fixture
  fixture key challenge = record { key = key; pubkey = C.public_key key; challenge = challenge }

  unfoldable pub client_data : Str → Bytes → Str → Bytes
  client_data ty challenge origin = as_bytes (
      str "{\"type\":\""
      ++ ty
      ++ str "\",\"challenge\":\""
      ++ C.base64_encode challenge
      ++ str "\",\"origin\":\""
      ++ origin
      ++ str "\"}")

  unfoldable pub auth_data : Str → ℕ → ℕ → Bytes
  auth_data rp flags count = L.sha256 (as_bytes rp) ++ flags ∷ u32_to_be_bytes count

  unfoldable pub sign : Fixture → Bytes → Bytes → Bytes
  sign f ad cd = C.sign_der f.key (ad ++ L.sha256 cd)

  unfoldable pub expectations : Str → Str → Fixture → ℕ → Expectations
  expectations rp origin f stored = record {
    rp_id = rp;
    origin = origin;
    challenge = f.challenge;
    stored_sign_count = stored;
  }

  -- A document with the three fields, as the parser reads it.
  pub record Reads (ty : Str) (challenge : Bytes) (origin : Str) : Type 0 where
    pub value : L.Value
    pub parsed : L.json_from_slice (client_data ty challenge origin) ≡ some value
    pub kind : text_field L value (str "type") ≡ some ty
    pub stated : text_field L value (str "challenge") ≡ some (C.base64_encode challenge)
    pub named : text_field L value (str "origin") ≡ some origin

  -- The key and the signature that the verifier reads, and its verdict.
  pub record Verifies (k : C.SigningKey) (msg : Bytes) : Type 0 where
    pub key : L.VerifyingKey
    pub sig : L.Signature
    pub key_read : L.key_from_sec1_bytes (C.public_key k) ≡ some key
    pub sig_read : L.signature_from_der (C.sign_der k msg) ≡ some sig
    pub valid : L.verify key msg sig ≡ true

  -- A digest has 32 bytes, base64 reads what was written, and a signature verifies under its key.
  pub record IsInverse : Type 0 where
    pub digests : (msg : Bytes) → length (L.sha256 msg) ≡ 32
    pub decodes : (msg : Bytes) → L.base64_decode (C.base64_encode msg) ≡ some msg
    pub verifies : (k : C.SigningKey) (msg : Bytes) → Verifies k msg

get_or-append :
    (xs ys : Bytes) (n i : ℕ) → n ≡ length xs + i → get_or (xs ++ ys) n 0 ≡ get_or ys i 0
get_or-append [] ys n i h = let same : n ≡ i = omega arith in ap (λ j. get_or ys j 0) same
get_or-append (x ∷ xs) ys zero i h = absurd (omega arith)
get_or-append (x ∷ xs) ys (suc n) i h = get_or-append xs ys n i (omega arith)

module _ (L : Libraries) (C : Client) (w : IsInverse L C) where
  byte_at-auth_data :
      (rp : Str) (flags count n i : ℕ)
      → n ≡ 32 + i
      → byte_at (auth_data L C rp flags count) n ≡ get_or (flags ∷ u32_to_be_bytes count) i 0
  unfolding auth_data
  byte_at-auth_data rp flags count n i h =
      get_or-append (L.sha256 (as_bytes rp)) (flags ∷ u32_to_be_bytes count) n i
        (omega (arith, w.digests (as_bytes rp)))

  -- The count that the verifier reads is the one that was written.
  pub sign_count_of-auth_data :
      (rp : Str) (flags count : ℕ)
      → count < 2 ^ 32
      → sign_count_of (auth_data L C rp flags count) ≡ count
  unfolding sign_count_of u32_from_be_bytes u32_to_be_bytes
  sign_count_of-auth_data rp flags count h = omega (
    arith,
    byte_at-auth_data rp flags count 33 1 refl,
    byte_at-auth_data rp flags count 34 2 refl,
    byte_at-auth_data rp flags count 35 3 refl,
    byte_at-auth_data rp flags count 36 4 refl,
  )

  auth_data-IsPresent :
      (rp origin : Str) (f : Fixture L C) (flags count stored : ℕ)
      → count < 2 ^ 32
      → bit_and flags flag_up ≢ 0
      → (count ≡ 0) ⊎ (stored < count)
      → IsPresent L (expectations L C rp origin f stored) (auth_data L C rp flags count)
  unfolding expectations auth_data u32_to_be_bytes
  auth_data-IsPresent rp origin f flags count stored h up fresh = record {
    long = omega (
      arith,
      w.digests (as_bytes rp),
      length-append (L.sha256 (as_bytes rp)) (flags ∷ u32_to_be_bytes count),
    );
    relying_party =
        subst (λ n. take n (auth_data L C rp flags count) ≡ L.sha256 (as_bytes rp))
          (w.digests (as_bytes rp))
          (take-append (L.sha256 (as_bytes rp)) (flags ∷ u32_to_be_bytes count));
    touched =
        subst (λ b. bit_and b flag_up ≢ 0) (sym (byte_at-auth_data rp flags count 32 0 refl)) up;
    counted =
        subst (λ n. (n ≡ 0) ⊎ (stored < n)) (sym (sign_count_of-auth_data rp flags count h)) fresh;
  }

  client_data-IsFresh :
      (rp origin : Str) (f : Fixture L C) (stored : ℕ)
      → Reads L C (str "webauthn.get") f.challenge origin
      → IsFresh L
          (expectations L C rp origin f stored)
          (client_data L C (str "webauthn.get") f.challenge origin)
  unfolding expectations
  client_data-IsFresh rp origin f stored r = record {
    client = r.value;
    encoded = C.base64_encode f.challenge;
    parsed = r.parsed;
    kind = r.kind;
    stated = r.stated;
    challenge = w.decodes f.challenge;
    origin = r.named;
  }

  sign-IsSigned :
      (k : C.SigningKey) (challenge ad cd : Bytes)
      → IsSigned L (C.public_key k) ad cd (sign L C (fixture L C k challenge) ad cd)
  unfolding sign fixture
  sign-IsSigned k challenge ad cd =
      let v = w.verifies k (ad ++ L.sha256 cd) in
      record {
        key = v.key;
        sig = v.sig;
        key_read = v.key_read;
        sig_read =
            ap (λ o. or_else o (L.signature_from_slice (C.sign_der k (ad ++ L.sha256 cd))))
              v.sig_read;
        valid = v.valid;
      }

-- An honest login is accepted, with the count that the authenticator wrote: a key signs data for the
-- relying party with the user present and a count below 2^32 that is zero or above the stored one,
-- over a document of type `webauthn.get` with the expected challenge and origin, which the parser
-- reads as it was written.
pub verify-sign :
    (L : Libraries) (C : Client) (k : C.SigningKey) (challenge : Bytes) (rp origin : Str)
    (flags count stored : ℕ)
    → IsInverse L C
    → Reads L C (str "webauthn.get") challenge origin
    → count < 2 ^ 32
    → bit_and flags flag_up ≢ 0
    → (count ≡ 0) ⊎ (stored < count)
    → let f = fixture L C k challenge in
      let ad = auth_data L C rp flags count in
      let cd = client_data L C (str "webauthn.get") challenge origin in
      verify L (expectations L C rp origin f stored) f.pubkey ad cd (sign L C f ad cd)
      ≡ ok (record { new_sign_count = count })
unfolding fixture
verify-sign L C k challenge rp origin flags count stored w r small up fresh =
    let f = fixture L C k challenge in
    let ad = auth_data L C rp flags count in
    let cd = client_data L C (str "webauthn.get") challenge origin in
    (verify_iff L (expectations L C rp origin f stored) f.pubkey ad cd (sign L C f ad cd)
        (record { new_sign_count = count })).1
      (
        client_data-IsFresh L C w rp origin f stored r,
        auth_data-IsPresent L C w rp origin f flags count stored small up fresh,
        sign-IsSigned L C w k challenge ad cd,
        sign_count_of-auth_data L C w rp flags count small,
      )

-- A document that was written for another origin, and that the parser reads so, is refused as such,
-- whatever key,
-- authenticator data and signature come with it.
pub verify-client_data :
    (L : Libraries) (C : Client) (f : Fixture L C) (rp origin other : Str) (stored : ℕ)
    (public_key ad sg : Bytes)
    → IsInverse L C
    → Reads L C (str "webauthn.get") f.challenge other
    → other ≢ origin
    → verify L
        (expectations L C rp origin f stored)
        public_key
        ad
        (client_data L C (str "webauthn.get") f.challenge other)
        sg
      ≡ err origin_mismatch
unfolding verify check_client_data is_text expectations
verify-client_data L C f rp origin other stored public_key ad sg w r d =
    ground (arith, r.parsed, r.kind, r.stated, w.decodes f.challenge, r.named, d)
