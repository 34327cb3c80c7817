-- ===== src/Webauthn/Replay.antt =====
-- The counter across two verifications of one assertion.
use ai_auth.Common.{ℕ, ◌≡◌, ◌≢◌, inl, refl, sym, ◌∙◌, ok, err, arith}
use ai_auth.Text.{Bytes}
use ai_auth.Webauthn.{
  Verified, Expectations, Libraries, sign_count_regression, sign_count_of, check_client_data,
  check_authenticator_data, verify,
}
use ai_auth.Webauthn.Accepted.{verify_iff}

module _ (L : Libraries) where
  -- The same login, with another count on record.
  abbrev pub with_count : Expectations → ℕ → Expectations
  with_count exp n = record exp { stored_sign_count = n }

  check_client_data-with_count :
      (exp : Expectations) (n : ℕ) (json : Bytes)
      → check_client_data L (with_count exp n) json ≡ check_client_data L exp json
  unfolding check_client_data
  check_client_data-with_count exp n json = refl

  check_authenticator_data-with_count :
      (exp : Expectations) (ad : Bytes) (n : ℕ)
      → check_authenticator_data L exp ad ≡ ok n
      → n ≢ 0
      → check_authenticator_data L (with_count exp n) ad ≡ err sign_count_regression
  unfolding check_authenticator_data
  check_authenticator_data-with_count exp ad n h nonzero = ground arith

  -- An accepted assertion that carries a count is refused as a regression once its count is on
  -- record: it cannot be replayed.
  pub verify_replayed :
      (exp : Expectations) (pk ad json sg : Bytes) (v : Verified)
      → verify L exp pk ad json sg ≡ ok v
      → v.new_sign_count ≢ 0
      → verify L (with_count exp v.new_sign_count) pk ad json sg ≡ err sign_count_regression
  unfolding verify
  verify_replayed exp pk ad json sg v h nonzero =
      let fresh : check_client_data L exp json ≡ ok tt = ground arith in
      let counted : check_authenticator_data L exp ad ≡ ok v.new_sign_count = ground arith in
      ground (
        arith,
        fresh,
        check_client_data-with_count exp v.new_sign_count json,
        check_authenticator_data-with_count exp ad v.new_sign_count counted nonzero,
      )

  -- An accepted assertion without a count is accepted whatever count is on record, also one that
  -- the authenticator had reached before, and the answer carries the count zero.
  pub verify_uncounted :
      (exp : Expectations) (pk ad json sg : Bytes) (v : Verified) (n : ℕ)
      → verify L exp pk ad json sg ≡ ok v
      → sign_count_of ad ≡ 0
      → (verify L (with_count exp n) pk ad json sg ≡ ok v) × (v.new_sign_count ≡ 0)
  verify_uncounted exp pk ad json sg v n h zero =
      let (fresh, present, signed, count) = (verify_iff L exp pk ad json sg v).0 h in
      (
        (verify_iff L (with_count exp n) pk ad json sg v).1 (
          record {
            client = fresh.client;
            encoded = fresh.encoded;
            parsed = fresh.parsed;
            kind = fresh.kind;
            stated = fresh.stated;
            challenge = fresh.challenge;
            origin = fresh.origin;
          },
          record {
            long = present.long;
            relying_party = present.relying_party;
            touched = present.touched;
            counted = inl zero;
          },
          signed,
          count,
        ),
        sym count ∙ zero,
      )
