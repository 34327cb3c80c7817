-- ===== src/Tests/Fixtures.antt =====
-- Primitives and libraries that run, and satisfy what the development assumes of them: a cipher
-- that carries its associated data in the clear, and a code that is its own message.
use ai_auth.Common.{
  ℕ, zero, suc, ◌+◌, ◌%◌, ◌≡◌, refl, sym, ◌∙◌, ap, true, ◌++◌, List, [], ◌∷◌, Option, none, some,
  Result, ok, length, take, drop, replicate, take-append, drop-append, length-append, append_assoc,
  ite, arith,
}
use ai_auth.Limits.{Key, Bucket}
use ai_auth.Limits.Float.{nanos}
use ai_auth.Provider.{KeyHandle}
use ai_auth.Software.{Primitives, SoftwareProvider}
use ai_auth.Software.Assumptions.{IsAead, IsStreaming}
use ai_auth.Text.{Str, Bytes, str, Str-discrete}
use ai_auth.Webauthn.{Libraries}
use mathlib.Core.List.Perm
use mathlib.Core.List.{Perm}

unfoldable pub clear_open : Bytes → Bytes → Option Bytes
clear_open ad [] = none
clear_open ad (n ∷ rest) = ite (Str-discrete (take n rest) ad) (some (drop n rest)) none

abbrev pub clear_seal : Bytes → Bytes → Bytes
clear_seal ad msg = replicate 16 0 ++ (length ad ∷ ad ++ msg)

abbrev pub clear : Primitives
clear = record {
  Rng = ℕ;
  fill_bytes = λ n seed. (replicate n (seed % 256), 1 + seed);
  Cipher = Bytes;
  cipher_from_slice = λ key. ok key;
  cipher_encrypt = λ c nonce ad msg. ok (clear_seal ad msg);
  cipher_decrypt = λ c nonce ad ct. clear_open ad (drop 16 ct);
  Mac = Bytes;
  mac_from_slice = λ key. ok key;
  mac_update = λ mac part. mac ++ part;
  mac_finalize = λ mac. mac;
  package_version = str "0.1.0";
}

length-replicate : (n c : ℕ) → length (replicate n c) ≡ n
length-replicate zero c = refl
length-replicate (suc n) c = ap suc (length-replicate n c)

clear_open-seal :
    (ad other msg : Bytes)
    → clear_open other (drop 16 (clear_seal ad msg)) ≡ ite (Str-discrete ad other) (some msg) none
unfolding clear_open
clear_open-seal ad other msg =
    ap (λ (x : Bytes). ite (Str-discrete x other) (some (drop (length ad) (ad ++ msg))) none)
      (take-append ad msg)
    ∙ ap (λ (x : Bytes). ite (Str-discrete ad other) (some x) none) (drop-append ad msg)

clear_seal-eq :
    (ad msg ct : Bytes)
    → ◌≡◌ {A = Result Bytes Str} (ok (clear_seal ad msg)) (ok ct)
    → clear_seal ad msg ≡ ct
clear_seal-eq ad msg ct h = cc

ite-same :
    (ad other msg : Bytes) → ad ≡ other → ite (Str-discrete ad other) (some msg) none ≡ some msg
ite-same ad other msg h = ground arith

pub clear-IsAead : IsAead clear
clear-IsAead = record {
  fills = λ n rng. length-replicate n (rng % 256);
  accepts = λ key h. (key, refl);
  encrypts = λ c nonce ad msg ha hm. (clear_seal ad msg, refl);
  tags = λ c nonce ad msg ct e.
      omega (arith, ap length (clear_seal-eq ad msg ct e), length-append ad msg);
  opens = λ c nonce ad msg ct e.
      ap (λ (x : Bytes). clear_open ad (drop 16 x)) (sym (clear_seal-eq ad msg ct e))
      ∙ clear_open-seal ad ad msg
      ∙ ite-same ad ad msg refl;
}

pub clear-IsStreaming : IsStreaming clear
clear-IsStreaming = record { update_append = λ mac a b. append_assoc mac a b }

abbrev pub index_key : KeyHandle
index_key = record { id = str "i" }

abbrev pub kek : KeyHandle
kek = record { id = str "k" }

abbrev pub box : SoftwareProvider
box = record { keys = (index_key, replicate 32 0x5a) ∷ (kek, replicate 32 0xa5) ∷ [] }

-- Every document states one type, challenge and origin.
unfoldable pub field : Str → Option Str
field key = ite (Str-discrete key (str "type")) (some (str "webauthn.get")) (
    ite (Str-discrete key (str "challenge")) (some (str "c"))
      (ite (Str-discrete key (str "origin")) (some (str "o")) none))

abbrev pub libraries : Libraries
libraries = record {
  Value = Str;
  json_from_slice = λ bytes. some bytes;
  get = λ v key. field key;
  as_str = λ v. some v;
  base64_decode = λ s. some s;
  sha256 = λ bytes. replicate 32 7;
  VerifyingKey = Bytes;
  Signature = Bytes;
  key_from_sec1_bytes = λ bytes. some bytes;
  signature_from_der = λ bytes. some bytes;
  signature_from_slice = λ bytes. some bytes;
  verify = λ key msg sig. true;
}

abbrev pub in_order : List (Key × Bucket nanos) → List (Key × Bucket nanos)
in_order m = m

pub in_order-perm : (m : List (Key × Bucket nanos)) → Perm (in_order m) m
in_order-perm m = Perm.refl m
