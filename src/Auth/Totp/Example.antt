-- ===== src/Auth/Totp/Example.antt =====
-- Codes of a digest that holds its counter (core/totp.py).
use taoli.Base.{◌+◌, ◌*◌, ◌%◌, some, [], ◌∷◌, ◌≡◌, refl}
use taoli.Base.Number.{pos, negsuc}
use taoli.Models.Identity.{second}
use taoli.Auth.Totp.{
  Crypto, matching_counter, matches, totp_at, decode_secret, truncated, unpack, digits, has_digits,
  padding, strip_padding,
}

abbrev pub counting : Crypto
counting = record {
  b32decode = λ text. some (
      1 ∷ 2 ∷ 3 ∷ 4 ∷ 5 ∷ 6 ∷ 7 ∷ 8 ∷ 9 ∷ 10 ∷ 11 ∷ 12 ∷ 13 ∷ 14 ∷ 15 ∷ 16 ∷ 17 ∷ 18 ∷ 19 ∷ 20
      ∷ []);
  hmac_sha1 = λ key counter.
      0
      ∷ 15
      ∷ 66
      ∷ (64 + counter % 256)
      ∷ 4
      ∷ 5
      ∷ 6
      ∷ 7
      ∷ 8
      ∷ 9
      ∷ 10
      ∷ 11
      ∷ 12
      ∷ 13
      ∷ 14
      ∷ 15
      ∷ 16
      ∷ 17
      ∷ 18
      ∷ 16
      ∷ [];
  sha256 = λ text. text;
}

pub secret_decodes :
    decode_secret counting "ORSXG5A"
    ≡ some (
        1 ∷ 2 ∷ 3 ∷ 4 ∷ 5 ∷ 6 ∷ 7 ∷ 8 ∷ 9 ∷ 10 ∷ 11 ∷ 12 ∷ 13 ∷ 14 ∷ 15 ∷ 16 ∷ 17 ∷ 18 ∷ 19 ∷ 20
        ∷ [])
unfolding decode_secret strip_padding padding
secret_decodes = refl

-- 15 * 65536 + 66 * 256 + 64 + 3
pub third_code : totp_at counting "ORSXG5A" 3 ≡ some "000003"
unfolding totp_at decode_secret strip_padding padding truncated unpack digits
third_code = refl

pub third_matches :
    matching_counter counting "ORSXG5A" "000003" (90 * second) (negsuc 0) ≡ some (some 3)
unfolding matching_counter matches totp_at decode_secret strip_padding padding truncated unpack
    digits has_digits
third_matches = refl

pub fourth_matches :
    matching_counter counting "ORSXG5A" "000004" (120 * second) (pos 3) ≡ some (some 4)
unfolding matching_counter matches totp_at decode_secret strip_padding padding truncated unpack
    digits has_digits
fourth_matches = refl
