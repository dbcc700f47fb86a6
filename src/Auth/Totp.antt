-- ===== src/Auth/Totp.antt =====
-- backend/app/core/totp.py: the one-time codes. Base32, HMAC-SHA-1 and SHA-256 are the record `Crypto`.
-- `none` is an exception.
pub mod Codes
pub mod Example
use Prim.Native.Char.{Char, code}
use Prim.Native.String.{◌++◌ as text_append}
use taoli.Base.{
  ℕ, zero, suc, ◌+◌, ◌-◌, ◌*◌, ◌/◌, ◌%◌, String, Bool, true, false, ◌&&◌, Option, none, some, List,
  [], ◌∷◌, if◌then◌else◌, ◌==◌, nat_eq, string_eq, ltb, leb, length, drop, take, get_last?, max,
  ◌>>=◌,
}
use taoli.Base.Text.{upper, char_count}
use taoli.Base.Number.{ℤ, pos, negsuc}
use taoli.Models.Identity.{Time, second}
use taoli.PairValidation.{strip}

-- The byte strings are lists of numbers below 256.
pub record Crypto : Type 0 where
  pub b32decode : String → Option (List ℕ)
  pub hmac_sha1 : List ℕ → ℕ → List ℕ
  pub sha256 : String → String

-- `text.rstrip("=")`
pub strip_padding : String → String
strip_padding String.[] = String.[]
strip_padding (String.◌∷◌ c s) =
    let rest = strip_padding s in
    if code c == 61 && rest == "" then String.[] else String.◌∷◌ c rest

-- `"=" * n`
pub padding : ℕ → String
padding zero = ""
padding (suc n) = text_append "=" (padding n)

abbrev pub digit : ℕ → String
digit zero = "0"
digit (suc zero) = "1"
digit (suc (suc zero)) = "2"
digit (suc (suc (suc zero))) = "3"
digit (suc (suc (suc (suc zero)))) = "4"
digit (suc (suc (suc (suc (suc zero))))) = "5"
digit (suc (suc (suc (suc (suc (suc zero)))))) = "6"
digit (suc (suc (suc (suc (suc (suc (suc zero))))))) = "7"
digit (suc (suc (suc (suc (suc (suc (suc (suc zero)))))))) = "8"
digit _ = "9"

-- `str(n % 10 ** 6).zfill(6)`: its last `k` digits.
pub digits : ℕ → ℕ → String
digits zero n = ""
digits (suc k) n = text_append (digits k (n / 10)) (digit (n % 10))

-- `re.fullmatch(r"[0-9]{6}", text)`
pub has_digits : ℕ → String → Bool
has_digits zero String.[] = true
has_digits zero (String.◌∷◌ c s) = false
has_digits (suc n) String.[] = false
has_digits (suc n) (String.◌∷◌ c s) = leb 48 (code c) && leb (code c) 57 && has_digits n s

-- `struct.unpack(">I", bytes)[0] & 0x7fffffff`
pub unpack : List ℕ → Option ℕ
unpack (a ∷ b ∷ c ∷ d ∷ []) = some ((((a * 256 + b) * 256 + c) * 256 + d) % 2147483648)
unpack _ = none

-- The dynamic truncation; an empty digest has no last byte.
pub truncated : List ℕ → Option ℕ
unfolding unpack
truncated digest = do last ← get_last? digest; unpack (take 4 (drop (last % 16) digest))

-- `range(max(0, current - 1), current + 2)`
abbrev pub nearby : ℕ → List ℕ
nearby zero = 0 ∷ 1 ∷ []
nearby (suc c) = c ∷ suc c ∷ suc (suc c) ∷ []

-- `counter > last_counter`, where the last counter is -1 at first.
abbrev pub exceeds : ℕ → ℤ → Bool
exceeds counter (pos n) = ltb n counter
exceeds counter (negsuc n) = true

abbrev pub max_counter : List ℕ → Option ℕ
max_counter [] = none
max_counter (c ∷ cs) = elim (max_counter cs) [ none ↦ some c | some m ↦ some (max c m) ]

module _ (crypto : Crypto) where
  pub decode_secret : String → Option (List ℕ)
  unfolding strip_padding padding
  decode_secret secret =
      let normalized = strip_padding (upper (strip secret)) in
      do
        key ←
            crypto.b32decode
              (text_append normalized (padding ((8 - char_count normalized % 8) % 8)))
        if ltb (length key) 20 then none else some key

  pub totp_at : String → ℕ → Option String
  unfolding truncated digits
  totp_at secret counter = do
    key ← decode_secret secret
    number ← truncated (crypto.hmac_sha1 key counter)
    some (digits 6 number)

  pub matches : String → String → ℤ → List ℕ → Option (List ℕ)
  matches secret given last [] = some []
  matches secret given last (counter ∷ counters) = do
    expected ← totp_at secret counter
    rest ← matches secret given last counters
    some (if expected == given && exceeds counter last then counter ∷ rest else rest)

  pub matching_counter : String → String → Time → ℤ → Option (Option ℕ)
  unfolding matches has_digits
  matching_counter secret given now last =
      let found : Option (Option ℕ) = (do
        counters ← matches secret given last (nearby (now / (30 * second)))
        some (max_counter counters)) in
      if has_digits 6 given then found else some none
