-- ===== src/Base/Text.antt =====
-- `str.upper`, `str.lower` and joined texts. The case tables are those of ASCII: the exchange names
-- and symbols that the program folds are ASCII.
use Prim.Native.Nat.{ℕ, zero, suc, ◌-◌}
use Prim.Native.Char.{Char, code}
use Prim.Native.String.{String}
use mathlib.Core.Path.{◌≡◌, refl}
use mathlib.Core.Bool.{◌&&◌}
use taoli.Base.Tests.{leb, if◌then◌else◌}

pick : String → ℕ → Char → Char
pick String.[] n c = c
pick (String.◌∷◌ d s) zero c = d
pick (String.◌∷◌ d s) (suc n) c = pick s n c

upper_char : Char → Char
unfolding pick
upper_char c =
    if leb 97 (code c) && leb (code c) 122
    then pick "ABCDEFGHIJKLMNOPQRSTUVWXYZ" (code c - 97) c
    else c

lower_char : Char → Char
unfolding pick
lower_char c =
    if leb 65 (code c) && leb (code c) 90
    then pick "abcdefghijklmnopqrstuvwxyz" (code c - 65) c
    else c

unfoldable pub upper : String → String
unfolding upper_char
upper String.[] = String.[]
upper (String.◌∷◌ c s) = String.◌∷◌ (upper_char c) (upper s)

unfoldable pub lower : String → String
unfolding lower_char
lower String.[] = String.[]
lower (String.◌∷◌ c s) = String.◌∷◌ (lower_char c) (lower s)

-- `len(text)`
unfoldable pub char_count : String → ℕ
char_count String.[] = 0
char_count (String.◌∷◌ c s) = suc (char_count s)

upper_runs : upper "btcUsdt" ≡ "BTCUSDT"
unfolding upper
upper_runs = refl

lower_runs : lower "Gate" ≡ "gate"
unfolding lower
lower_runs = refl
