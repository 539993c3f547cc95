-- ===== src/Base/Words.antt =====
-- `str.strip`, `str.lower` and `str.upper` on ASCII texts; another character is left as it is.
use Prim.Native.Char.{Char, code}
use Prim.Native.Nat.{◌-◌}
use Prim.Native.String.{String, char_at}
use mathlib.Core.Bool.{Bool, ◌&&◌, ◌||◌}
use sportsbetting.Base.Tests.{if◌then◌else◌, leb, ◌==◌}

abbrev pub is_space : Char → Bool
is_space c =
    code c == 32 || (leb 9 (code c) && leb (code c) 13) || (leb 28 (code c) && leb (code c) 31)

abbrev pub lstrip : String → String
lstrip String.[] = ""
lstrip (String.◌∷◌ c s) = if is_space c then lstrip s else String.◌∷◌ c s

abbrev put_char : Char → String → String
put_char c String.[] = if is_space c then "" else String.◌∷◌ c ""
put_char c (String.◌∷◌ d s) = String.◌∷◌ c (String.◌∷◌ d s)

abbrev pub rstrip : String → String
rstrip String.[] = ""
rstrip (String.◌∷◌ c s) = put_char c (rstrip s)

abbrev pub strip : String → String
strip s = rstrip (lstrip s)

abbrev lower_char : Char → Char
lower_char c =
    if leb 65 (code c) && leb (code c) 90
    then char_at "abcdefghijklmnopqrstuvwxyz" (code c - 65)
    else c

abbrev pub lower : String → String
lower String.[] = ""
lower (String.◌∷◌ c s) = String.◌∷◌ (lower_char c) (lower s)

abbrev upper_char : Char → Char
upper_char c =
    if leb 97 (code c) && leb (code c) 122
    then char_at "ABCDEFGHIJKLMNOPQRSTUVWXYZ" (code c - 97)
    else c

abbrev pub upper : String → String
upper String.[] = ""
upper (String.◌∷◌ c s) = String.◌∷◌ (upper_char c) (upper s)
