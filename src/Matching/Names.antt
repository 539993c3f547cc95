-- ===== src/Matching/Names.antt =====
-- `normalize_name` of app/core/matching.py on ASCII texts.
use Prim.Native.Char.{Char, code}
use Prim.Native.String.{char_at}
use sportsbetting.Base.{String, Bool, true, false, ◌&&◌, ◌||◌, leb, ◌==◌, if◌then◌else◌}
use sportsbetting.Base.Words.{lower, rstrip}

-- `_DROP_CHARS`: the period, the apostrophes and the backquote.
abbrev is_dropped : Char → Bool
is_dropped c = code c == 46 || code c == 39 || code c == 8217 || code c == 96

abbrev drop_chars : String → String
drop_chars String.[] = ""
drop_chars (String.◌∷◌ c s) =
    let rest = drop_chars s in if is_dropped c then rest else String.◌∷◌ c rest

-- What `_NON_ALNUM` leaves.
abbrev is_word : Char → Bool
is_word c = (leb 48 (code c) && leb (code c) 57) || (leb 97 (code c) && leb (code c) 122)

-- `_NON_ALNUM.sub(" ", text)` and `strip()` on the left: `gap` says that the last character written
-- was a space, or that none was.
abbrev spaced : Bool → String → String
spaced gap String.[] = ""
spaced gap (String.◌∷◌ c s) =
    let after_word = spaced false s in
    let after_gap = spaced true s in
    if is_word c
    then String.◌∷◌ c after_word
    else if gap
    then after_gap
    else String.◌∷◌ (char_at " " 0) after_gap

-- `text[4:]` after `text.startswith("the ")`
abbrev drop_the : String → String
drop_the (String.◌∷◌ t (String.◌∷◌ h (String.◌∷◌ e (String.◌∷◌ blank s)))) =
    if code t == 116 && code h == 104 && code e == 101 && code blank == 32
    then s
    else String.◌∷◌ t (String.◌∷◌ h (String.◌∷◌ e (String.◌∷◌ blank s)))
drop_the s = s

unfoldable pub normalize_name : String → String
normalize_name name = drop_the (rstrip (spaced true (lower (drop_chars name))))

-- `text.split()[0]` of a normalised text; "" where there is no word.
abbrev pub first_word : String → String
first_word String.[] = ""
first_word (String.◌∷◌ c s) =
    let rest = first_word s in if code c == 32 then "" else String.◌∷◌ c rest
