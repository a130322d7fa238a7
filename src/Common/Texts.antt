-- ===== src/Common/Texts.antt =====
-- `str.upper`, `str.lower` and `not s.strip()`, for ASCII letters and ASCII white space; every text
-- that the program turns over is a status, a key or an identifier.
use Prim.Native.Char.{Char, code}
use Prim.Native.String.{char_at}
use tecnosor_sas_migration_d.Common.{
  ℕ, zero, suc, String, List, [], ◌∷◌, Bool, true, false, ◌&&◌, ◌||◌, ◌-◌, leb, ◌=?◌, if◌then◌else◌,
}

unfoldable pub upper_char : Char → Char
upper_char c =
    if leb b'a' (code c) && leb (code c) b'z'
    then char_at "ABCDEFGHIJKLMNOPQRSTUVWXYZ" (code c - b'a')
    else c

unfoldable pub upper : String → String
unfolding upper_char
upper String.[] = String.[]
upper (String.◌∷◌ c s) = String.◌∷◌ (upper_char c) (upper s)

unfoldable pub lower_char : Char → Char
lower_char c =
    if leb b'A' (code c) && leb (code c) b'Z'
    then char_at "abcdefghijklmnopqrstuvwxyz" (code c - b'A')
    else c

unfoldable pub lower : String → String
unfolding lower_char
lower String.[] = String.[]
lower (String.◌∷◌ c s) = String.◌∷◌ (lower_char c) (lower s)

abbrev pub is_space : ℕ → Bool
is_space c = (leb 9 c && leb c 13) || (leb 28 c && leb c 32)

-- `not s.strip()`
unfoldable pub is_blank : String → Bool
is_blank String.[] = true
is_blank (String.◌∷◌ c s) = is_space (code c) && is_blank s

-- `s.split("-")[-1]`
last_from : String → String → String
last_from part String.[] = part
last_from part (String.◌∷◌ c s) = last_from (if code c =? b'-' then s else part) s

unfoldable pub last_part : String → String
unfolding last_from
last_part s = last_from s s

-- `s.startswith(p)`
unfoldable pub starts_with : String → String → Bool
starts_with String.[] s = true
starts_with (String.◌∷◌ c p) String.[] = false
starts_with (String.◌∷◌ c p) (String.◌∷◌ d s) = code c =? code d && starts_with p s

-- `p in s`
unfoldable pub contains : String → String → Bool
unfolding starts_with
contains p String.[] = starts_with p String.[]
contains p (String.◌∷◌ c s) =
    let rest = contains p s in if starts_with p (String.◌∷◌ c s) then true else rest

-- `len(s)`
unfoldable pub text_length : String → ℕ
text_length String.[] = 0
text_length (String.◌∷◌ c s) = suc (text_length s)

-- `s + t`
unfoldable pub append : String → String → String
append String.[] t = t
append (String.◌∷◌ c s) t = String.◌∷◌ c (append s t)

-- drops the characters in front that pass the test: `p*`
unfoldable pub drop_while : (Char → Bool) → String → String
drop_while p String.[] = String.[]
drop_while p (String.◌∷◌ c s) = let rest = drop_while p s in if p c then rest else String.◌∷◌ c s

abbrev pub space_char : Char → Bool
space_char c = is_space (code c)

-- `s.lstrip()`, and `\s*`
unfoldable pub lstrip : String → String
unfolding drop_while
lstrip s = drop_while space_char s

abbrev pub cons_unless_empty : Bool → Char → String → String
cons_unless_empty drop c String.[] = if drop then String.[] else String.◌∷◌ c String.[]
cons_unless_empty drop c (String.◌∷◌ d s) = String.◌∷◌ c (String.◌∷◌ d s)

-- `s.rstrip()`
unfoldable pub rstrip : String → String
rstrip String.[] = String.[]
rstrip (String.◌∷◌ c s) = cons_unless_empty (is_space (code c)) c (rstrip s)

abbrev pub add_char : Char → List String → List String
add_char c [] = String.◌∷◌ c String.[] ∷ []
add_char c (p ∷ ps) = String.◌∷◌ c p ∷ ps

-- `s.split(c)`, by the code of the character
unfoldable pub split_on : ℕ → String → List String
split_on k String.[] = "" ∷ []
split_on k (String.◌∷◌ c s) =
    let rest = split_on k s in if code c =? k then "" ∷ rest else add_char c rest

-- `s[:n]`
unfoldable pub take_chars : ℕ → String → String
take_chars zero s = String.[]
take_chars (suc n) String.[] = String.[]
take_chars (suc n) (String.◌∷◌ c s) = String.◌∷◌ c (take_chars n s)
