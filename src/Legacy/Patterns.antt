-- ===== src/Legacy/Patterns.antt =====
-- legacy_logs/assembler.py: the regular expressions that say where a log record begins, as matchers.
-- Each is anchored at the start of the line; a matcher of a part answers what is left of the text.
-- `\s`, `\d` and letters are the ASCII ones.
pub mod Laws
use Prim.Native.Char.{Char, code}
use tecnosor_sas_migration_d.Common.{
  ℕ, zero, suc, String, Bool, true, false, Option, none, some, List, [], ◌∷◌, ◌&&◌, ◌||◌, leb, ◌=?◌,
  if◌then◌else◌, any, ◌==◌,
}
use tecnosor_sas_migration_d.Common.Texts.{
  lstrip, drop_while, is_space, lower, starts_with, is_blank,
}

unfoldable pub is_digit : Char → Bool
is_digit c = leb b'0' (code c) && leb (code c) b'9'

unfoldable pub is_letter : Char → Bool
is_letter c = (leb b'a' (code c) && leb (code c) b'z') || (leb b'A' (code c) && leb (code c) b'Z')

abbrev space_char : Char → Bool
space_char c = is_space (code c)

-- `p{n,}`
unfoldable pub at_least : ℕ → (Char → Bool) → String → Option String
unfolding drop_while
at_least zero p s = some (drop_while p s)
at_least (suc n) p String.[] = none
at_least (suc n) p (String.◌∷◌ c s) = if p c then at_least n p s else none

-- `p{n}`
unfoldable pub exactly : ℕ → (Char → Bool) → String → Option String
exactly zero p s = some s
exactly (suc n) p String.[] = none
exactly (suc n) p (String.◌∷◌ c s) = if p c then exactly n p s else none

-- a text of the pattern
unfoldable pub literal : String → String → Option String
literal String.[] s = some s
literal (String.◌∷◌ c p) String.[] = none
literal (String.◌∷◌ c p) (String.◌∷◌ d s) = if code c =? code d then literal p s else none

-- `p{1,2}`, where what follows the digits is no digit
unfoldable pub one_or_two : (Char → Bool) → String → Option String
one_or_two p String.[] = none
one_or_two p (String.◌∷◌ c String.[]) = if p c then some String.[] else none
one_or_two p (String.◌∷◌ c (String.◌∷◌ d s)) =
    if p c then (if p d then some s else some (String.◌∷◌ d s)) else none

-- an optional text
unfoldable pub optionally : String → String → String
unfolding literal
optionally p s = elim (literal p s) [ none ↦ s | some rest ↦ rest ]

abbrev pub matched : Option String → Bool
matched none = false
matched (some rest) = true

-- one matcher after the other
abbrev pub then_match : Option String → (String → Option String) → Option String
then_match none f = none
then_match (some s) f = f s

abbrev spaces : String → Option String
spaces = at_least 1 space_char

-- RE_SOURCE_NEW
unfoldable pub source_new : String → Bool
unfolding at_least literal
source_new s = matched (then_match (then_match (at_least 1 is_digit s) spaces) (literal "+"))

-- RE_SOURCE_CONT, and the pattern that `consume` writes out
unfoldable pub source_cont : String → Bool
unfolding at_least literal
source_cont s = matched (then_match (then_match (at_least 1 is_digit s) spaces) (literal "!+"))

abbrev ends_blank : Option String → Bool
ends_blank none = false
ends_blank (some s) = is_blank s

-- RE_PAGE_HEADER
unfoldable pub page_header_line : String → Bool
unfolding lstrip at_least literal is_blank
page_header_line s =
    ends_blank
      (then_match (then_match (at_least 1 is_digit (lstrip s)) spaces) (literal "Sistema SAS"))

abbrev time_of_day : String → Option String
time_of_day s =
    then_match
      (then_match
        (then_match (then_match (one_or_two is_digit s) (literal ":")) (exactly 2 is_digit))
        (literal ":"))
      (exactly 2 is_digit)

abbrev comma_spaces : String → Option String
comma_spaces s = spaces (optionally "," s)

abbrev of_spaces : String → Option String
of_spaces s = then_match (literal "de" s) spaces

-- the day and the month
abbrev day_month : String → Option String
day_month s =
    then_match
      (then_match (then_match (then_match (one_or_two is_digit s) spaces) of_spaces)
        (at_least 1 is_letter))
      comma_spaces

-- RE_PAGE_DATE
unfoldable pub page_date : String → Bool
unfolding at_least exactly literal one_or_two optionally is_letter is_digit
page_date s = matched (
    then_match
      (then_match
        (then_match
          (then_match (then_match (then_match (at_least 3 is_letter s) comma_spaces) day_month)
            of_spaces)
          (exactly 4 is_digit))
        spaces)
      time_of_day)

-- RE_TIME_SLEEP
unfoldable pub time_sleep_line : String → Bool
unfolding at_least literal lstrip is_digit
time_sleep_line s =
    matched (then_match (literal "time_sleep:" s) (λ t. at_least 1 is_digit (lstrip t)))

abbrev is_separator : String → Bool
is_separator s = starts_with ":" s || starts_with "=" s

abbrev separated : Option String → Bool
separated none = false
separated (some s) = is_separator (lstrip s)

abbrev pub status_keys : List String
status_keys =
    "salida" ∷ "generated_out" ∷ "out_status" ∷ "load_status" ∷ "hora leida para salida" ∷ "status"
    ∷ "cod_err" ∷ "date_etl" ∷ "num_date_ref_yyyymmdd" ∷ []

-- RE_STATUS_KV, which ignores case
unfoldable pub status_line : String → Bool
unfolding literal lstrip starts_with lower
status_line s = any (λ k. separated (literal k (lower s))) status_keys

abbrev starts_value : Option String → Bool
starts_value none = false
starts_value (some String.[]) = false
starts_value (some (String.◌∷◌ c s)) = is_space (code c) || code c =? b'='

-- RE_AUTOVAR
unfoldable pub autovar_line : String → Bool
unfolding literal
autovar_line s = starts_value (literal "_ERROR_" s)
