-- ===== src/Legacy/Patterns/Laws.antt =====
-- legacy_logs/assembler.py: neither a blank line nor the date of a page header is a page header.
use Prim.Native.Char.{Char, code}
use tecnosor_sas_migration_d.Common.{String, true, false, ◌≡◌, refl, Bool-cases, inl, inr, arith}
use tecnosor_sas_migration_d.Common.Texts.{drop_while, lstrip, is_blank, is_space}
use tecnosor_sas_migration_d.Legacy.Patterns.{
  is_digit, is_letter, at_least, page_header_line, page_date,
}

pub lstrip-blank : (s : String) → is_blank s ≡ true → lstrip s ≡ ""
unfolding is_blank lstrip drop_while
lstrip-blank String.[] h = refl
lstrip-blank (String.◌∷◌ c s) h = ground (arith, lstrip-blank s)

pub blank_no_header : (s : String) → is_blank s ≡ true → page_header_line s ≡ false
unfolding page_header_line at_least
blank_no_header s h = rw (lstrip-blank s h) refl

letter_no_space : (c : Char) → is_letter c ≡ true → is_space (code c) ≡ false
unfolding is_letter
letter_no_space c h = ground arith

letter_no_digit : (c : Char) → is_letter c ≡ true → is_digit c ≡ false
unfolding is_letter is_digit
letter_no_digit c h = ground arith

letter_no_header :
    (c : Char) (s : String) → is_letter c ≡ true → page_header_line (String.◌∷◌ c s) ≡ false
unfolding page_header_line lstrip drop_while at_least
letter_no_header c s h = rw (letter_no_space c h, letter_no_digit c h) refl

pub date_no_header : (s : String) → page_date s ≡ true → page_header_line s ≡ false
unfolding page_date at_least
date_no_header String.[] h = absurd (cc)
date_no_header (String.◌∷◌ c s) h = elim (Bool-cases (is_letter c)) [
  | inl letter ↦ letter_no_header c s letter
  | inr other ↦ absurd (cc (rw other at h))
]
