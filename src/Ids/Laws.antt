-- ===== src/Ids/Laws.antt =====
-- sassessment/ids.py: the slug of an identifier is safe as a part of a path.
use Prim.Native.Char.{Char}
use Prim.Native.String.{char_at}
use tecnosor_sas_migration_d.Common.{
  ℕ, zero, suc, String, Bool, true, false, ◌&&◌, ◌||◌, ◌==◌, ◌≡◌, ◌≢◌, ◌≤◌, refl, Bool-cases, inl,
  inr, arith, if◌then◌else◌, eq_iff,
}
use tecnosor_sas_migration_d.Common.Texts.{
  cons_unless_empty, drop_while, lower, take_chars, text_length,
}
use tecnosor_sas_migration_d.Ids.{is_slug_char, is_dash, dashed, strip_dashes_right, or_batch, slug}

-- Each character is a small letter, a digit or a dash.
unfoldable pub all_slug : String → Bool
all_slug String.[] = true
all_slug (String.◌∷◌ c s) = (is_slug_char c || is_dash c) && all_slug s

and_intro : (a b : Bool) → a ≡ true → b ≡ true → (a && b) ≡ true
and_intro a b h k = ground arith

and_left : (a b : Bool) → (a && b) ≡ true → a ≡ true
and_left a b h = ground arith

and_right : (a b : Bool) → (a && b) ≡ true → b ≡ true
and_right a b h = ground arith

dashed-all_slug : (in_run : Bool) (s : String) → all_slug (dashed in_run s) ≡ true
unfolding all_slug dashed is_slug_char
dashed-all_slug in_run String.[] = refl
dashed-all_slug in_run (String.◌∷◌ c s) = elim (Bool-cases (is_slug_char c)) [
  | inl kept ↦ rw (kept, kept) (dashed-all_slug false s)
  | inr other ↦ rw other (skipped in_run (dashed-all_slug true s))
]
  where
    skipped :
        (b : Bool)
        → all_slug (dashed true s) ≡ true
        → all_slug (if b then dashed true s else String.◌∷◌ (char_at "-" 0) (dashed true s)) ≡ true
    skipped true h = h
    skipped false h = and_intro _ _ refl h

cons-all_slug :
    (drop : Bool) (c : Char) (s : String)
    → (is_slug_char c || is_dash c) ≡ true
    → all_slug s ≡ true
    → all_slug (cons_unless_empty drop c s) ≡ true
unfolding all_slug
cons-all_slug true c String.[] h k = refl
cons-all_slug false c String.[] h k = and_intro _ _ h refl
cons-all_slug drop c (String.◌∷◌ d s) h k = and_intro _ _ h k

strip-all_slug : (s : String) → all_slug s ≡ true → all_slug (strip_dashes_right s) ≡ true
unfolding all_slug strip_dashes_right
strip-all_slug String.[] h = refl
strip-all_slug (String.◌∷◌ c s) h =
    cons-all_slug (is_dash c) c (strip_dashes_right s) (and_left _ _ h)
      (strip-all_slug s (and_right _ _ h))

drop-all_slug :
    (p : Char → Bool) (s : String) → all_slug s ≡ true → all_slug (drop_while p s) ≡ true
unfolding all_slug drop_while
drop-all_slug p String.[] h = refl
drop-all_slug p (String.◌∷◌ c s) h = elim (Bool-cases (p c)) [
  | inl drops ↦ rw drops (drop-all_slug p s (and_right _ _ h))
  | inr stops ↦ rw stops h
]

take-all_slug : (n : ℕ) (s : String) → all_slug s ≡ true → all_slug (take_chars n s) ≡ true
unfolding all_slug take_chars
take-all_slug zero s h = refl
take-all_slug (suc n) String.[] h = refl
take-all_slug (suc n) (String.◌∷◌ c s) h =
    and_intro _ _ (and_left _ _ h) (take-all_slug n s (and_right _ _ h))

take-length : (n : ℕ) (s : String) → text_length (take_chars n s) ≤ n
unfolding take_chars text_length
take-length zero s = omega arith
take-length (suc n) String.[] = omega arith
take-length (suc n) (String.◌∷◌ c s) = omega (arith, take-length n s)

-- What an identifier's part must be: safe characters, at most 24 of them, and at least one.
pub record IsSlug (s : String) : Type 0 where
  pub safe : all_slug s ≡ true
  pub short : text_length s ≤ 24
  pub not_empty : s ≢ ""

or_batch-IsSlug : (s : String) → all_slug s ≡ true → text_length s ≤ 24 → IsSlug (or_batch s)
unfolding all_slug text_length is_slug_char
or_batch-IsSlug s h k = elim (Bool-cases (s == "")) [
  | inl same ↦ rw same (record { safe = refl; short = omega arith; not_empty = λ e. absurd (cc) })
  | inr other ↦
      rw other
        (record { safe = h; short = k; not_empty = λ e. absurd (cc ((eq_iff s "").1 e, other)) })
]

-- The slug of any text has small letters, digits and dashes only, at most 24 characters, and is not empty.
pub slug-IsSlug : (s : String) → IsSlug (slug s)
unfolding slug
slug-IsSlug s =
    or_batch-IsSlug _
      (take-all_slug 24 _
        (drop-all_slug is_dash _ (strip-all_slug _ (dashed-all_slug false (lower s)))))
      (take-length 24 _)
