-- ===== src/Audit/Laws.antt =====
-- sassessment/state/events.py: what is left in a value that was redacted.
use tecnosor_sas_migration_d.Audit.{
  is_sensitive, redacted_mark, Substitutions, substitute, redact, redact_items, redact_fields,
  Logged, nothing, words, count, truth, listed, tuple, mapped, Entries, no_entries, also, Keyed,
  no_keys, keyed,
}
use tecnosor_sas_migration_d.Common.{String, Bool, true, false, ◌≡◌, refl, if◌then◌else◌}

-- At every depth of dicts and lists, each text has the property, and a sensitive key holds the mark
-- alone. Of what a tuple holds nothing is said.
unfoldable mutual
  pub IsClean : (String → Type 0) → Logged → Type 0
  IsClean P nothing = Unit
  IsClean P (words s) = P s
  IsClean P (count n) = Unit
  IsClean P (truth b) = Unit
  IsClean P (listed xs) = AreClean P xs
  IsClean P (tuple xs) = Unit
  IsClean P (mapped fs) = HasClean P fs

  pub AreClean : (String → Type 0) → Entries → Type 0
  AreClean P no_entries = Unit
  AreClean P (also x xs) = IsClean P x × AreClean P xs

  pub HasClean : (String → Type 0) → Keyed → Type 0
  HasClean P no_keys = Unit
  HasClean P (keyed k v fs) =
      (IsClean P v × (is_sensitive k ≡ true → v ≡ words redacted_mark)) × HasClean P fs

-- the value that a key is given
marked :
    (P : String → Type 0) (secret : Bool) (v : Logged)
    → IsClean P v
    → P redacted_mark
    → IsClean P (if secret then words redacted_mark else v)
      × (secret ≡ true → (if secret then words redacted_mark else v) ≡ words redacted_mark)
unfolding IsClean
marked P true v h m = (m, λ e. refl)
marked P false v h m = (h, λ e. absurd (cc))

mutual
  unfolding redact IsClean

  redact-clean :
      (P : String → Type 0) (subs : Substitutions) (v : Logged)
      → ((s : String) → P (substitute subs s))
      → P redacted_mark
      → IsClean P (redact subs v)
  redact-clean P subs nothing h m = tt
  redact-clean P subs (words s) h m = h s
  redact-clean P subs (count n) h m = tt
  redact-clean P subs (truth b) h m = tt
  redact-clean P subs (listed xs) h m = redact_items-clean P subs xs h m
  redact-clean P subs (tuple xs) h m = tt
  redact-clean P subs (mapped fs) h m = redact_fields-clean P subs fs h m

  redact_items-clean :
      (P : String → Type 0) (subs : Substitutions) (xs : Entries)
      → ((s : String) → P (substitute subs s))
      → P redacted_mark
      → AreClean P (redact_items subs xs)
  redact_items-clean P subs no_entries h m = tt
  redact_items-clean P subs (also x xs) h m =
      (redact-clean P subs x h m, redact_items-clean P subs xs h m)

  redact_fields-clean :
      (P : String → Type 0) (subs : Substitutions) (fs : Keyed)
      → ((s : String) → P (substitute subs s))
      → P redacted_mark
      → HasClean P (redact_fields subs fs)
  redact_fields-clean P subs no_keys h m = tt
  redact_fields-clean P subs (keyed k v fs) h m = (
    marked P (is_sensitive k) (redact subs v) (redact-clean P subs v h m) m,
    redact_fields-clean P subs fs h m,
  )

-- Where the substitutions leave texts with a property, which the mark has as well: in a redacted value
-- each text at any depth of dicts and lists has the property, and each sensitive key there holds the
-- mark alone. What a tuple holds is not cleared.
pub redact-IsClean :
    (P : String → Type 0) (subs : Substitutions) (v : Logged)
    → ((s : String) → P (substitute subs s))
    → P redacted_mark
    → IsClean P (redact subs v)
redact-IsClean P subs v h m = redact-clean P subs v h m
