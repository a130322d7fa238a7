-- ===== src/Audit.antt =====
-- sassessment/state/events.py: the Redactor, which clears what goes to the log of the audit trail. The
-- substitutions of the configured patterns are parameters; keys are texts and are searched in ASCII
-- letters.
pub mod Laws
use tecnosor_sas_migration_d.Common.{ℕ, String, Bool, List, [], ◌∷◌, any, if◌then◌else◌}
use tecnosor_sas_migration_d.Common.Texts.{contains, lower}

abbrev pub sensitive_words : List String
sensitive_words =
    "password" ∷ "passwd" ∷ "pwd" ∷ "secret" ∷ "token" ∷ "credential" ∷ "api_key" ∷ "api-key"
    ∷ "apikey" ∷ []

-- `_SENSITIVE_KEYS.search(key)`
unfoldable pub is_sensitive : String → Bool
unfolding contains lower
is_sensitive k = any (λ w. contains w (lower k)) sensitive_words

abbrev pub redacted_mark : String
redacted_mark = "[REDACTED]"

abbrev pub Substitutions : Type 0
Substitutions = List (String → String)

unfoldable pub substitute : Substitutions → String → String
substitute [] s = s
substitute (sub ∷ subs) s = substitute subs (sub s)

-- What is given to be logged: also a tuple, which is no list.
mutual
  pub data Logged : Type 0 where
    nothing : Logged
    words : String → Logged
    count : ℕ → Logged
    truth : Bool → Logged
    listed : Entries → Logged
    tuple : Entries → Logged
    mapped : Keyed → Logged

  pub data Entries : Type 0 where
    no_entries : Entries
    also : Logged → Entries → Entries

  pub data Keyed : Type 0 where
    no_keys : Keyed
    keyed : String → Logged → Keyed → Keyed

-- What is no text, dict or list is passed on as it is, with what it holds.
unfoldable mutual
  pub redact : Substitutions → Logged → Logged
  redact subs nothing = nothing
  redact subs (words s) = words (substitute subs s)
  redact subs (count n) = count n
  redact subs (truth b) = truth b
  redact subs (listed xs) = listed (redact_items subs xs)
  redact subs (tuple xs) = tuple xs
  redact subs (mapped fs) = mapped (redact_fields subs fs)

  pub redact_items : Substitutions → Entries → Entries
  redact_items subs no_entries = no_entries
  redact_items subs (also x xs) = also (redact subs x) (redact_items subs xs)

  pub redact_fields : Substitutions → Keyed → Keyed
  redact_fields subs no_keys = no_keys
  redact_fields subs (keyed k v fs) =
      let clean = redact subs v in
      let rest = redact_fields subs fs in
      keyed k (if is_sensitive k then words redacted_mark else clean) rest
