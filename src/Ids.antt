-- ===== src/Ids.antt =====
-- sassessment/ids.py: the identifier of a batch. The date and the random token of `new_id` are
-- parameters; letters are the ASCII ones.
pub mod Laws
use Prim.Native.Char.{Char, code}
use Prim.Native.String.{char_at}
use tecnosor_sas_migration_d.Common.{
  ℕ, String, Bool, true, false, ◌&&◌, ◌||◌, leb, ◌=?◌, ◌==◌, if◌then◌else◌,
}
use tecnosor_sas_migration_d.Common.Texts.{append, cons_unless_empty, drop_while, lower, take_chars}

-- `[a-z0-9]`
unfoldable pub is_slug_char : Char → Bool
is_slug_char c =
    (leb b'a' (code c) && leb (code c) b'z') || (leb b'0' (code c) && leb (code c) b'9')

abbrev pub is_dash : Char → Bool
is_dash c = code c =? b'-'

-- `re.sub(r"[^a-z0-9]+", "-", s)`; `in_run` says that the run of other characters has its dash
unfoldable pub dashed : Bool → String → String
dashed in_run String.[] = String.[]
dashed in_run (String.◌∷◌ c s) =
    let kept = String.◌∷◌ c (dashed false s) in
    let skipped = dashed true s in
    if is_slug_char c then kept else if in_run then skipped else String.◌∷◌ (char_at "-" 0) skipped

-- `s.rstrip("-")`
unfoldable pub strip_dashes_right : String → String
strip_dashes_right String.[] = String.[]
strip_dashes_right (String.◌∷◌ c s) = cons_unless_empty (is_dash c) c (strip_dashes_right s)

abbrev pub or_batch : String → String
or_batch s = if s == "" then "batch" else s

-- `_slug(text)`, with `max_len` 24
unfoldable pub slug : String → String
unfolding lower dashed drop_while strip_dashes_right take_chars
slug s = or_batch (take_chars 24 (drop_while is_dash (strip_dashes_right (dashed false (lower s)))))

-- `base` is `new_id("BAT")`
unfoldable pub batch_id : String → String → String
unfolding append
batch_id base hint = if hint == "" then base else append base (append "-" (slug hint))
