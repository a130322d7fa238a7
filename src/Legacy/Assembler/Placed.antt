-- ===== src/Legacy/Assembler/Placed.antt =====
-- legacy_logs/assembler.py: where `consume` puts a line.
use tecnosor_sas_migration_d.Common.{
  String, Bool, true, false, Option, none, some, List, [], ◌∷◌, ◌≡◌, ◌≢◌, refl, Bool-cases, inl,
  inr, ◌++◌, arith, if◌then◌else◌,
}
use tecnosor_sas_migration_d.Common.Texts.{append, is_blank}
use tecnosor_sas_migration_d.Legacy.Assembler.{
  Anchor, Draft, Line, Assembler, detect_anchor, is_header, has_text, is_empty_text, raw_text,
  is_held, flush_record, flush_current, extend, started, header_text, extend_record, extend_latest,
  continues, ends, stays, Verdict, start_record, apply_verdict,
}
use tecnosor_sas_migration_d.Legacy.Patterns.{page_header_line, page_date}
use tecnosor_sas_migration_d.Legacy.Patterns.Laws.{blank_no_header, date_no_header}

-- the text of the record that a line begins
abbrev pub printed : String → String
printed c = if page_header_line c then header_text c else c

abbrev pub with_current : Option Draft → List Draft → List Draft
with_current none rs = rs
with_current (some r) rs = r ∷ rs

-- the records with the current one, the latest first
abbrev pub records : Assembler → List Draft
records a = with_current a.current a.stack

-- A blank line is dropped or goes to the latest record, another line goes to the latest record or begins
-- one.
pub data Placed (l : Line) (c : String) (rs : List Draft) : List Draft → Type 0 where
  dropped : is_blank c ≡ true → Placed l c rs rs
  joined :
      (r : Draft) (rest : List Draft)
      → rs ≡ r ∷ rest
      → page_header_line c ≡ false
      → Placed l c rs (extend l c r ∷ rest)
  opened : (k : Anchor) (s : String) → s ≡ printed c → Placed l c rs (started k l s ∷ rs)

abbrev pub IsHeld : Option Draft → Type 0
IsHeld none = Unit
IsHeld (some r) = (is_held r.anchor ≡ true) × (has_text r ≡ true)

-- The current record is of a kind that is held and has a text; where a date is waited for, there is no
-- current record and the latest one is on the stack.
pub record IsSound (a : Assembler) : Type 0 where
  pub held : IsHeld a.current
  pub idle : a.page_date_pending ≡ true → a.current ≡ none
  pub latest : a.page_date_pending ≡ true → a.stack ≢ []

-- what a line makes of an assembler
abbrev pub Step : Line → String → Assembler → Assembler → Type 0
Step l c a b = IsSound b × Placed l c (records a) (records b)

pub is_header-detect_anchor : (c : String) → is_header (detect_anchor c) ≡ page_header_line c
unfolding detect_anchor
is_header-detect_anchor c = ground arith

-- flushing
flushed :
    (o : Option Draft) (st : List Draft) (p : Bool)
    → IsHeld o
    → flush_record o (record { stack = st; current = o; page_date_pending = p })
      ≡ record { stack = with_current o st; current = none; page_date_pending = p }
flushed none st p h = refl
flushed (some r) st p h = rw (h.1) refl

pub flush_lem :
    (a : Assembler)
    → IsHeld a.current
    → flush_current a
      ≡ record { stack = records a; current = none; page_date_pending = a.page_date_pending }
unfolding flush_current
flush_lem a h = flushed a.current a.stack a.page_date_pending h

nonblank_text :
    (k : Anchor) (l : Line) (c : String) → is_blank c ≡ false → has_text (started k l c) ≡ true
unfolding is_blank raw_text
nonblank_text k l String.[] h = absurd (cc)
nonblank_text k l (String.◌∷◌ x s) h = refl

abbrev pub settled : List Draft → Assembler
settled st = record { stack = st; current = none; page_date_pending = false }

settled-IsSound : (st : List Draft) → IsSound (settled st)
settled-IsSound st = record { held = tt; idle = λ h. refl; latest = λ h. absurd (cc) }

-- a line that begins a record
pub start_record-Step :
    (next : Option Anchor) (l : Line) (c : String) (st : List Draft)
    → is_blank c ≡ false
    → page_header_line c ≡ false
    → Step l c (settled st) (start_record next l c (settled st))
unfolding start_record flush_current
start_record-Step none l c st b h = (settled-IsSound _, opened _ c (rw h refl))
start_record-Step (some k) l c st b h = elim (Bool-cases (is_held k)) [
  | inl held ↦ rw held (
    record {
      held = (held, nonblank_text k l c b);
      idle = λ x. absurd (cc);
      latest = λ x. absurd (cc);
    },
    opened k c (rw h refl),
  )
  | inr other ↦ rw other (settled-IsSound _, opened k c (rw h refl))
]

-- The line goes to the latest record, which stays as it is otherwise.
joined_text :
    (xs : List String) (c : String)
    → is_empty_text (raw_text xs) ≡ false
    → is_empty_text (raw_text (xs ++ c ∷ [])) ≡ false
unfolding raw_text append
joined_text [] c h = absurd (cc)
joined_text (String.[] ∷ []) c h = refl
joined_text (String.◌∷◌ d s ∷ []) c h = refl
joined_text (String.[] ∷ y ∷ zs) c h = refl
joined_text (String.◌∷◌ d s ∷ y ∷ zs) c h = refl

extend-IsHeld : (l : Line) (c : String) (r : Draft) → IsHeld (some r) → IsHeld (some (extend l c r))
extend-IsHeld l c r h = (h.0, rw (joined_text r.lines c (ground (arith, h.1))) refl)

pub extend_current-Step :
    (l : Line) (c : String) (o : Option Draft) (st : List Draft)
    → is_blank c ≡ true
    → IsHeld o
    → Step l c
        (record { stack = st; current = o; page_date_pending = false })
        (extend_record l c o (record { stack = st; current = o; page_date_pending = false }))
extend_current-Step l c none st b h = (settled-IsSound st, dropped b)
extend_current-Step l c (some r) st b h = (
  record { held = extend-IsHeld l c r h; idle = λ x. absurd (cc); latest = λ x. absurd (cc) },
  joined r st refl (blank_no_header c b),
)

pub extend_latest-Step :
    (l : Line) (c : String) (st : List Draft)
    → page_date c ≡ true
    → st ≢ []
    → Step l c
        (record { stack = st; current = none; page_date_pending = true })
        (extend_latest l c st (record { stack = st; current = none; page_date_pending = true }))
extend_latest-Step l c [] d h = absurd (h refl)
extend_latest-Step l c (r ∷ rest) d h = (settled-IsSound _, joined r rest refl (date_no_header c d))

-- the current record ends, or takes the line
pub apply_verdict-Step :
    (v : Verdict) (next : Option Anchor) (l : Line) (c : String) (r : Draft) (st : List Draft)
    → v ≢ stays
    → is_blank c ≡ false
    → page_header_line c ≡ false
    → IsHeld (some r)
    → Step l c
        (record { stack = st; current = some r; page_date_pending = false })
        (apply_verdict v next l c r
          (record { stack = st; current = some r; page_date_pending = false }))
apply_verdict-Step continues next l c r st n b h k = (
  record { held = extend-IsHeld l c r k; idle = λ x. absurd (cc); latest = λ x. absurd (cc) },
  joined r st refl h,
)
apply_verdict-Step ends next l c r st n b h k =
    rw (flush_lem (record { stack = st; current = some r; page_date_pending = false }) k)
      (start_record-Step next l c (r ∷ st) b h)
apply_verdict-Step stays next l c r st n b h k = absurd (n refl)
