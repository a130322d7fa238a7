-- ===== src/Legacy/Assembler/Laws.antt =====
-- legacy_logs/assembler.py: what the records of a log hold, and in which order they stand.
use tecnosor_sas_migration_d.Common.{
  String, Bool, true, false, Option, none, some, List, [], ◌≡◌, ◌≢◌, refl, Bool-cases, inl, inr,
}
use tecnosor_sas_migration_d.Common.Texts.{rstrip, is_blank}
use tecnosor_sas_migration_d.Legacy.Assembler.{
  Anchor, Draft, Line, Assembler, detect_anchor, is_held, extend_current, extend_header, verdict,
  stays, decided, settle_current, consume_anchor, consume_content, consume, page_header, tb_log,
  sas_source, sas_message, sas_autovar,
}
use tecnosor_sas_migration_d.Legacy.Assembler.Placed.{
  dropped, opened, IsHeld, IsSound, Step, flush_lem, start_record-Step, extend_current-Step,
  extend_latest-Step, apply_verdict-Step, is_header-detect_anchor,
}
use tecnosor_sas_migration_d.Legacy.Patterns.{page_header_line, page_date}

decided_lem : (b : Bool) → decided b ≢ stays
decided_lem true h = absurd (cc)
decided_lem false h = absurd (cc)

verdict_held :
    (k : Anchor) (next : Option Anchor) (t c : String)
    → is_held k ≡ true
    → verdict k next t c ≢ stays
unfolding verdict
verdict_held tb_log next t c h = decided_lem _
verdict_held sas_source next t c h = decided_lem _
verdict_held sas_message next t c h = decided_lem _
verdict_held sas_autovar next t c h = decided_lem _
verdict_held _ next t c h = absurd (cc)

settle_current-Step :
    (o : Option Draft) (next : Option Anchor) (l : Line) (c : String) (st : List Draft)
    → is_blank c ≡ false
    → page_header_line c ≡ false
    → IsHeld o
    → Step l c
        (record { stack = st; current = o; page_date_pending = false })
        (settle_current o next l c (record { stack = st; current = o; page_date_pending = false }))
settle_current-Step none next l c st b h k = start_record-Step next l c st b h
settle_current-Step (some r) next l c st b h k =
    apply_verdict-Step _ next l c r st (verdict_held r.anchor next _ c k.0) b h k

consume_anchor-Step :
    (l : Line) (c : String) (o : Option Draft) (st : List Draft)
    → is_blank c ≡ false
    → IsHeld o
    → Step l c
        (record { stack = st; current = o; page_date_pending = false })
        (consume_anchor
          (detect_anchor c)
          l
          c
          (record { stack = st; current = o; page_date_pending = false }))
unfolding consume_anchor
consume_anchor-Step l c o st b k = elim (Bool-cases (page_header_line c)) [
  | inl header ↦
      rw
        (
          is_header-detect_anchor c,
          header,
          flush_lem (record { stack = st; current = o; page_date_pending = false }) k,
        )
        (
          record { held = tt; idle = λ x. refl; latest = λ x e. cc },
          opened page_header _ (rw header refl),
        )
  | inr other ↦
      rw (is_header-detect_anchor c, other)
        (settle_current-Step o (detect_anchor c) l c st b other k)
]

-- While a date is waited for, there is no current record.
waiting-Step :
    (l : Line) (c : String) (o : Option Draft) (st : List Draft)
    → o ≡ none
    → st ≢ []
    → Step l c
        (record { stack = st; current = o; page_date_pending = true })
        (consume_content l c (record { stack = st; current = o; page_date_pending = true }))
unfolding consume_content extend_header
waiting-Step l c (some r) st h n = absurd (cc)
waiting-Step l c none st h n = elim (Bool-cases (is_blank c)) [
  | inl blank ↦ rw blank (record { held = tt; idle = λ x. refl; latest = λ x. n }, dropped blank)
  | inr text ↦ elim (Bool-cases (page_date c)) [
    | inl date ↦ rw (text, date) (extend_latest-Step l c st date n)
    | inr other ↦ rw (text, other) (consume_anchor-Step l c none st text tt)
  ]
]

busy-Step :
    (l : Line) (c : String) (o : Option Draft) (st : List Draft)
    → IsHeld o
    → Step l c
        (record { stack = st; current = o; page_date_pending = false })
        (consume_content l c (record { stack = st; current = o; page_date_pending = false }))
unfolding consume_content extend_current
busy-Step l c o st h = elim (Bool-cases (is_blank c)) [
  | inl blank ↦ rw blank (extend_current-Step l c o st blank h)
  | inr text ↦ rw text (consume_anchor-Step l c o st text h)
]

content-Step :
    (p : Bool) (l : Line) (c : String) (o : Option Draft) (st : List Draft)
    → IsSound (record { stack = st; current = o; page_date_pending = p })
    → Step l c
        (record { stack = st; current = o; page_date_pending = p })
        (consume_content l c (record { stack = st; current = o; page_date_pending = p }))
content-Step true l c o st h = waiting-Step l c o st (h.idle refl) (h.latest refl)
content-Step false l c o st h = busy-Step l c o st h.held

-- A line keeps the assembler sound, and is dropped as blank, goes to the latest record, or begins one.
pub consume-Step :
    (l : Line) (a : Assembler) → IsSound a → Step l (rstrip l.content) a (consume l a)
unfolding consume
consume-Step l a h = content-Step a.page_date_pending l (rstrip l.content) a.current a.stack h
