-- ===== src/Legacy/Assembler.antt =====
-- legacy_logs/assembler.py: LogAssembler, which puts the lines of a log together to records. The text of
-- a record is kept as the list of its lines, and the stack with its latest record first. A line comes
-- without its line end, and its offsets count characters.
pub mod Placed
pub mod Complete
pub mod Laws
use Prim.Native.Char.{Char, code}
use tecnosor_sas_migration_d.Common.{
  ℕ, zero, suc, String, Bool, true, false, Option, none, some, List, [], ◌∷◌, ◌++◌, ◌&&◌, ◌||◌, ◌+◌,
  ◌=?◌, if◌then◌else◌, not,
}
use tecnosor_sas_migration_d.Common.Texts.{
  drop_while, lstrip, rstrip, text_length, append, starts_with, is_blank,
}
use tecnosor_sas_migration_d.Legacy.Patterns.{
  source_new, source_cont, page_header_line, page_date, time_sleep_line, status_line, autovar_line,
}

pub data Anchor : Type 0 where
  page_header tb_log sas_source sas_source_cont sas_message checkpoint time_sleep call_dmf : Anchor
  framework_status sas_autovar raw_unknown : Anchor

-- RawRecord, with its text as lines
pub record Draft : Type 0 where
  pub anchor : Anchor
  pub lines : List String
  pub start_line : ℕ
  pub end_line : ℕ
  pub start_offset : ℕ
  pub end_offset : ℕ

-- A physical line with its number and its offsets.
pub record Line : Type 0 where
  pub content : String
  pub number : ℕ
  pub offset : ℕ
  pub end_offset : ℕ

pub record Assembler : Type 0 where
  pub stack : List Draft
  pub current : Option Draft
  pub page_date_pending : Bool

abbrev is_message : String → Bool
is_message s = starts_with "NOTE:" s || (starts_with "WARNING:" s || starts_with "ERROR:" s)

abbrev is_checkpoint : String → Bool
is_checkpoint s =
    starts_with "#Tiempo actual:" s
    || (starts_with "#Desde el comienzo" s || starts_with "$Desde el anterior hito" s)

unfoldable pub detect_anchor : String → Option Anchor
detect_anchor s =
    if page_header_line s
    then some page_header
    else if starts_with "TB_LOG:" s
    then some tb_log
    else if source_new s
    then some sas_source
    else if starts_with "!+" s
    then some sas_source_cont
    else if is_message s
    then some sas_message
    else if is_checkpoint s
    then some checkpoint
    else if time_sleep_line s
    then some time_sleep
    else if starts_with "CALL_DMF:" s
    then some call_dmf
    else if status_line s
    then some framework_status
    else if autovar_line s
    then some sas_autovar
    else none

-- `"\n".join(lines)`
unfoldable pub raw_text : List String → String
unfolding append
raw_text [] = ""
raw_text (x ∷ []) = x
raw_text (x ∷ y ∷ xs) = append x (append "\n" (raw_text (y ∷ xs)))

-- `text.count('"') % 2 == 1`
unfoldable pub odd_quotes : String → Bool
odd_quotes String.[] = false
odd_quotes (String.◌∷◌ c s) = let rest = odd_quotes s in if code c =? b'"' then not rest else rest

-- `text.endswith("-")`
unfoldable pub ends_with_dash : String → Bool
ends_with_dash String.[] = false
ends_with_dash (String.◌∷◌ c String.[]) = code c =? b'-'
ends_with_dash (String.◌∷◌ c (String.◌∷◌ d s)) = ends_with_dash (String.◌∷◌ d s)

unfoldable pub is_tb_log_continuation : String → String → Bool
is_tb_log_continuation text next =
    odd_quotes text
    || (is_blank next
        || (ends_with_dash (rstrip text)
            || (starts_with "\"" (lstrip next) || starts_with "-" (lstrip next))))

abbrev pub is_empty_text : String → Bool
is_empty_text String.[] = true
is_empty_text (String.◌∷◌ c s) = false

abbrev pub has_text : Draft → Bool
has_text r = not (is_empty_text (raw_text r.lines))

abbrev pub flush_record : Option Draft → Assembler → Assembler
flush_record none a = a
flush_record (some r) a =
    if has_text r
    then record a { stack = r ∷ a.stack; current = none }
    else record a { current = none }

unfoldable pub flush_current : Assembler → Assembler
flush_current a = flush_record a.current a

-- the line goes to the record
abbrev pub extend : Line → String → Draft → Draft
extend l c r = record r {
  lines = r.lines ++ c ∷ [];
  end_line = l.number;
  end_offset = l.end_offset;
}

abbrev pub started : Anchor → Line → String → Draft
started k l c = record {
  anchor = k;
  lines = c ∷ [];
  start_line = l.number;
  end_line = l.number;
  start_offset = l.offset;
  end_offset = l.end_offset;
}

-- `content.lstrip("\x0c").strip()`
unfoldable pub header_text : String → String
header_text c = lstrip (rstrip (drop_while (λ x. code x =? 12) c))

abbrev pub push : Draft → Assembler → Assembler
push r a = record a { stack = r ∷ a.stack }

abbrev pub extend_record : Line → String → Option Draft → Assembler → Assembler
extend_record l c none a = a
extend_record l c (some r) a = record a { current = some (extend l c r) }

unfoldable pub extend_current : Line → String → Assembler → Assembler
extend_current l c a = extend_record l c a.current a

-- the date goes to the header, which is the latest record
abbrev pub extend_latest : Line → String → List Draft → Assembler → Assembler
extend_latest l c [] a = a
extend_latest l c (header ∷ rest) a = record a {
  stack = extend l c header ∷ rest;
  page_date_pending = false;
}

unfoldable pub extend_header : Line → String → Assembler → Assembler
extend_header l c a = extend_latest l c a.stack a

-- What a line does to the current record.
pub data Verdict : Type 0 where
  continues ends stays : Verdict

abbrev decided : Bool → Verdict
decided more = if more then continues else ends

abbrev pub is_source_cont : Option Anchor → Bool
is_source_cont (some sas_source_cont) = true
is_source_cont _ = false

abbrev pub is_plain : Option Anchor → Bool
is_plain none = true
is_plain (some k) = false

unfoldable pub verdict : Anchor → Option Anchor → String → String → Verdict
verdict tb_log next text c = decided (is_tb_log_continuation text c)
verdict sas_source next text c = decided (is_source_cont next || source_cont c)
verdict sas_message next text c = decided (is_plain next)
verdict sas_autovar next text c = decided (is_plain next)
verdict framework_status next text c = decided (starts_with " " c)
verdict checkpoint next text c = decided (starts_with " " c)
verdict time_sleep next text c = decided (starts_with " " c)
verdict call_dmf next text c = decided (starts_with " " c)
verdict _ next text c = stays

-- the kinds whose record stays current
abbrev pub is_held : Anchor → Bool
is_held tb_log = true
is_held sas_message = true
is_held sas_autovar = true
is_held sas_source = true
is_held _ = false

unfoldable pub start_record : Option Anchor → Line → String → Assembler → Assembler
start_record none l c a = push (started raw_unknown l c) a
start_record (some k) l c a =
    let flushed = flush_current a in
    if is_held k
    then record flushed { current = some (started k l c) }
    else push (started k l c) flushed

abbrev pub apply_verdict : Verdict → Option Anchor → Line → String → Draft → Assembler → Assembler
apply_verdict continues next l c r a = record a { current = some (extend l c r) }
apply_verdict ends next l c r a = start_record next l c (flush_current a)
apply_verdict stays next l c r a = start_record next l c a

abbrev pub settle_current : Option Draft → Option Anchor → Line → String → Assembler → Assembler
settle_current none next l c a = start_record next l c a
settle_current (some r) next l c a =
    apply_verdict (verdict r.anchor next (raw_text r.lines) c) next l c r a

abbrev pub is_header : Option Anchor → Bool
is_header (some page_header) = true
is_header _ = false

unfoldable pub consume_anchor : Option Anchor → Line → String → Assembler → Assembler
consume_anchor next l c a =
    if is_header next
    then record (push (started page_header l (header_text c)) (flush_current a)) {
      page_date_pending = true;
    }
    else settle_current a.current next l c a

-- `content` is the line without the white space at its end
unfoldable pub consume_content : Line → String → Assembler → Assembler
consume_content l c a =
    if is_blank c
    then if a.page_date_pending then a else extend_current l c a
    else if a.page_date_pending && page_date c
    then extend_header l c a
    else consume_anchor (detect_anchor c) l c (record a { page_date_pending = false })

unfoldable pub consume : Line → Assembler → Assembler
consume l a = consume_content l (rstrip l.content) a

abbrev pub new_assembler : Assembler
new_assembler = record { stack = []; current = none; page_date_pending = false }

-- A raw line is its text with the length of its line end.
unfoldable pub consume_lines : List (String × ℕ) → ℕ → ℕ → Assembler → Assembler
consume_lines [] number offset a = a
consume_lines ((s, eol) ∷ rest) number offset a =
    consume_lines rest (suc number) (offset + (text_length s + eol)) (
      consume
        (record {
          content = s;
          number = suc number;
          offset = offset;
          end_offset = offset + text_length s;
        })
        a)

abbrev pub oldest_first : List Draft → List Draft
oldest_first [] = []
oldest_first (r ∷ rs) = oldest_first rs ++ r ∷ []

unfoldable pub assemble_records : List (String × ℕ) → List Draft
assemble_records handle =
    oldest_first (flush_current (consume_lines handle 0 0 new_assembler)).stack
