-- ===== src/Legacy/Assembler/Complete.antt =====
-- legacy_logs/assembler.py: `assemble_records` keeps every line that is not blank, and its records follow
-- one another.
use tecnosor_sas_migration_d.Common.{
  ℕ, suc, String, true, false, List, [], ◌∷◌, ◌++◌, ◌≡◌, refl, ap, sym, ◌∙◌, Bool-cases, inl, inr,
  not, arith, ◌+◌, ◌≤◌, ◌<◌, filter, length,
}
use tecnosor_sas_migration_d.Common.Texts.{rstrip, text_length, is_blank}
use tecnosor_sas_migration_d.Legacy.Assembler.{
  Draft, Line, Assembler, extend, started, consume, new_assembler, consume_lines, oldest_first,
  assemble_records,
}
use tecnosor_sas_migration_d.Legacy.Assembler.Laws.{consume-Step}
use tecnosor_sas_migration_d.Legacy.Assembler.Placed.{
  printed, records, Placed, dropped, joined, opened, IsSound, flush_lem,
}
use tecnosor_sas_migration_d.Legacy.Patterns.Laws.{blank_no_header}
use tecnosor_sas_migration_d.Legacy.Patterns.{page_header_line}

-- the lines that are not blank
abbrev pub visible : List String → List String
visible xs = filter (λ s. not (is_blank s)) xs

-- the lines of records in order
abbrev pub lines_of : List Draft → List String
lines_of [] = []
lines_of (r ∷ rs) = r.lines ++ lines_of rs

-- the texts of a log as its records print them
abbrev pub printed_lines : List (String × ℕ) → List String
printed_lines [] = []
printed_lines ((s, eol) ∷ rest) = printed (rstrip s) ∷ printed_lines rest

append_assoc : (xs ys zs : List String) → (xs ++ ys) ++ zs ≡ xs ++ (ys ++ zs)
append_assoc [] ys zs = refl
append_assoc (x ∷ xs) ys zs = rw (append_assoc xs ys zs) refl

append_nil : (xs : List String) → xs ++ [] ≡ xs
append_nil [] = refl
append_nil (x ∷ xs) = rw (append_nil xs) refl

visible-append : (xs ys : List String) → visible (xs ++ ys) ≡ visible xs ++ visible ys
visible-append [] ys = refl
visible-append (x ∷ xs) ys = elim (Bool-cases (is_blank x)) [
  | inl b ↦ rw (b, visible-append xs ys) refl
  | inr b ↦ rw (b, visible-append xs ys) refl
]

lines_of-append : (rs : List Draft) (r : Draft) → lines_of (rs ++ r ∷ []) ≡ lines_of rs ++ r.lines
lines_of-append [] r = append_nil r.lines
lines_of-append (q ∷ rs) r =
    rw (lines_of-append rs r) (sym (append_assoc q.lines (lines_of rs) r.lines))

-- the visible lines of records that stand latest first
abbrev shown : List Draft → List String
shown rs = visible (lines_of (oldest_first rs))

shown-cons : (r : Draft) (rs : List Draft) → shown (r ∷ rs) ≡ shown rs ++ visible r.lines
shown-cons r rs =
    ap visible (lines_of-append (oldest_first rs) r)
    ∙ visible-append (lines_of (oldest_first rs)) r.lines

printed_plain : (c : String) → page_header_line c ≡ false → printed c ≡ c
printed_plain c h = rw h refl

blank_lem :
    (c : String) → is_blank c ≡ true → page_header_line c ≡ false → visible (printed c ∷ []) ≡ []
blank_lem c b h = rw (h, b) refl

-- a line adds itself
shown-Placed :
    (l : Line) (c : String) (rs qs : List Draft)
    → Placed l c rs qs
    → shown qs ≡ shown rs ++ visible (printed c ∷ [])
shown-Placed l c rs qs (dropped b) =
    rw (blank_lem c b (blank_no_header c b)) (sym (append_nil (shown rs)))
shown-Placed l c rs qs (joined r rest e h) =
    shown-cons (extend l c r) rest
    ∙ ap (λ x. shown rest ++ x) (visible-append r.lines (c ∷ []))
    ∙ sym (append_assoc (shown rest) (visible r.lines) (visible (c ∷ [])))
    ∙ ap (λ x. x ++ visible (c ∷ [])) (sym (shown-cons r rest))
    ∙ ap (λ x. shown x ++ visible (c ∷ [])) (sym e)
    ∙ ap (λ x. shown rs ++ visible (x ∷ [])) (sym (printed_plain c h))
shown-Placed l c rs qs (opened k s e) =
    shown-cons (started k l s) rs ∙ ap (λ x. shown rs ++ visible (x ∷ [])) e

-- The records stand latest first, none begins after it ends, and the next ends before it begins.
abbrev pub IsBelow : ℕ → List Draft → Type 0
IsBelow n [] = Unit
IsBelow n (r ∷ rs) = (r.end_line < n) × ((r.start_line ≤ r.end_line) × IsBelow r.start_line rs)

IsBelow-mono : (m n : ℕ) (rs : List Draft) → m ≤ n → IsBelow m rs → IsBelow n rs
IsBelow-mono m n [] h p = tt
IsBelow-mono m n (r ∷ rs) h p = (omega arith, p.1)

IsBelow-Placed :
    (l : Line) (c : String) (rs qs : List Draft)
    → IsBelow l.number rs
    → Placed l c rs qs
    → IsBelow (suc l.number) qs
IsBelow-Placed l c rs qs h (dropped b) = IsBelow-mono l.number (suc l.number) rs (omega arith) h
IsBelow-Placed l c rs qs h (joined r rest e n) =
    let (low, (up, below)) = rw e at h in (omega arith, (omega arith, below))
IsBelow-Placed l c rs qs h (opened k s e) = (omega arith, (omega arith, h))

-- after the lines of a log
pub record Assembled (n : ℕ) (ts : List String) (a : Assembler) : Type 0 where
  pub sound : IsSound a
  pub texts : shown (records a) ≡ ts
  pub below : IsBelow (suc n) (records a)

consume-Assembled :
    (l : Line) (ts : List String) (a : Assembler) (n : ℕ)
    → l.number ≡ suc n
    → Assembled n ts a
    → Assembled (suc n) (ts ++ visible (printed (rstrip l.content) ∷ [])) (consume l a)
consume-Assembled l ts a n e h =
    let (sound, placed) = consume-Step l a h.sound in
    record {
      sound = sound;
      texts =
          shown-Placed l (rstrip l.content) (records a) (records (consume l a)) placed
          ∙ ap (λ x. x ++ visible (printed (rstrip l.content) ∷ [])) h.texts;
      below = rw (← e) (
          IsBelow-Placed l (rstrip l.content) (records a) (records (consume l a)) (rw e h.below)
            placed);
    }

consume_lines-Assembled :
    (handle : List (String × ℕ)) (n offset m : ℕ) (ts us : List String) (a : Assembler)
    → m ≡ n + length handle
    → us ≡ ts ++ visible (printed_lines handle)
    → Assembled n ts a
    → Assembled m us (consume_lines handle n offset a)
unfolding consume_lines
consume_lines-Assembled [] n offset m ts us a e f h = record {
  sound = h.sound;
  texts = h.texts ∙ sym (f ∙ append_nil ts);
  below = IsBelow-mono (suc n) (suc m) (records a) (omega arith) h.below;
}
consume_lines-Assembled ((s, eol) ∷ rest) n offset m ts us a e f h =
    consume_lines-Assembled rest (suc n) (offset + (text_length s + eol)) m
      (ts ++ visible (printed (rstrip s) ∷ [])) us _ (omega arith)
      (f
        ∙ ap (λ x. ts ++ x) (visible-append (printed (rstrip s) ∷ []) (printed_lines rest))
        ∙ sym (append_assoc ts (visible (printed (rstrip s) ∷ [])) (visible (printed_lines rest))))
      (consume-Assembled
        (record {
          content = s;
          number = suc n;
          offset = offset;
          end_offset = offset + text_length s;
        })
        ts a n refl h)

new_assembler-Assembled : Assembled 0 [] new_assembler
new_assembler-Assembled = record {
  sound = record { held = tt; idle = λ h. refl; latest = λ h. absurd (cc) };
  texts = refl;
  below = tt;
}

assembled :
    (handle : List (String × ℕ))
    → Assembled
        (length handle)
        (visible (printed_lines handle))
        (consume_lines handle 0 0 new_assembler)
assembled handle =
    consume_lines-Assembled handle 0 0 (length handle) [] _ new_assembler (omega arith) refl
      new_assembler-Assembled

-- The records of a log hold its lines that are not blank, in order, each without the white space at its
-- end, a page header also without that in front; no line is lost or held twice.
pub assemble_records-lines :
    (handle : List (String × ℕ))
    → visible (lines_of (assemble_records handle)) ≡ visible (printed_lines handle)
unfolding assemble_records
assemble_records-lines handle =
    let done = assembled handle in
    rw (flush_lem (consume_lines handle 0 0 new_assembler) done.sound.held) done.texts

-- The records begin after `lo`, end before `hi`, none ends before it begins, and each begins after the
-- one in front ends.
abbrev pub IsInOrder : ℕ → ℕ → List Draft → Type 0
IsInOrder lo hi [] = lo ≤ hi
IsInOrder lo hi (r ∷ rs) =
    (lo ≤ r.start_line) × ((r.start_line ≤ r.end_line) × IsInOrder (suc r.end_line) hi rs)

IsInOrder-snoc :
    (lo hi : ℕ) (rs : List Draft) (r : Draft)
    → IsInOrder lo r.start_line rs
    → r.start_line ≤ r.end_line
    → r.end_line < hi
    → IsInOrder lo hi (rs ++ r ∷ [])
IsInOrder-snoc lo hi [] r h a b = (h, (a, omega arith))
IsInOrder-snoc lo hi (q ∷ rs) r h a b =
    (h.0, (h.1.0, IsInOrder-snoc (suc q.end_line) hi rs r h.1.1 a b))

oldest_first-IsInOrder : (n : ℕ) (rs : List Draft) → IsBelow n rs → IsInOrder 0 n (oldest_first rs)
oldest_first-IsInOrder n [] h = omega arith
oldest_first-IsInOrder n (r ∷ rs) h =
    IsInOrder-snoc 0 n (oldest_first rs) r (oldest_first-IsInOrder r.start_line rs h.1.1) h.1.0 h.0

-- The records of a log stand in the order of its lines, share no line, and end within the log.
pub assemble_records-IsInOrder :
    (handle : List (String × ℕ)) → IsInOrder 0 (suc (length handle)) (assemble_records handle)
unfolding assemble_records
assemble_records-IsInOrder handle =
    let done = assembled handle in
    rw (flush_lem (consume_lines handle 0 0 new_assembler) done.sound.held)
      (oldest_first-IsInOrder (suc (length handle)) _ done.below)
