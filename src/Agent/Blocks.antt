-- ===== src/Agent/Blocks.antt =====
-- sassessment/opencode_adapter/envelope.py, `_largest_brace_block`: the largest balanced block of
-- braces of a text that mentions "status". A text is the list of its characters.
use Prim.Native.Char.{Char, code}
use tecnosor_sas_migration_d.Common.Texts.{take_chars, text_length, contains}
use tecnosor_sas_migration_d.Common.{
  ℕ, suc, String, Bool, true, false, Option, none, some, List, [], ◌∷◌, ◌+◌, ◌-◌, ◌&&◌, not, ltb,
  ◌=?◌, if◌then◌else◌,
}

-- depth, in_string and escape
pub record Scan : Type 0 where
  pub depth : ℕ
  pub in_string : Bool
  pub escape : Bool

abbrev in_text : Scan → Char → Scan
in_text st c =
    if st.escape
    then record st { escape = false }
    else if code c =? b'\\'
    then record st { escape = true }
    else if code c =? b'"'
    then record st { in_string = false }
    else st

abbrev in_code : Scan → Char → Scan
in_code st c =
    if code c =? b'"'
    then record st { in_string = true }
    else if code c =? b'{'
    then record st { depth = st.depth + 1 }
    else if code c =? b'}'
    then record st { depth = st.depth - 1 }
    else st

unfoldable pub scan_char : Scan → Char → Scan
scan_char st c = if st.in_string then in_text st c else in_code st c

-- the brace that closes the block
unfoldable pub closes : Scan → Char → Bool
closes st c = not st.in_string && (code c =? b'}' && (st.depth - 1) =? 0)

abbrev one_more : Option ℕ → Option ℕ
one_more none = none
one_more (some n) = some (suc n)

-- The length of the block, if its last brace comes.
unfoldable pub block_length : Scan → String → Option ℕ
block_length st String.[] = none
block_length st (String.◌∷◌ c s) =
    let rest = one_more (block_length (scan_char st c) s) in if closes st c then some 1 else rest

abbrev add_block : Option ℕ → String → List String → List String
add_block none s bs = bs
add_block (some n) s bs = take_chars n s ∷ bs

abbrev pub start_scan : Scan
start_scan = record { depth = 0; in_string = false; escape = false }

-- the blocks from each opening brace that has a closing one
unfoldable pub blocks : String → List String
blocks String.[] = []
blocks (String.◌∷◌ c s) =
    let rest = blocks s in
    if code c =? b'{'
    then add_block (block_length start_scan (String.◌∷◌ c s)) (String.◌∷◌ c s) rest
    else rest

abbrev pub mentions_status : String → Bool
mentions_status b = contains "\"status\"" b

abbrev pub best_length : Option String → ℕ
best_length none = 0
best_length (some b) = text_length b

abbrev pub better : Option String → String → Option String
better best b = if ltb (best_length best) (text_length b) && mentions_status b then some b else best

unfoldable pub largest : Option String → List String → Option String
largest best [] = best
largest best (b ∷ bs) = largest (better best b) bs

unfoldable pub largest_brace_block : String → Option String
largest_brace_block text = largest none (blocks text)
