-- ===== src/Migration/Strip.antt =====
-- resource/migration/description.go: `stripSQLComments`, over bytes. `step` is one round of its
-- loop, given the byte at the index and the bytes after it; it returns the bytes that are left.
pub mod Bounds
pub mod Verbatim
use kratos_core.Prelude.{
  ℕ, zero, suc, ◌≡◌, refl, Bool, true, false, not, ◌&&◌, ◌||◌, Option, none, some, List, [], ◌∷◌,
  ◌++◌, length, nat_beq, if◌then◌else◌,
}

pub data SqlCommentState : Type 0 where
  normal single_quote double_quote backtick line_comment block_comment : SqlCommentState

-- The variables of the loop, less its index.
pub record Scanner : Type 0 where
  pub result : List ℕ
  pub state : SqlCommentState
  pub line_start : Bool
  pub line_output_start : ℕ
  pub line_comment_standalone : Bool
  pub block_comment_standalone : Bool

abbrev pub take {ℓ} : {A : Type ℓ} → ℕ → List A → List A
take zero xs = []
take (suc n) [] = []
take (suc n) (x ∷ xs) = x ∷ take n xs

-- `isSQLWhitespace`
abbrev pub is_sql_whitespace : ℕ → Bool
is_sql_whitespace c =
    nat_beq c b' ' || nat_beq c b'\t' || nat_beq c b'\n' || nat_beq c b'\r' || nat_beq c 12

-- Whether the next byte is `c`.
abbrev pub at : ℕ → List ℕ → Bool
at c [] = false
at c (x ∷ rest) = nat_beq x c

abbrev pub drop_one : List ℕ → List ℕ
drop_one [] = []
drop_one (x ∷ rest) = rest

abbrev pub drop_at : ℕ → List ℕ → List ℕ
drop_at c [] = []
drop_at c (x ∷ rest) = if nat_beq x c then rest else x ∷ rest

-- After the first dash of a line comment: a second one, at the end or before white space.
abbrev pub white_or_end : List ℕ → Bool
white_or_end [] = true
white_or_end (x ∷ rest) = is_sql_whitespace x

abbrev pub dashes : List ℕ → Bool
dashes [] = false
dashes (x ∷ rest) = nat_beq x b'-' && white_or_end rest

abbrev pub push : ℕ → Scanner → Scanner
push c s = record s { result = s.result ++ c ∷ [] }

-- A byte of the text, which ends the start of the line.
abbrev pub text : ℕ → Scanner → Scanner
text c s = record s { result = s.result ++ c ∷ []; line_start = false }

-- A line break that stays.
abbrev pub break_line : ℕ → Scanner → Scanner
break_line c s = record s {
  result = s.result ++ c ∷ [];
  line_start = true;
  line_output_start = length (s.result ++ c ∷ []);
}

-- `result[:lineOutputStart]`
abbrev pub cut : Scanner → List ℕ
cut s = take s.line_output_start s.result

-- The end of a line that held a block comment only: the line goes.
abbrev pub drop_line : Scanner → Scanner
drop_line s = record s {
  result = cut s;
  block_comment_standalone = false;
  line_start = true;
  line_output_start = length (cut s);
}

abbrev pub open_line : Scanner → Scanner
open_line s = record s {
  result = if s.line_start then cut s else s.result;
  line_comment_standalone = s.line_start || s.line_comment_standalone;
  state = line_comment;
}

abbrev pub open_block : Scanner → Scanner
open_block s = record s {
  result = if s.line_start then cut s else s.result;
  block_comment_standalone = s.line_start || s.block_comment_standalone;
  state = block_comment;
}

-- The inner `switch`.
abbrev pub token : ℕ → List ℕ → Scanner → Scanner × List ℕ
token c rest s =
    if nat_beq c b'\''
    then (record (text c s) { state = single_quote }, rest)
    else if nat_beq c b'"'
    then (record (text c s) { state = double_quote }, rest)
    else if nat_beq c b'`'
    then (record (text c s) { state = backtick }, rest)
    else if nat_beq c b'#'
    then (open_line s, rest)
    else if nat_beq c b'-' && dashes rest
    then (open_line s, drop_one rest)
    else if nat_beq c b'/' && at b'*' rest
    then (open_block s, drop_one rest)
    else (text c s, rest)

abbrev pub in_normal : ℕ → List ℕ → Scanner → Scanner × List ℕ
in_normal c rest s =
    if nat_beq c b'\r'
    then (if s.block_comment_standalone
        then (drop_line s, drop_at b'\n' rest)
        else (break_line c s, rest))
    else if nat_beq c b'\n'
    then (if s.block_comment_standalone then (drop_line s, rest) else (break_line c s, rest))
    else if s.line_start && (nat_beq c b' ' || nat_beq c b'\t')
    then (push c s, rest)
    else token c rest (record s { block_comment_standalone = false })

-- After the byte of a quoted text, with the quote that ends it.
abbrev pub escaped : List ℕ → Scanner → Scanner × List ℕ
escaped [] s = (s, [])
escaped (x ∷ rest) s = (push x s, rest)

abbrev pub in_quote : ℕ → ℕ → List ℕ → Scanner → Scanner × List ℕ
in_quote quote c rest s =
    if nat_beq c b'\\' && not (nat_beq (length rest) 0)
    then escaped rest (push c s)
    else if nat_beq c quote
    then (if at c rest
        then escaped rest (push c s)
        else (record (push c s) { state = normal }, rest))
    else (push c s, rest)

-- The end of a line that held a line comment only: the line goes.
abbrev pub end_line : Scanner → Scanner
end_line s = record s {
  line_comment_standalone = false;
  line_start = true;
  line_output_start = length s.result;
  state = normal;
}

abbrev pub in_line_comment : ℕ → List ℕ → Scanner → Scanner × List ℕ
in_line_comment c rest s =
    if nat_beq c b'\r'
    then (if s.line_comment_standalone
        then (end_line s, drop_at b'\n' rest)
        else (record (break_line c s) { state = normal }, rest))
    else if nat_beq c b'\n'
    then (if s.line_comment_standalone
        then (end_line s, rest)
        else (record (break_line c s) { state = normal }, rest))
    else (s, rest)

abbrev pub in_block_comment : ℕ → List ℕ → Scanner → Scanner × List ℕ
in_block_comment c rest s =
    if nat_beq c b'*' && at b'/' rest
    then (record s { state = normal }, drop_one rest)
    else (s, rest)

-- One round, by the state.
abbrev pub in_state : SqlCommentState → ℕ → List ℕ → Scanner → Scanner × List ℕ
in_state normal c rest s = in_normal c rest s
in_state single_quote c rest s = in_quote b'\'' c rest s
in_state double_quote c rest s = in_quote b'"' c rest s
in_state backtick c rest s = in_quote b'`' c rest s
in_state line_comment c rest s = in_line_comment c rest s
in_state block_comment c rest s = in_block_comment c rest s

unfoldable pub step : Scanner → ℕ → List ℕ → Scanner × List ℕ
step s c rest = in_state s.state c rest s

-- The loop; `none` where the fuel runs out.
unfoldable pub scan : ℕ → Scanner → List ℕ → Option (List ℕ)
unfolding step
scan fuel s [] = some s.result
scan zero s (c ∷ rest) = none
scan (suc fuel) s (c ∷ rest) = scan fuel (step s c rest).0 (step s c rest).1

unfoldable pub start : Scanner
start = record {
  result = [];
  state = normal;
  line_start = true;
  line_output_start = 0;
  line_comment_standalone = false;
  block_comment_standalone = false;
}

unfoldable pub strip_sql_comments : List ℕ → Option (List ℕ)
unfolding scan start
strip_sql_comments content = scan (length content) start content

-- "a -- b⏎c" loses its comment, and a line with nothing else goes.
strip_test :
    strip_sql_comments (b'a' ∷ b' ' ∷ b'-' ∷ b'-' ∷ b' ' ∷ b'b' ∷ b'\n' ∷ b'c' ∷ [])
    ≡ some (b'a' ∷ b' ' ∷ b'\n' ∷ b'c' ∷ [])
unfolding strip_sql_comments
strip_test = refl

strip_line_test : strip_sql_comments (b' ' ∷ b'#' ∷ b'b' ∷ b'\n' ∷ b'c' ∷ []) ≡ some (b'c' ∷ [])
unfolding strip_sql_comments
strip_line_test = refl
