-- ===== src/Migration/Strip/Bounds.antt =====
-- The loop of `stripSQLComments` ends, and its result is no longer than what it is given.
use kratos_core.Prelude.{
  ℕ, zero, suc, ◌+◌, ◌≤◌, ◌≡◌, refl, false, some, List, [], ◌∷◌, length, length-append, arith,
}
use kratos_core.Migration.Strip.{
  SqlCommentState, normal, single_quote, double_quote, backtick, line_comment, block_comment,
  Scanner, take, drop_one, drop_at, push, token, in_normal, escaped, in_quote, in_line_comment,
  in_block_comment, in_state, step, scan, start, strip_sql_comments,
}

length-take : (n : ℕ) (xs : List ℕ) → length (take n xs) ≤ length xs
length-take zero xs = omega arith
length-take (suc n) [] = omega arith
length-take (suc n) (x ∷ xs) = omega (arith, length-take n xs)

length-drop_one : (xs : List ℕ) → length (drop_one xs) ≤ length xs
length-drop_one [] = omega arith
length-drop_one (x ∷ xs) = omega arith

length-drop_at : (c : ℕ) (xs : List ℕ) → length (drop_at c xs) ≤ length xs
length-drop_at c [] = omega arith
length-drop_at c (x ∷ xs) = ground arith

-- A round takes the byte at least, and writes no more than it takes.
abbrev Shrinks : Scanner → List ℕ → Scanner × List ℕ → Type 0
Shrinks s rest r =
    (length r.1 ≤ length rest)
    × (length r.0.result + length r.1 ≤ length s.result + suc (length rest))

token-Shrinks : (c : ℕ) (rest : List ℕ) (s : Scanner) → Shrinks s rest (token c rest s)
token-Shrinks c rest s = ground (
  arith,
  length-append s.result (c ∷ []),
  length-take s.line_output_start s.result,
  length-drop_one rest,
)

in_normal-Shrinks : (c : ℕ) (rest : List ℕ) (s : Scanner) → Shrinks s rest (in_normal c rest s)
in_normal-Shrinks c rest s = ground (
  arith,
  length-append s.result (c ∷ []),
  length-take s.line_output_start s.result,
  length-drop_at b'\n' rest,
  token-Shrinks c rest (record s { block_comment_standalone = false }),
)

escaped-Shrinks :
    (rest : List ℕ) (s : Scanner)
    → (length (escaped rest s).1 ≤ length rest)
      × (length (escaped rest s).0.result + length (escaped rest s).1
          ≤ length s.result + length rest)
escaped-Shrinks [] s = (omega arith, omega arith)
escaped-Shrinks (x ∷ rest) s = (omega arith, omega (arith, length-append s.result (x ∷ [])))

in_quote-Shrinks : (q c : ℕ) (rest : List ℕ) (s : Scanner) → Shrinks s rest (in_quote q c rest s)
in_quote-Shrinks q c rest s =
    ground (arith, length-append s.result (c ∷ []), escaped-Shrinks rest (push c s))

in_line_comment-Shrinks :
    (c : ℕ) (rest : List ℕ) (s : Scanner) → Shrinks s rest (in_line_comment c rest s)
in_line_comment-Shrinks c rest s =
    ground (arith, length-append s.result (c ∷ []), length-drop_at b'\n' rest)

in_block_comment-Shrinks :
    (c : ℕ) (rest : List ℕ) (s : Scanner) → Shrinks s rest (in_block_comment c rest s)
in_block_comment-Shrinks c rest s = ground (arith, length-drop_one rest)

in_state-Shrinks :
    (state : SqlCommentState) (c : ℕ) (rest : List ℕ) (s : Scanner)
    → Shrinks s rest (in_state state c rest s)
in_state-Shrinks normal c rest s = in_normal-Shrinks c rest s
in_state-Shrinks single_quote c rest s = in_quote-Shrinks _ c rest s
in_state-Shrinks double_quote c rest s = in_quote-Shrinks _ c rest s
in_state-Shrinks backtick c rest s = in_quote-Shrinks _ c rest s
in_state-Shrinks line_comment c rest s = in_line_comment-Shrinks c rest s
in_state-Shrinks block_comment c rest s = in_block_comment-Shrinks c rest s

step-Shrinks : (s : Scanner) (c : ℕ) (rest : List ℕ) → Shrinks s rest (step s c rest)
unfolding step
step-Shrinks s c rest = in_state-Shrinks s.state c rest s

-- Fuel for every byte is enough, and more changes nothing.
pub scan_fuel :
    (fuel more : ℕ) (s : Scanner) (content : List ℕ)
    → length content ≤ fuel
    → length content ≤ more
    → scan fuel s content ≡ scan more s content
unfolding scan
scan_fuel fuel more s [] h k = refl
scan_fuel zero more s (c ∷ rest) h k = ground (arith, h)
scan_fuel (suc fuel) zero s (c ∷ rest) h k = ground (arith, k)
scan_fuel (suc fuel) (suc more) s (c ∷ rest) h k =
    let short = (step-Shrinks s c rest).0 in
    scan_fuel fuel more (step s c rest).0 (step s c rest).1 (omega (arith, short))
      (omega (arith, short))

scan-Bounded :
    (fuel : ℕ) (s : Scanner) (content : List ℕ)
    → length content ≤ fuel
    → (r : List ℕ) × (scan fuel s content ≡ some r) × (length r ≤ length s.result + length content)
unfolding scan
scan-Bounded fuel s [] h = (s.result, refl, omega arith)
scan-Bounded zero s (c ∷ rest) h = ground (arith, h)
scan-Bounded (suc fuel) s (c ∷ rest) h =
    let (short, small) = step-Shrinks s c rest in
    let (r, e, b) = scan-Bounded fuel (step s c rest).0 (step s c rest).1 (omega (arith, short)) in
    (r, e, omega (arith, small, b))

-- The loop ends for every script, and the result has no more bytes than the script.
pub strip_sql_comments-Total :
    (content : List ℕ)
    → (r : List ℕ) × (strip_sql_comments content ≡ some r) × (length r ≤ length content)
unfolding strip_sql_comments start
strip_sql_comments-Total content =
    let (r, e, b) = scan-Bounded (length content) start content (omega arith) in
    (r, e, omega (arith, b))
