-- ===== src/Migration/Strip/Verbatim.antt =====
-- What `stripSQLComments` keeps byte by byte, and the lines that it drops.
use kratos_core.Prelude.{
  ℕ, zero, suc, ◌≡◌, refl, sym, ap, ◌∙◌, Bool, true, false, ◌&&◌, ◌||◌, some, List, [], ◌∷◌, ◌++◌,
  length, nat_beq, arith, All,
}
use mathlib.Core.List.{append_assoc, append-nil}
use kratos_core.Migration.Strip.{
  SqlCommentState, normal, single_quote, double_quote, backtick, line_comment, block_comment,
  Scanner, at, dashes, take, in_normal, in_quote, in_line_comment, in_state, step, scan, start,
  strip_sql_comments,
}
use kratos_core.Migration.Strip.Bounds.{strip_sql_comments-Total}

-- Whether a comment may start at a byte.
abbrev pub opens : ℕ → List ℕ → Bool
opens c rest = nat_beq c b'#' || (nat_beq c b'-' && dashes rest) || (nat_beq c b'/' && at b'*' rest)

abbrev pub HasNoOpener : List ℕ → Type 0
HasNoOpener [] = Unit
HasNoOpener (c ∷ rest) = (opens c rest ≡ false) × HasNoOpener rest

-- Outside comments, with no line waiting to be dropped.
abbrev outside : SqlCommentState → Bool
outside line_comment = false
outside block_comment = false
outside _ = true

abbrev InText : Scanner → Type 0
InText s = (s.block_comment_standalone ≡ false) × (outside s.state ≡ true)

abbrev Copies : Scanner → ℕ → List ℕ → Scanner × List ℕ → Type 0
Copies s c rest r = (r.0.result ++ r.1 ≡ s.result ++ c ∷ rest) × InText r.0 × HasNoOpener r.1

in_normal-Copies :
    (c : ℕ) (rest : List ℕ) (s : Scanner)
    → s.block_comment_standalone ≡ false
    → s.state ≡ normal
    → opens c rest ≡ false
    → HasNoOpener rest
    → Copies s c rest (in_normal c rest s)
in_normal-Copies c rest s h n o k = ground (arith, append_assoc s.result (c ∷ []) rest)

in_quote-Copies :
    (q c : ℕ) (rest : List ℕ) (s : Scanner)
    → InText s
    → HasNoOpener rest
    → Copies s c rest (in_quote q c rest s)
in_quote-Copies q c [] s h k = ground (arith, append_assoc s.result (c ∷ []) [])
in_quote-Copies q c (x ∷ rest) s h (o, k) = ground (
  arith,
  append_assoc s.result (c ∷ []) (x ∷ rest),
  append_assoc (s.result ++ c ∷ []) (x ∷ []) rest,
)

in_state-Copies :
    (state : SqlCommentState) (c : ℕ) (rest : List ℕ) (s : Scanner)
    → s.state ≡ state
    → InText s
    → opens c rest ≡ false
    → HasNoOpener rest
    → Copies s c rest (in_state state c rest s)
in_state-Copies normal c rest s e (h, g) o k = in_normal-Copies c rest s h e o k
in_state-Copies single_quote c rest s e h o k = in_quote-Copies _ c rest s h k
in_state-Copies double_quote c rest s e h o k = in_quote-Copies _ c rest s h k
in_state-Copies backtick c rest s e h o k = in_quote-Copies _ c rest s h k
in_state-Copies line_comment c rest s e (h, g) o k = ground (arith, e, g)
in_state-Copies block_comment c rest s e (h, g) o k = ground (arith, e, g)

scan-Copies :
    (fuel : ℕ) (s : Scanner) (content : List ℕ) (r : List ℕ)
    → InText s
    → HasNoOpener content
    → scan fuel s content ≡ some r
    → r ≡ s.result ++ content
unfolding scan step
scan-Copies fuel s [] r h k e = ground (arith, e, append-nil s.result)
scan-Copies zero s (c ∷ rest) r h k e = ground (arith, e)
scan-Copies (suc fuel) s (c ∷ rest) r h (o, k) e =
    let (same, inside, more) = in_state-Copies s.state c rest s refl h o k in
    scan-Copies fuel _ _ r inside more e ∙ same

-- A script in which no comment starts, also not inside a quoted text, is left as it is.
pub strip_sql_comments-HasNoOpener :
    (content : List ℕ) → HasNoOpener content → strip_sql_comments content ≡ some content
unfolding strip_sql_comments start
strip_sql_comments-HasNoOpener content h =
    let (r, e, b) = strip_sql_comments-Total content in
    e ∙ ap some (scan-Copies (length content) start content r (refl, refl) h e)

-- The rest of a comment's line.
abbrev pub IsLine : List ℕ → Type 0
IsLine l = All (λ (c : ℕ). (nat_beq c b'\n' ≡ false) × (nat_beq c b'\r' ≡ false)) l

-- Blanks and tabs.
abbrev pub IsBlank : List ℕ → Type 0
IsBlank l = All (λ (c : ℕ). nat_beq c b' ' || nat_beq c b'\t' ≡ true) l

-- A line of which only blanks were read, after the lines that were kept.
abbrev pub at_line : List ℕ → List ℕ → Scanner
at_line kept blanks = record {
  result = kept ++ blanks;
  state = normal;
  line_start = true;
  line_output_start = length kept;
  line_comment_standalone = false;
  block_comment_standalone = false;
}

-- A line comment with no other text on its line.
abbrev alone : List ℕ → Scanner
alone kept = record (at_line kept []) {
  result = kept;
  line_comment_standalone = true;
  state = line_comment;
}

take-append : (kept blanks : List ℕ) → take (length kept) (kept ++ blanks) ≡ kept
take-append [] blanks = refl
take-append (x ∷ kept) blanks = ap (λ l. x ∷ l) (take-append kept blanks)

comment_dropped :
    (kept comment rest : List ℕ)
    → IsLine comment
    → scan (length (comment ++ b'\n' ∷ rest)) (alone kept) (comment ++ b'\n' ∷ rest)
      ≡ scan (length rest) (at_line kept []) rest
unfolding scan step
comment_dropped kept [] rest h =
    ap (λ l. scan (length rest) (record (at_line kept []) { result = l }) rest)
      (sym (append-nil kept))
comment_dropped kept (c ∷ comment) rest ((n, r), h) =
    ap (λ r. scan (length (comment ++ b'\n' ∷ rest)) r.0 r.1) skipped
    ∙ comment_dropped kept comment rest h
  where
    skipped :
        in_line_comment c (comment ++ b'\n' ∷ rest) (alone kept)
        ≡ (alone kept, comment ++ b'\n' ∷ rest)
    skipped = ground (arith, n, r)

-- Where a line of a script, outside quotes and block comments, holds nothing but blanks and a `#`
-- comment, the scan goes on as if the line and its line break were not there.
pub scan_comment_line :
    (kept read blanks comment rest : List ℕ)
    → IsBlank blanks
    → IsLine comment
    → let line = blanks ++ b'#' ∷ (comment ++ b'\n' ∷ rest) in
      scan (length line) (at_line kept read) line ≡ scan (length rest) (at_line kept []) rest
unfolding scan step
scan_comment_line kept read [] comment rest b h =
    ap
      (λ l.
        scan (length (comment ++ b'\n' ∷ rest)) (record (alone kept) { result = l })
          (comment ++ b'\n' ∷ rest))
      (take-append kept read)
    ∙ comment_dropped kept comment rest h
scan_comment_line kept read (c ∷ blanks) comment rest (b, bs) h =
    ap (λ r. scan (length (blanks ++ b'#' ∷ (comment ++ b'\n' ∷ rest))) r.0 r.1)
      (blank_read c (blanks ++ b'#' ∷ (comment ++ b'\n' ∷ rest)) b)
    ∙ scan_comment_line kept (read ++ c ∷ []) blanks comment rest bs h
  where
    blank_read :
        (c : ℕ) (rest : List ℕ)
        → nat_beq c b' ' || nat_beq c b'\t' ≡ true
        → in_normal c rest (at_line kept read) ≡ (at_line kept (read ++ c ∷ []), rest)
    blank_read c rest b = ground (arith, append_assoc kept read (c ∷ []))
