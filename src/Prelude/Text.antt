-- ===== src/Prelude/Text.antt =====
-- The parts of Go's `strings` and `unicode` packages that the program uses, over code points.
-- Case mapping is that of ASCII; a letter outside it stays as it is.
use Prim.Native.Nat.{ℕ, zero, suc, ◌+◌, ◌-◌}
use Prim.Native.Char.{Char, code}
use Prim.Native.String.{String, ◌++◌ as str_append}
use mathlib.Core.Path.{◌≡◌, refl}
use mathlib.Core.Bool.{Bool, true, false, not, ◌&&◌, ◌||◌}
use mathlib.Core.Option.{Option, none, some}
use mathlib.Core.List.{List, [], ◌∷◌}
use text.Mathlib.Text.{◌==◌ as str_beq, starts_with}
use kratos_core.Prelude.Tests.{leb, nat_beq, if◌then◌else◌}

abbrev pub snoc : String → Char → String
snoc s c = str_append s (String.◌∷◌ c String.[])

-- unicode.IsSpace
unfoldable pub is_space : ℕ → Bool
is_space c =
    (leb 9 c && leb c 13)
    || nat_beq c 32
    || nat_beq c 0x85
    || nat_beq c 0xa0
    || nat_beq c 0x1680
    || (leb 0x2000 c && leb c 0x200a)
    || nat_beq c 0x2028
    || nat_beq c 0x2029
    || nat_beq c 0x202f
    || nat_beq c 0x205f
    || nat_beq c 0x3000

-- strings.Fields, from the word so far.
fields_from : String → String → List String
unfolding is_space
fields_from word String.[] = if str_beq word "" then [] else word ∷ []
fields_from word (String.◌∷◌ c s) =
    let sp = is_space (code c) in
    let rest = fields_from (if sp then "" else snoc word c) s in
    if sp && not (str_beq word "") then word ∷ rest else rest

unfoldable pub fields : String → List String
unfolding fields_from
fields s = fields_from "" s

-- strings.Split at one character, from the part so far.
split_from : ℕ → String → String → List String
split_from sep part String.[] = part ∷ []
split_from sep part (String.◌∷◌ c s) =
    let cut = nat_beq (code c) sep in
    let rest = split_from sep (if cut then "" else snoc part c) s in
    if cut then part ∷ rest else rest

unfoldable pub split : ℕ → String → List String
unfolding split_from
split sep s = split_from sep "" s

-- The code points of a text.
unfoldable pub codes : String → List ℕ
codes String.[] = []
codes (String.◌∷◌ c s) = code c ∷ codes s

unfoldable pub lower : ℕ → ℕ
lower c = if leb b'A' c && leb c b'Z' then c + 32 else c

unfoldable pub upper : ℕ → ℕ
upper c = if leb b'a' c && leb c b'z' then c - 32 else c

-- strings.EqualFold
fold_eq : List ℕ → List ℕ → Bool
fold_eq [] [] = true
fold_eq (a ∷ s) (b ∷ t) = nat_beq (lower a) (lower b) && fold_eq s t
fold_eq _ _ = false

unfoldable pub equal_fold : String → String → Bool
unfolding fold_eq lower codes
equal_fold s t = fold_eq (codes s) (codes t)

-- strings.HasPrefix
abbrev pub has_prefix : String → String → Bool
has_prefix s p = starts_with s p

fields_test : fields " Bearer  tok\t" ≡ "Bearer" ∷ "tok" ∷ []
unfolding fields
fields_test = refl

split_test : split b'/' "/a/b" ≡ "" ∷ "a" ∷ "b" ∷ []
unfolding split
split_test = refl

fold_test : equal_fold "bEARER" "Bearer" ≡ true
unfolding equal_fold
fold_test = refl

-- strings.TrimPrefix
drop_codes : ℕ → String → String
drop_codes zero s = s
drop_codes (suc n) String.[] = String.[]
drop_codes (suc n) (String.◌∷◌ c s) = drop_codes n s

count_codes : String → ℕ
count_codes String.[] = 0
count_codes (String.◌∷◌ c s) = suc (count_codes s)

unfoldable pub trim_prefix : String → String → String
unfolding drop_codes count_codes
trim_prefix s p = if has_prefix s p then drop_codes (count_codes p) s else s

trim_test : trim_prefix "/a/b" "/" ≡ "a/b"
unfolding trim_prefix
trim_test = refl

-- strings.TrimSpace
unfoldable pub trim_left : String → String
trim_left String.[] = String.[]
trim_left (String.◌∷◌ c s) =
    let rest = trim_left s in if is_space (code c) then rest else String.◌∷◌ c s

unfoldable pub trim_right : String → String
trim_right String.[] = String.[]
trim_right (String.◌∷◌ c s) =
    let rest = trim_right s in
    if is_space (code c) && str_beq rest "" then "" else String.◌∷◌ c rest

unfoldable pub trim_space : String → String
unfolding trim_left trim_right
trim_space s = trim_right (trim_left s)

trim_space_test : trim_space " a b " ≡ "a b"
unfolding trim_space is_space
trim_space_test = refl

-- The text before the first character `c`, or all of it.
unfoldable pub before : ℕ → String → String
before c String.[] = String.[]
before c (String.◌∷◌ d s) =
    let rest = before c s in if nat_beq (code d) c then "" else String.◌∷◌ d rest

-- The text after the first character `c`, where there is one.
unfoldable pub after : ℕ → String → Option String
after c String.[] = none
after c (String.◌∷◌ d s) = let rest = after c s in if nat_beq (code d) c then some s else rest

-- strings.ReplaceAll, one character by another.
unfoldable pub replace_all : ℕ → Char → String → String
replace_all c new String.[] = String.[]
replace_all c new (String.◌∷◌ d s) =
    String.◌∷◌ (if nat_beq (code d) c then new else d) (replace_all c new s)

nth_char : ℕ → Char → String → Char
nth_char n d String.[] = d
nth_char zero d (String.◌∷◌ c s) = c
nth_char (suc n) d (String.◌∷◌ c s) = nth_char n d s

lower_char : Char → Char
unfolding nth_char
lower_char d =
    if leb b'A' (code d) && leb (code d) b'Z'
    then nth_char (code d - b'A') d "abcdefghijklmnopqrstuvwxyz"
    else d

upper_char : Char → Char
unfolding nth_char
upper_char d =
    if leb b'a' (code d) && leb (code d) b'z'
    then nth_char (code d - b'a') d "ABCDEFGHIJKLMNOPQRSTUVWXYZ"
    else d

-- strings.ToLower and strings.ToUpper
unfoldable pub to_upper : String → String
unfolding upper_char
to_upper String.[] = String.[]
to_upper (String.◌∷◌ d s) = String.◌∷◌ (upper_char d) (to_upper s)

unfoldable pub to_lower : String → String
unfolding lower_char
to_lower String.[] = String.[]
to_lower (String.◌∷◌ d s) = String.◌∷◌ (lower_char d) (to_lower s)

cut_test : (before b';' "a;b" ≡ "a") × (after b';' "a;b" ≡ some "b")
unfolding before after
cut_test = (refl, refl)

case_test : (to_lower "GeT-1" ≡ "get-1") × (to_upper "GeT-1" ≡ "GET-1")
unfolding to_lower to_upper
case_test = (refl, refl)

-- What `%q` writes inside the quotes for printable characters and NUL.
abbrev escape : ℕ → String → String
escape c s =
    if nat_beq c b'"'
    then "\\\""
    else if nat_beq c 92
    then "\\\\"
    else if nat_beq c 0
    then "\\x00"
    else s

unfoldable pub escaped : String → String
escaped String.[] = ""
escaped (String.◌∷◌ c s) = str_append (escape (code c) (String.◌∷◌ c String.[])) (escaped s)

-- `%q` of a text of printable characters and NULs.
unfoldable pub quoted : String → String
unfolding escaped
quoted s = str_append "\"" (str_append (escaped s) "\"")
