-- ===== src/Locale.antt =====
-- resource/locale/locale.go: the normal form of a language tag, and the candidates of an
-- `Accept-Language` text.
pub mod Candidates
use kratos_core.Prelude.{
  ℕ, zero, suc, String, Bool, true, false, not, ◌&&◌, ◌||◌, Option, none, some, List, [], ◌∷◌, ◌++◌,
  ltb, nat_beq, if◌then◌else◌,
}
use Prim.Native.Char.{Char, char, code}
use Prim.Native.String.{◌++◌ as str_append}
use kratos_core.Prelude.Eq.{◌==◌, string_eq, contains}
use kratos_core.Prelude.Text.{
  trim_space, before, after, replace_all, to_lower, split, snoc, equal_fold,
}

-- `language.Parse` with `Tag.String`, and `strconv.ParseFloat`: a float from 0 on in units of 2⁻¹⁰⁷⁴,
-- which is exact; `none` for an error, a negative number, an infinity or NaN. `one` is 1.
pub record Parsers : Type 0 where
  pub parse_tag : String → Option String
  pub parse_float : String → Option ℕ
  pub one : ℕ

pub record Preference : Type 0 where
  pub locale : String
  pub quality : ℕ
  pub order : ℕ

module _ (p : Parsers) where
  abbrev or_lower : String → Option String → String
  or_lower value none = to_lower value
  or_lower value (some tag) = tag

  -- `Normalize`
  unfoldable pub normalize : String → String
  normalize value =
      let value = before b';' (before b',' (trim_space value)) in
      let value = replace_all b'_' (char b'-' tt) (trim_space value) in
      if value == "" then "" else or_lower value (p.parse_tag value)

  abbrev in_range : Option ℕ → Option ℕ
  in_range none = none
  in_range (some q) = if ltb p.one q then none else some q

  -- The loop over the parameters; a bad weight ends it with 0.
  abbrev parameters_quality : List String → ℕ → ℕ
  parameters_quality [] quality = quality
  parameters_quality (parameter ∷ rest) quality =
      let named = equal_fold (trim_space (before b'=' parameter)) "q" in
      elim (after b'=' parameter) [
        | none ↦ parameters_quality rest quality
        | some raw ↦
            if named
            then elim (in_range (p.parse_float (trim_space raw))) [
              | none ↦ 0
              | some q ↦ parameters_quality rest q
            ]
            else parameters_quality rest quality
      ]

  -- One part of the list, and what it adds.
  abbrev part_preference : ℕ → List String → List Preference
  part_preference order [] = []
  part_preference order (tag ∷ parameters) =
      let locale = normalize tag in
      let quality = parameters_quality parameters p.one in
      if locale == "" || locale == "*" || nat_beq quality 0
      then []
      else record { locale = locale; quality = quality; order = order } ∷ []

  unfoldable pub preferences_from : ℕ → List String → List Preference
  preferences_from order [] = []
  preferences_from order (part ∷ rest) =
      part_preference order (split b';' part) ++ preferences_from (suc order) rest

  -- The order of `sort.SliceStable`.
  abbrev pub precedes : Preference → Preference → Bool
  precedes a b =
      if nat_beq a.quality b.quality then ltb a.order b.order else ltb b.quality a.quality

  unfoldable pub insert_preference : Preference → List Preference → List Preference
  insert_preference a [] = a ∷ []
  insert_preference a (b ∷ l) =
      let rest = insert_preference a l in if precedes b a then b ∷ rest else a ∷ b ∷ l

  unfoldable pub sort_preferences : List Preference → List Preference
  unfolding insert_preference
  sort_preferences [] = []
  sort_preferences (a ∷ l) = insert_preference a (sort_preferences l)

  unfoldable pub parse_preferences : String → List Preference
  parse_preferences value = sort_preferences (preferences_from 0 (split b',' value))

-- `appendCandidate`; `seen` holds what `result` holds.
unfoldable pub append_candidate : List String → String → List String
append_candidate result value =
    if value == "" then result else if contains result value then result else result ++ value ∷ []

-- The texts before each dash, the longest first, as repeated `strings.CutLast` gives them.
unfoldable pub parents : String → String → List String
parents read String.[] = []
parents read (String.◌∷◌ c s) =
    let rest = parents (snoc read c) s in if nat_beq (code c) b'-' then rest ++ read ∷ [] else rest

unfoldable pub append_all : List String → List String → List String
unfolding append_candidate
append_all result [] = result
append_all result (value ∷ rest) = append_all (append_candidate result value) rest

unfoldable pub add_preferences : List String → List Preference → List String
unfolding append_all parents
add_preferences result [] = result
add_preferences result (a ∷ rest) =
    add_preferences (append_all result (a.locale ∷ parents "" a.locale)) rest

-- `Candidates`
unfoldable pub candidates : Parsers → String → List String
unfolding add_preferences
candidates p value = add_preferences [] (parse_preferences p value)
