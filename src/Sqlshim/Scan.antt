-- ===== src/Sqlshim/Scan.antt =====
-- internal/sqlshim/shim.go: reading literals and identifiers.
--
-- The loops over an index are machines that read one character after another.
use Prim.Native.Char.{Char, code}
use databricks_emulator.Base.{
  ℕ, ◌≡◌, refl, Bool, true, false, ◌&&◌, ◌||◌, not, List, [], ◌∷◌, keep, map, String, ◌<>◌,
  if◌then◌else◌, leb,
}
use databricks_emulator.Base.Eq.{◌==◌, nat_comparable, string_comparable}
use databricks_emulator.Text.{trim_space}
use databricks_emulator.Text.Split.{onto}

abbrev pub is_letter_or_digit : ℕ → Bool
is_letter_or_digit c =
    (leb b'a' c && leb c b'z') || ((leb b'A' c && leb c b'Z') || (leb b'0' c && leb c b'9'))

abbrev pub is_ident_char : ℕ → Bool
is_ident_char c = c == b'_' || (c == b'-' || is_letter_or_digit c)

abbrev pub is_safe_char : ℕ → Bool
is_safe_char c = c == b'_' || (c == b'-' || (c == b'.' || is_letter_or_digit c))

unfoldable pub all_safe : String → Bool
all_safe String.[] = true
all_safe (String.◌∷◌ c s) = is_safe_char (code c) && all_safe s

unfoldable pub safe_segment : String → Bool
unfolding all_safe
safe_segment s = not (s == "" || (s == "." || s == "..")) && all_safe s

-- Where the blanking of literals stands; behind a quote in a literal, another one is an escape.
pub data Place : Type 0 where
  outside : Place
  inside : Place
  at_quote : Place

next_place : Place → ℕ → Place
next_place outside c = if c == 39 then inside else outside
next_place inside c = if c == 39 then at_quote else inside
next_place at_quote c = if c == 39 then inside else outside

blanked : Place → Char → String → String
blanked outside c rest = String.◌∷◌ c rest
blanked inside c rest = rest
blanked at_quote c rest = if code c == 39 then rest else "'" <> String.◌∷◌ c rest

strip_from : Place → String → String
unfolding next_place blanked
strip_from at_quote String.[] = "'"
strip_from _ String.[] = ""
strip_from place (String.◌∷◌ c s) = blanked place c (strip_from (next_place place (code c)) s)

unfoldable pub strip_literals : String → String
unfolding strip_from
strip_literals s = strip_from outside s

strip_literals_example : strip_literals "a 'it''s' b'c" ≡ "a '' b'"
unfolding strip_literals
strip_literals_example = refl

-- The characters of an identifier, with those between backticks; the flag stands for the inside.
ident_from : Bool → String → String
ident_from quoted String.[] = ""
ident_from quoted (String.◌∷◌ c s) =
    let tick = code c == 96 in
    let rest = ident_from (if tick then not quoted else quoted) s in
    if quoted || (tick || (code c == b'.' || is_ident_char (code c))) then String.◌∷◌ c rest else ""

unfoldable pub first_ident : String → String
unfolding ident_from
first_ident rest = trim_space (ident_from false (trim_space rest))

-- Where the splitting of an identifier stands.
pub data Part : Type 0 where
  start : Part
  plain : Part
  quoted : Part
  closed : Part

next_part : Part → ℕ → Part
next_part quoted c = if c == 96 then closed else quoted
next_part plain c = if c == b'.' then start else plain
next_part _ c = if c == 96 then quoted else if c == b'.' then start else plain

with_char : Part → Char → List String → List String
with_char quoted c rest = if code c == 96 then "" ∷ rest else onto c rest
with_char plain c rest = if code c == b'.' then "" ∷ rest else onto c rest
with_char start c rest =
    if code c == 96 then rest else if code c == b'.' then "" ∷ rest else onto c rest
with_char closed c rest = if code c == 96 || code c == b'.' then rest else onto c rest

parts_from : Part → String → List String
unfolding next_part with_char
parts_from start String.[] = []
parts_from closed String.[] = []
parts_from _ String.[] = "" ∷ []
parts_from part (String.◌∷◌ c s) = with_char part c (parts_from (next_part part (code c)) s)

unfoldable pub split_ident : String → List String
unfolding parts_from
split_ident ident =
    keep (λ p. not (◌==◌ {K = String} p "")) (map trim_space (parts_from start (trim_space ident)))

split_ident_examples :
    (split_ident "`a.b`.c.`d" ≡ "a.b" ∷ "c" ∷ "d" ∷ [])
    × (first_ident " a.`b c`.d (x)" ≡ "a.`b c`.d")
unfolding split_ident first_ident keep trim_space onto
split_ident_examples = (refl, refl)
