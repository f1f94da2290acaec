-- ===== src/Text.antt =====
-- What the program uses of Go's `strings` and `strconv` on whole texts. A text is its sequence of
-- code points.
pub mod Decimal
pub mod Trim
pub mod Split
use Prim.Native.Char.{Char, code}
use Prim.Native.String.{count}
use text.Mathlib.Text.{starts_with}
use databricks_emulator.Base.{
  ℕ, zero, suc, ◌/◌, ◌%◌, ◌^◌, ◌-◌, ◌<>◌, ltb, ◌≡◌, refl, Bool, ◌||◌, ◌&&◌, String, leb,
  if◌then◌else◌,
}
use databricks_emulator.Base.Eq.{◌==◌, nat_comparable, string_comparable}

-- unicode.IsSpace.
unfoldable pub is_space : ℕ → Bool
is_space c =
    (leb 9 c && leb c 13)
    || (c == 32
        || (c == 0x85
            || (c == 0xa0
                || (c == 0x1680
                    || ((leb 0x2000 c && leb c 0x200a)
                        || (c == 0x2028
                            || (c == 0x2029 || (c == 0x202f || (c == 0x205f || c == 0x3000)))))))))

unfoldable pub trim_left : String → String
trim_left String.[] = ""
trim_left (String.◌∷◌ c s) =
    let rest = trim_left s in if is_space (code c) then rest else String.◌∷◌ c s

-- A character before what is left of the rest, dropped if it is a space with nothing behind it.
unfoldable pub trim_snoc : Char → String → String
trim_snoc c String.[] = if is_space (code c) then "" else String.◌∷◌ c ""
trim_snoc c (String.◌∷◌ d s) = String.◌∷◌ c (String.◌∷◌ d s)

unfoldable pub trim_right : String → String
trim_right String.[] = ""
trim_right (String.◌∷◌ c s) = trim_snoc c (trim_right s)

-- strings.TrimSpace.
unfoldable pub trim_space : String → String
unfolding trim_left trim_right trim_snoc is_space
trim_space s = trim_right (trim_left s)

-- strings.TrimRight(s, c), for one character.
unfoldable pub trim_right_of : ℕ → String → String
trim_right_of c String.[] = ""
trim_right_of c (String.◌∷◌ d s) =
    let rest = trim_right_of c s in
    if code d == c && ◌==◌ {K = String} rest "" then "" else String.◌∷◌ d rest

trim_right_of_example : trim_right_of 47 "a/b//" ≡ "a/b"
unfolding trim_right_of
trim_right_of_example = refl

-- strings.HasPrefix.
abbrev pub has_prefix : String → String → Bool
has_prefix s prefix = starts_with s prefix

replace_from : ℕ → String → String → String → String
replace_from k old new String.[] = ""
replace_from (suc k) old new (String.◌∷◌ c s) = replace_from k old new s
replace_from zero old new (String.◌∷◌ c s) =
    let replaced = new <> replace_from (count old - 1) old new s in
    let passed = String.◌∷◌ c (replace_from zero old new s) in
    if starts_with (String.◌∷◌ c s) old then replaced else passed

-- strings.ReplaceAll(s, old, new), for an `old` that is not empty.
unfoldable pub replace_all : String → String → String → String
unfolding replace_from
replace_all s old new = replace_from zero old new s

replace_all_example : replace_all "a{{input}}b{{input}}" "{{input}}" "x\n" ≡ "ax\nbx\n"
unfolding replace_all
replace_all_example = refl

unfoldable pub digit : ℕ → String
digit zero = "0"
digit (suc zero) = "1"
digit (suc (suc zero)) = "2"
digit (suc (suc (suc zero))) = "3"
digit (suc (suc (suc (suc zero)))) = "4"
digit (suc (suc (suc (suc (suc zero))))) = "5"
digit (suc (suc (suc (suc (suc (suc zero)))))) = "6"
digit (suc (suc (suc (suc (suc (suc (suc zero))))))) = "7"
digit (suc (suc (suc (suc (suc (suc (suc (suc zero)))))))) = "8"
digit _ = "9"

-- The decimal digits of a number, most significant first; a number below the fuel is written whole.
unfoldable pub decimal_fuel : ℕ → ℕ → String
decimal_fuel zero n = ""
decimal_fuel (suc fuel) n =
    let more = decimal_fuel fuel (n / 10) <> digit (n % 10) in if ltb n 10 then digit n else more

unfoldable pub decimal : ℕ → String
unfolding decimal_fuel digit
decimal n = decimal_fuel (suc n) n

-- `%d` of an int64, from its bit pattern.
unfoldable pub show_int64 : ℕ → String
unfolding decimal
show_int64 n = if ltb n (2 ^ 63) then decimal n else "-" <> decimal (2 ^ 64 - n)

show_int64_examples : (show_int64 1204 ≡ "1204") × (show_int64 (2 ^ 64 - 1) ≡ "-1")
unfolding show_int64
show_int64_examples = (refl, refl)

-- fmt.Sprintf(prefix + "%d", n), for an int64 `n`.
unfoldable pub numbered : String → ℕ → String
unfolding show_int64
numbered prefix n = prefix <> show_int64 n
