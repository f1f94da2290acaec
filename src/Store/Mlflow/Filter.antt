-- ===== src/Store/Mlflow/Filter.antt =====
-- internal/store/mlflow.go: the filters of the searches.
--
-- strings.ToLower and strings.ToUpper are arguments.
use Prim.Native.Char.{code}
use databricks_emulator.Base.{
  ℕ, ◌≡◌, refl, Bool, true, ◌&&◌, ◌||◌, Option, none, some, List, [], ◌∷◌, String, if◌then◌else◌,
}
use databricks_emulator.Base.Eq.{◌==◌, nat_comparable, string_comparable}
use databricks_emulator.Text.{trim_space}
use databricks_emulator.Text.Split.{prefixed, after}
use databricks_emulator.Store.Mlflow.{ml_active, ml_deleted}

unfoldable pub match_view : (String → String) → String → String → Bool
match_view to_upper lifecycle view =
    let wanted = to_upper (trim_space view) in
    if wanted == "DELETED_ONLY"
    then lifecycle == ml_deleted
    else if wanted == "ALL"
    then true
    else lifecycle == ml_active

-- A quote of either kind.
abbrev pub is_quote : ℕ → Bool
is_quote c = c == 34 || c == 39

trim_left_quotes : String → String
trim_left_quotes String.[] = ""
trim_left_quotes (String.◌∷◌ c s) =
    let rest = trim_left_quotes s in if is_quote (code c) then rest else String.◌∷◌ c s

trim_right_quotes : String → String
trim_right_quotes String.[] = ""
trim_right_quotes (String.◌∷◌ c s) =
    let rest = trim_right_quotes s in
    if is_quote (code c) && ◌==◌ {K = String} rest "" then "" else String.◌∷◌ c rest

abbrev pub name_prefixes : List String
name_prefixes = "name = " ∷ "name=" ∷ "name == " ∷ []

-- The first of the prefixes that the filter has.
name_behind : (String → String) → String → List String → Option String
unfolding trim_left_quotes trim_right_quotes
name_behind to_lower f [] = none
name_behind to_lower f (prefix ∷ prefixes) =
    let rest = name_behind to_lower f prefixes in
    if prefixed (to_lower f) (to_lower prefix)
    then some (trim_right_quotes (trim_left_quotes (trim_space (after f prefix))))
    else rest

-- The name that a filter asks for, empty for any, or none for a filter that is not implemented.
unfoldable pub parse_name_equals : (String → String) → String → Option String
unfolding name_behind
parse_name_equals to_lower filter =
    let f = trim_space filter in if f == "" then some "" else name_behind to_lower f name_prefixes

parse_name_equals_examples :
    (parse_name_equals (λ s. s) " name = 'iris' " ≡ some "iris")
    × (parse_name_equals (λ s. s) "name=='iris'" ≡ some "='iris")
    × (parse_name_equals (λ s. s) "name LIKE 'i%'" ≡ none)
unfolding parse_name_equals trim_space prefixed after
parse_name_equals_examples = (refl, refl, refl)
