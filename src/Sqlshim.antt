-- ===== src/Sqlshim.antt =====
-- internal/sqlshim/shim.go: the rewriting of warehouse SQL.
--
-- The regular expressions are parameters. The source reads bytes; a byte of a character that is not
-- ASCII is in none of its classes, so a text is read by characters here.
pub mod Scan
pub mod Managed
pub mod Comments
use Prim.Native.Char.{Char, code}
use Prim.Native.String.{count}
use databricks_emulator.Base.{
  ℕ, zero, suc, ◌≡◌, refl, Bool, true, false, ◌&&◌, ◌||◌, not, Option, none, some, List, [], ◌∷◌,
  keep, map, String, ◌<>◌, if◌then◌else◌, leb,
}
use databricks_emulator.Base.Eq.{◌==◌, nat_comparable, string_comparable}
use databricks_emulator.Text.{trim_space, trim_right_of, replace_all}
use databricks_emulator.Text.Split.{after}
use databricks_emulator.Sqlshim.Scan.{safe_segment, strip_literals, first_ident, split_ident}

abbrev pub default_root : String
default_root = "file:///data/delta/managed"

pub record SchemaRef : Type 0 where
  pub catalog : String
  pub schema : String

pub record ExternalTable : Type 0 where
  pub catalog : String
  pub schema : String
  pub name : String
  pub location : String

pub record Plan : Type 0 where
  pub sql : String
  pub skip_engine : Bool
  pub empty_json : Bool
  pub create_schema : Option SchemaRef
  pub register : Option ExternalTable
  -- Err is not empty.
  pub refused : Bool

-- What the source takes from regexp and strings.EqualFold: the two replacements of comments, the
-- tests, and the text in front of an index of a match and behind it.
pub record Patterns : Type 0 where
  pub block_comments : String → String
  pub line_comments : String → String
  pub info_schema : String → Bool
  pub temporary : String → Bool
  pub has_location : String → Bool
  pub or_replace : String → Bool
  pub using : String → Bool
  pub schema_end : String → Option (String × String)
  pub table_end : String → Option (String × String)
  pub as_start : String → Option (String × String)
  pub equal_fold : String → String → Bool

-- The statement goes to the engine as it is.
abbrev pub unchanged : String → Plan
unchanged sql = record {
  sql = sql;
  skip_engine = false;
  empty_json = false;
  create_schema = none;
  register = none;
  refused = false;
}

-- The engine is passed over, and the answer is empty.
abbrev pub empty_answer : Option SchemaRef → Plan
empty_answer ref = record (unchanged "") {
  skip_engine = true;
  empty_json = true;
  create_schema = ref;
}

unfoldable pub quote_ident : String → String
quote_ident name = "`" <> (replace_all name "`" "" <> "`")

-- What stands behind the columns of the statement gets the location.
with_location : Patterns → String → String → Option (String × String) → String
with_location ps body loc none =
    if ps.using body
    then trim_space body <> (" LOCATION '" <> (loc <> "'"))
    else trim_space (body <> (" USING delta LOCATION '" <> (loc <> "'")))
with_location ps body loc (some (front, tail)) =
    let head = trim_space front in
    if ps.using head
    then head <> (" LOCATION '" <> (loc <> ("' " <> trim_space tail)))
    else head <> (" USING delta LOCATION '" <> (loc <> ("' " <> trim_space tail)))

unfoldable pub inject_location : Patterns → String → String → String
unfolding with_location
inject_location ps body loc = with_location ps body loc (ps.as_start body)

-- fmt.Sprintf("%s/%s/%s/%s", root, catalog, schema, name)
unfoldable pub table_location : String → String → String → String → String
table_location root catalog schema name =
    root <> ("/" <> (catalog <> ("/" <> (schema <> ("/" <> name)))))

-- The statement for a table whose names are safe.
managed : Patterns → String → String → String → String → String → String → Plan
managed ps front rest root catalog schema name =
    let loc = table_location root catalog schema name in
    let body = trim_space (trim_space (after rest (first_ident rest))) in
    let head =
      if ps.or_replace front then "CREATE OR REPLACE TABLE " else "CREATE TABLE IF NOT EXISTS " in
    record (unchanged (head <> (quote_ident name <> (" " <> inject_location ps body loc)))) {
      register = some (record { catalog = catalog; schema = schema; name = name; location = loc });
    }

named_table : Patterns → String → String → String → String → List String → Plan
unfolding managed
named_table ps original front rest root (catalog ∷ schema ∷ name ∷ more) =
    if ps.equal_fold catalog "hive_metastore"
    then unchanged original
    else if safe_segment catalog && (safe_segment schema && safe_segment name)
    then managed ps front rest root catalog schema name
    else record (unchanged "") { refused = true }
named_table ps original front rest root _ = unchanged original

-- `front` is the statement up to the name of the table, and `rest` is what follows.
unfoldable pub rewrite_create_table : Patterns → String → String → String → String → String → Plan
unfolding named_table
rewrite_create_table ps original src front rest root =
    if ps.has_location src
    then unchanged original
    else named_table ps original front (trim_space rest) root
        (split_ident (first_ident (trim_space rest)))

named_schema : Patterns → String → List String → Plan
named_schema ps sql (catalog ∷ schema ∷ []) =
    if ps.equal_fold catalog "hive_metastore"
    then unchanged sql
    else empty_answer (some (record { catalog = catalog; schema = schema }))
named_schema ps sql _ = unchanged sql

rewrite_table : Patterns → String → String → String → Option (String × String) → Plan
rewrite_table ps sql src root none = unchanged sql
rewrite_table ps sql src root (some (front, rest)) = rewrite_create_table ps sql src front rest root

rewrite_schema : Patterns → String → String → String → Option (String × String) → Plan
unfolding named_schema rewrite_table
rewrite_schema ps sql src root (some (front, rest)) =
    named_schema ps sql (split_ident (first_ident (trim_space rest)))
rewrite_schema ps sql src root none = rewrite_table ps sql src root (ps.table_end src)

-- One round of the loop that drops comments.
abbrev pub without_comments : Patterns → String → String
without_comments ps s = trim_space (ps.line_comments (ps.block_comments s))

strip_fuel : Patterns → ℕ → String → String
strip_fuel ps zero s = s
strip_fuel ps (suc fuel) s =
    let rest = strip_fuel ps fuel (without_comments ps s) in
    if without_comments ps s == s then s else rest

-- The loop ends when a round changes nothing; a round for each character and one more are enough.
unfoldable pub strip_leading_comments : Patterns → String → String
unfolding strip_fuel
strip_leading_comments ps sql = strip_fuel ps (suc (count sql)) sql

unfoldable pub engine_root : String → String
engine_root root = trim_right_of b'/' (if root == "" then default_root else root)

unfoldable pub rewrite : Patterns → String → String → Plan
unfolding rewrite_schema
rewrite ps sql root =
    let src = strip_leading_comments ps sql in
    if ps.info_schema (strip_literals src)
    then empty_answer none
    else if ps.temporary src
    then unchanged sql
    else rewrite_schema ps sql src (engine_root root) (ps.schema_end src)
