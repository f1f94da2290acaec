-- ===== src/Tests/Paths.antt =====
-- Paths below a root, and statements with a stand-in for the regular expressions.
use databricks_emulator.Base.{
  ◌≡◌, ◌⊎◌, refl, inl, inr, Bool-cases, arith, Option, none, some, String, All, any, if◌then◌else◌,
  keep,
}
use databricks_emulator.Base.Eq.{◌==◌, string_comparable}
use databricks_emulator.Base.Result.{ok, err}
use databricks_emulator.Text.{trim_space, replace_all, trim_right_of}
use databricks_emulator.Text.Split.{
  onto, join, trim_prefix, contains, prefixed, after, Without, split_on,
}
use databricks_emulator.Store.Path.{
  traversal, clean, elements, escapes, clean_rel, slashed, workspace_path,
}
use databricks_emulator.Store.Path.Spec.{joined, Plain, clean_rel_lem, clean_rel-Plain}
use databricks_emulator.Sqlshim.Scan.{strip_literals, split_ident, first_ident, safe_segment}
use databricks_emulator.Sqlshim.{
  rewrite_create_table, Patterns, ExternalTable, rewrite, engine_root, table_location,
  strip_leading_comments, without_comments,
}
use databricks_emulator.Sqlshim.Managed.{IsSegment, rewrite_managed}
use databricks_emulator.Sqlshim.Comments.{Shortens, strip_leading_comments_lem}

clean_rel_lem_example : clean_rel " /a\\.//b c/ " ≡ (
    if contains (slashed " /a\\.//b c/ ") ".."
    then err traversal
    else ok (joined (slashed " /a\\.//b c/ ")))
clean_rel_lem_example = clean_rel_lem " /a\\.//b c/ "

clean_rel-Plain_example : (◌≡◌ {A = String} "a/b c" "") ⊎ All Plain (split_on 47 "a/b c")
unfolding clean_rel contains slashed replace_all trim_space prefixed trim_prefix clean join elements
    split_on onto escapes any
clean_rel-Plain_example = clean_rel-Plain " /a\\.//b c/ " "a/b c" refl

-- The normalized path of an object is normalized to another one.
workspace_path_twice : (workspace_path "/a /" ≡ ok "/a ") × (workspace_path "/a " ≡ ok "/a")
unfolding workspace_path clean_rel contains slashed replace_all trim_space prefixed trim_prefix
    clean join elements split_on onto escapes any
workspace_path_twice = (refl, refl)

-- The text behind a prefix of a statement.
behind : String → String → Option (String × String)
behind prefix s = if prefixed s prefix then some (prefix, after s prefix) else none

abbrev stand_in : Patterns
unfolding behind
stand_in = record {
  block_comments =
      λ s. if s == "/**/ CREATE TABLE m.s.t (x int)" then "  CREATE TABLE m.s.t (x int)" else s;
  line_comments = λ s. s;
  info_schema = λ s. contains s "information_schema";
  temporary = λ s. prefixed s "CREATE TEMPORARY ";
  has_location = λ s. contains s " LOCATION ";
  or_replace = λ s. contains s "OR REPLACE";
  using = λ s. contains s "USING";
  schema_end = behind "CREATE SCHEMA ";
  table_end = behind "CREATE TABLE ";
  as_start = λ s. none;
  equal_fold = λ s t. s == t;
}

abbrev table_t : ExternalTable
table_t = record { catalog = "m"; schema = "s"; name = "t"; location = "file:///d/m/s/t" }

rewrite_managed_example :
    IsSegment "m"
    × IsSegment "s"
    × IsSegment "t"
    × (◌≡◌ {A = String} "file:///d/m/s/t" (table_location (engine_root "file:///d/") "m" "s" "t"))
    × Without 39 "file:///d/m/s/t"
unfolding rewrite stand_in contains strip_literals strip_leading_comments trim_space prefixed
    rewrite_create_table split_ident keep first_ident after onto safe_segment table_location
    engine_root trim_right_of
rewrite_managed_example =
    rewrite_managed stand_in "/**/ CREATE TABLE m.s.t (x int)" "file:///d/" table_t (ground arith)
      refl

blocks-Shortens : Shortens stand_in.block_comments
unfolding stand_in
blocks-Shortens s = elim (Bool-cases (s == "/**/ CREATE TABLE m.s.t (x int)")) [
  | inr other ↦ rw other (inl refl)
  | inl hit ↦
      let same = (string_comparable.equal_iff s "/**/ CREATE TABLE m.s.t (x int)").0 hit in
      rw (hit, same) (inr (omega arith))
]

strip_leading_comments_lem_example :
    without_comments stand_in (strip_leading_comments stand_in "/**/ CREATE TABLE m.s.t (x int)")
    ≡ strip_leading_comments stand_in "/**/ CREATE TABLE m.s.t (x int)"
unfolding stand_in
strip_leading_comments_lem_example =
    strip_leading_comments_lem stand_in "/**/ CREATE TABLE m.s.t (x int)" blocks-Shortens
      (λ s. inl refl)
