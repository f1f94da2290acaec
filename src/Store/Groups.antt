-- ===== src/Store/Groups.antt =====
-- internal/store/groups.go: the SCIM groups, in memory and in the file that they are saved to.
--
-- Each operation that saves takes `wrote`, whether the file could be written.
pub mod Directory
use databricks_emulator.Base.{
  ℕ, Bool, true, false, Option, none, some, List, [], ◌∷◌, String, if◌then◌else◌, ltb, leb, ◌^◌,
  ◌+◌, ◌%◌,
}
use databricks_emulator.Base.Eq.{◌==◌, string_comparable}
use databricks_emulator.Base.Int64.{ℤ, incr64}
use databricks_emulator.Base.Result.{Result, ok, err}
use databricks_emulator.Text.{numbered}
use databricks_emulator.Dict
use databricks_emulator.Dict.{Dict}
use databricks_emulator.Dict.Rows.{put_rows}

pub record Group : Type 0 where
  pub id : String
  pub display_name : String
  pub members : List String
  pub created_at : ℤ

-- persistedGroups: the counter and a row for each group. The source sorts the rows by their id.
pub record PersistedGroups : Type 0 where
  pub next_id : ℕ
  pub groups : List Group

pub record Groups : Type 0 where
  pub next_id : ℕ
  pub groups : Dict String Group
  -- state.json, where it exists.
  pub file : Option PersistedGroups

pub data GroupError : Type 0 where
  group_exists : GroupError
  group_not_found : GroupError
  not_written : GroupError

abbrev pub dump : Groups → PersistedGroups
dump g = record { next_id = g.next_id; groups = Dict.values g.groups }

unfoldable pub persist_groups : Groups → Groups
persist_groups g = record g { file = some (dump g) }

-- A new group takes its number as its id.
abbrev pub new_group : ℕ → String → List String → ℤ → Group
new_group n display_name members now = record {
  id = numbered "" n;
  display_name = display_name;
  members = members;
  created_at = now;
}

abbrev pub named : String → Group → Bool
named display_name grp = grp.display_name == display_name

-- A group that could not be saved is taken out again; its number is spent.
unfoldable pub create_group :
    Groups → String → List String → ℤ → Bool → Groups × Result GroupError Group
create_group g display_name members now wrote =
    let id = incr64 g.next_id in
    let grp = new_group id display_name members now in
    let added : Groups = record g {
      next_id = id;
      groups = Dict.put g.groups (numbered "" id) grp;
    } in
    if Dict.any_value (named display_name) g.groups
    then (g, err group_exists)
    else if wrote
    then (persist_groups added, ok grp)
    else (record added { groups = Dict.remove added.groups (numbered "" id) }, err not_written)

found_group : Option Group → Result GroupError Group
found_group none = err group_not_found
found_group (some grp) = ok grp

unfoldable pub get_group : Groups → String → Result GroupError Group
unfolding found_group
get_group g id = found_group (Dict.get g.groups id)

group_deleted : Groups → String → Bool → Option Group → Groups × Option GroupError
group_deleted g id wrote none = (g, some group_not_found)
group_deleted g id wrote (some grp) =
    let left : Groups = record g { groups = Dict.remove g.groups id } in
    if wrote then (persist_groups left, none) else (left, some not_written)

unfoldable pub delete_group : Groups → String → Bool → Groups × Option GroupError
unfolding group_deleted
delete_group g id wrote = group_deleted g id wrote (Dict.get g.groups id)

-- The rows are put back under their own ids.
read_back : Option PersistedGroups → Groups
read_back none = record { next_id = 0; groups = Dict.empty; file = none }
read_back (some d) = record {
  next_id = d.next_id;
  groups = put_rows (λ (row : Group). row.id) Dict.empty d.groups;
  file = some d;
}

unfoldable pub open_groups : Groups → Groups
unfolding read_back
open_groups g = read_back g.file
