-- ===== src/Tests/GroupsStore.antt =====
-- The groups store at its start.
use databricks_emulator.Base.{true, false, none, [], ◌∷◌, arith}
use databricks_emulator.Base.Eq.{string_comparable}
use databricks_emulator.Base.Int64.{pos, incr64}
use databricks_emulator.Dict
use databricks_emulator.Store.Groups.{Groups, create_group, persist_groups}
use databricks_emulator.Store.Groups.Directory.{
  Told, create_group-Told, no_groups-IsDirectory, IsDirectory, apply, apply-IsDirectory, creates,
  deletes,
}

abbrev no_groups : Groups
no_groups = record { next_id = 0; groups = Dict.empty; file = none }

create_group-Told_example :
    Told no_groups "admins" "1" (create_group no_groups "admins" ("1" ∷ []) (pos 5) true)
create_group-Told_example =
    create_group-Told no_groups "admins" ("1" ∷ []) (pos 5) true "1" (omega arith)
      no_groups-IsDirectory

abbrev one_group : Groups
one_group = (create_group no_groups "admins" ("1" ∷ []) (pos 5) true).0

one_group-IsDirectory : IsDirectory one_group.next_id one_group.groups
unfolding create_group apply
one_group-IsDirectory =
    apply-IsDirectory no_groups (creates "admins" ("1" ∷ []) (pos 5) true) (omega arith)
      no_groups-IsDirectory

apply-IsDirectory_example :
    IsDirectory
      (apply one_group (deletes "1" false)).next_id
      (apply one_group (deletes "1" false)).groups
unfolding create_group Dict.any_value Dict.empty incr64 persist_groups apply
apply-IsDirectory_example =
    apply-IsDirectory one_group (deletes "1" false) (omega arith) one_group-IsDirectory
