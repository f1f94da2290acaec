-- ===== src/Store/Groups/Directory.antt =====
-- internal/store/groups.go: the directory stays a directory, whatever could be saved.
use databricks_emulator.Base.{
  ℕ, ◌+◌, ◌^◌, ◌<◌, ◌≡◌, refl, Bool, false, some, List, String, arith, Bool-cases, Option-cases,
  inl, inr,
}
use databricks_emulator.Base.Eq.{string_comparable}
use databricks_emulator.Base.Int64.{ℤ, incr64_room}
use databricks_emulator.Base.Result.{Result, ok, err}
use databricks_emulator.Text.{numbered}
use databricks_emulator.Dict
use databricks_emulator.Dict.{Dict}
use databricks_emulator.Dict.Rows.{get-put_rows}
use databricks_emulator.Store.Numbered as Numbered
use databricks_emulator.Store.Groups.{
  Group, Groups, GroupError, create_group, delete_group, group_deleted, persist_groups, new_group,
  named, open_groups, read_back,
}

-- The groups stand under their own numbered ids, and no two have the same display name.
pub record IsDirectory (bound : ℕ) (d : Dict String Group) : Type 0 where
  pub issued : Numbered.IsNumbered {V = Group} "" bound d
  pub keyed : (k : String) (grp : Group) → Dict.get d k ≡ some grp → grp.id ≡ k
  pub unique :
      (k j : String) (grp other : Group)
      → Dict.get d k ≡ some grp
      → Dict.get d j ≡ some other
      → grp.display_name ≡ other.display_name
      → k ≡ j

remove-IsDirectory :
    (bound : ℕ) (d : Dict String Group) (id : String)
    → IsDirectory bound d
    → IsDirectory bound (Dict.remove d id)
remove-IsDirectory bound d id n = record {
  issued = Numbered.remove-IsNumbered "" bound d id n.issued;
  keyed = λ k grp at. n.keyed k grp (ground (arith, Dict.get-remove d id k));
  unique = λ k j grp other at_k at_j same.
      n.unique k j grp other (ground (arith, Dict.get-remove d id k))
        (ground (arith, Dict.get-remove d id j)) same;
}

put-IsDirectory :
    (bound : ℕ) (d : Dict String Group) (name : String) (members : List String) (now : ℤ)
    → IsDirectory bound d
    → Dict.any_value (named name) d ≡ false
    → IsDirectory
        (bound + 1)
        (Dict.put d (numbered "" (bound + 1)) (new_group (bound + 1) name members now))
put-IsDirectory bound d name members now n free =
    let id = numbered "" (bound + 1) in
    let grp = new_group (bound + 1) name members now in
    record {
      issued = Numbered.put_next-IsNumbered "" bound d grp n.issued;
      keyed = λ k other at.
          ground
            (arith, n.keyed k other, Dict.get-put d id grp k, string_comparable.equal_iff id k);
      unique = λ k j one other at_k at_j same. ground (
        arith,
        n.unique k j one other,
        Dict.get-put d id grp k,
        Dict.get-put d id grp j,
        Dict.any_value-of_get (named name) d k one,
        Dict.any_value-of_get (named name) d j other,
        string_comparable.equal_iff id k,
        string_comparable.equal_iff id j,
        string_comparable.equal_iff one.display_name name,
        string_comparable.equal_iff other.display_name name,
      );
    }

create_group-IsDirectory :
    (g : Groups) (name : String) (members : List String) (now : ℤ) (wrote : Bool)
    → g.next_id + 1 < 2 ^ 63
    → IsDirectory g.next_id g.groups
    → IsDirectory
        (create_group g name members now wrote).0.next_id
        (create_group g name members now wrote).0.groups
unfolding create_group persist_groups
create_group-IsDirectory g name members now wrote room n =
    rw (incr64_room g.next_id (omega arith))
      (elim (Bool-cases (Dict.any_value (named name) g.groups)) [
        | inl taken ↦ rw taken n
        | inr free ↦
            let after = put-IsDirectory g.next_id g.groups name members now n free in
            elim (Bool-cases wrote) [
              | inl yes_file ↦ rw (free, yes_file) after
              | inr no_file ↦
                  rw (free, no_file)
                    (remove-IsDirectory (g.next_id + 1)
                      (Dict.put g.groups (numbered "" (g.next_id + 1))
                        (new_group (g.next_id + 1) name members now))
                      (numbered "" (g.next_id + 1)) after)
            ]
      ])

-- The operations that change the directory, each with whether the file could be written.
pub data Op : Type 0 where
  creates : (name : String) (members : List String) (now : ℤ) (wrote : Bool) → Op
  deletes : (id : String) (wrote : Bool) → Op

unfoldable pub apply : Groups → Op → Groups
apply g (creates name members now wrote) = (create_group g name members now wrote).0
apply g (deletes id wrote) = (delete_group g id wrote).0

-- Creating or deleting a group, refused or not, saved or not, keeps the groups under their own
-- numbered ids and under different display names, while the counter has room.
pub apply-IsDirectory :
    (g : Groups) (o : Op)
    → g.next_id + 1 < 2 ^ 63
    → IsDirectory g.next_id g.groups
    → IsDirectory (apply g o).next_id (apply g o).groups
unfolding apply delete_group persist_groups
apply-IsDirectory g (creates name members now wrote) room n =
    create_group-IsDirectory g name members now wrote room n
apply-IsDirectory g (deletes id wrote) room n =
    let left = remove-IsDirectory g.next_id g.groups id n in
    elim (Option-cases (Dict.get g.groups id)) [
      | inl e ↦ rw (apply, e, group_deleted) n
      | inr (grp, e) ↦ elim (Bool-cases wrote) [
        | inl yes_file ↦ rw (apply, e, group_deleted, yes_file) left
        | inr no_file ↦ rw (apply, e, group_deleted, no_file) left
      ]
    ]

-- What an answer of Create says of the groups before and after: a refusal leaves them, and a group
-- that is answered had a free name, is found under its id, and survives a restart with the others.
abbrev pub Told : Groups → String → String → Groups × Result GroupError Group → Type 0
Told g name k (t, ok grp) =
    (Dict.any_value (named name) g.groups ≡ false)
    × (Dict.get t.groups grp.id ≡ some grp)
    × (Dict.get (open_groups t).groups k ≡ Dict.get t.groups k)
Told g name k (t, err e) = Dict.get t.groups k ≡ Dict.get g.groups k

-- While the counter has room and the groups stand under their own numbered ids and under different
-- names, a refusal of Create leaves every group as it was, the failed write included, and a group
-- that is answered had a free name and is found under its id, and a restart, which puts the rows of
-- the file under their ids, finds it and the others as they are.
pub create_group-Told :
    (g : Groups) (name : String) (members : List String) (now : ℤ) (wrote : Bool) (k : String)
    → g.next_id + 1 < 2 ^ 63
    → IsDirectory g.next_id g.groups
    → Told g name k (create_group g name members now wrote)
unfolding create_group persist_groups open_groups read_back
create_group-Told g name members now wrote k room n =
    let id = numbered "" (g.next_id + 1) in
    let grp = new_group (g.next_id + 1) name members now in
    let fresh = Numbered.IsNumbered-fresh "" g.next_id g.groups n.issued room in
    rw (incr64_room g.next_id (omega arith))
      (elim (Bool-cases (Dict.any_value (named name) g.groups)) [
        | inl taken ↦ rw taken refl
        | inr free ↦ elim (Bool-cases wrote) [
          | inl yes_file ↦
              rw (free, yes_file)
                (
                  free,
                  ground
                      (arith, Dict.get-put g.groups id grp id, string_comparable.equal_iff id id),
                  get-put_rows (λ (row : Group). row.id) (Dict.put g.groups id grp) k
                      (put-IsDirectory g.next_id g.groups name members now n free).keyed,
                )
          | inr no_file ↦
              rw (free, no_file)
                (ground (
                  arith,
                  fresh,
                  Dict.get-remove (Dict.put g.groups id grp) id k,
                  Dict.get-put g.groups id grp k,
                  string_comparable.equal_iff id k,
                ))
        ]
      ])

pub no_groups-IsDirectory : IsDirectory 0 Dict.empty
no_groups-IsDirectory = record {
  issued = Numbered.empty-IsNumbered "";
  keyed = λ k grp at. let e = Dict.get-empty {V = Group} k in absurd (cc e);
  unique = λ k j grp other at _ _. let e = Dict.get-empty {V = Group} k in absurd (cc e);
}
