-- ===== src/Store/Commands/Fresh.antt =====
-- internal/store/commands.go: one counter numbers contexts and commands, so that ids stay distinct.
use databricks_emulator.Base.{
  ◌+◌, ◌^◌, ◌<◌, ◌≡◌, none, some, String, arith, Bool-cases, Option-cases, inl, inr, ◌||◌,
}
use databricks_emulator.Base.Eq.{◌==◌, string_comparable}
use databricks_emulator.Base.Int64.{incr64_room}
use databricks_emulator.Text.{numbered}
use databricks_emulator.Dict
use databricks_emulator.Store.Numbered as Numbered
use databricks_emulator.Store.Commands.{
  Commands, ExecCommand, ExecContext, Outcome, new_commands, create_command, create_context,
  set_context_status, context_found, destroy_context, destroy_found, finish_command, finish_found,
  cancel_command, cancel_found, running_command, pending_context, get_context, with_status,
  finished_command, cancelled_command, outside,
}

-- The operations that change the store.
pub data Op : Type 0 where
  creates_context : (cluster language : String) → Op
  sets_status : (id status : String) → Op
  destroys : (id : String) → Op
  creates_command : (cluster context language code : String) → Op
  finishes : (id : String) → Outcome → Op
  cancels : (id : String) → Op

unfoldable pub step : Commands → Op → Commands
step c (creates_context cluster language) = (create_context c cluster language).0
step c (sets_status id status) = (set_context_status c id status).0
step c (destroys id) = (destroy_context c id).0
step c (creates_command cluster context language code) =
    (create_command c cluster context language code).0
step c (finishes id o) = (finish_command c id o).0
step c (cancels id) = (cancel_command c id).0

pub record IsNumbered (c : Commands) : Type 0 where
  pub contexts_issued : Numbered.IsNumbered {V = ExecContext} "ctx-" c.next_id c.contexts
  pub cmds_issued : Numbered.IsNumbered {V = ExecCommand} "cmd-" c.next_id c.cmds

-- Every operation keeps the contexts and the commands under ids that the counter handed out, while
-- the counter has room.
pub step-IsNumbered :
    (c : Commands) (o : Op) → c.next_id + 1 < 2 ^ 63 → IsNumbered c → IsNumbered (step c o)
unfolding step create_context create_command set_context_status destroy_context finish_command
    cancel_command
step-IsNumbered c (creates_context cluster language) room n =
    rw (incr64_room c.next_id (omega arith)) (record {
      contexts_issued =
          Numbered.put_next-IsNumbered "ctx-" c.next_id c.contexts
            (pending_context (c.next_id + 1) cluster language) n.contexts_issued;
      cmds_issued = Numbered.next-IsNumbered "cmd-" c.next_id c.cmds n.cmds_issued;
    })
step-IsNumbered c (creates_command cluster context language code) room n =
    rw (incr64_room c.next_id (omega arith)) (record {
      contexts_issued = Numbered.next-IsNumbered "ctx-" c.next_id c.contexts n.contexts_issued;
      cmds_issued =
          Numbered.put_next-IsNumbered "cmd-" c.next_id c.cmds
            (running_command (c.next_id + 1) cluster context language code) n.cmds_issued;
    })
step-IsNumbered c (sets_status id status) room n = elim (Option-cases (Dict.get c.contexts id)) [
  | inl e ↦ rw (step, e, context_found) n
  | inr (ctx, e) ↦
      rw (step, e, context_found)
        (record {
          contexts_issued =
              Numbered.put_old-IsNumbered "ctx-" c.next_id c.contexts id ctx
                (with_status ctx status) n.contexts_issued e;
          cmds_issued = n.cmds_issued;
        })
]
step-IsNumbered c (destroys id) room n = elim (Option-cases (Dict.get c.contexts id)) [
  | inl e ↦ rw (step, e, destroy_found) n
  | inr (ctx, e) ↦
      rw (step, e, destroy_found)
        (record {
          contexts_issued =
              Numbered.remove-IsNumbered "ctx-" c.next_id c.contexts id n.contexts_issued;
          cmds_issued =
              Numbered.retain-IsNumbered "cmd-" c.next_id c.cmds (outside id) n.cmds_issued;
        })
]
step-IsNumbered c (finishes id o) room n = elim (Option-cases (Dict.get c.cmds id)) [
  | inl e ↦ rw (step, e, finish_found) n
  | inr (cmd, e) ↦
      rw (step, e, finish_found)
        (record {
          contexts_issued = n.contexts_issued;
          cmds_issued =
              Numbered.put_old-IsNumbered "cmd-" c.next_id c.cmds id cmd (finished_command cmd o)
                n.cmds_issued e;
        })
]
step-IsNumbered c (cancels id) room n = elim (Option-cases (Dict.get c.cmds id)) [
  | inl e ↦ rw (step, e, cancel_found) n
  | inr (cmd, e) ↦ elim (Bool-cases (cmd.status == "Finished" || cmd.status == "Error")) [
    | inl over ↦ rw (step, e, cancel_found, over) n
    | inr live ↦
        rw (step, e, cancel_found, live)
          (record {
            contexts_issued = n.contexts_issued;
            cmds_issued =
                Numbered.put_old-IsNumbered "cmd-" c.next_id c.cmds id cmd (cancelled_command cmd)
                  n.cmds_issued e;
          })
  ]
]

pub new_commands-IsNumbered : IsNumbered new_commands
unfolding new_commands
new_commands-IsNumbered = record {
  contexts_issued = Numbered.empty-IsNumbered "ctx-";
  cmds_issued = Numbered.empty-IsNumbered "cmd-";
}

-- A new context and a new command get ids that nothing had, and are found under them.
pub new_context_fresh :
    (c : Commands) (cluster language : String)
    → c.next_id + 1 < 2 ^ 63
    → IsNumbered c
    → (get_context c (create_context c cluster language).1.id ≡ none)
      × (get_context (create_context c cluster language).0 (create_context c cluster language).1.id
          ≡ some (create_context c cluster language).1)
unfolding create_context get_context
new_context_fresh c cluster language room n = rw (incr64_room c.next_id (omega arith)) (
  Numbered.IsNumbered-fresh "ctx-" c.next_id c.contexts n.contexts_issued room,
  ground (
    arith,
    Dict.get-put c.contexts (numbered "ctx-" (c.next_id + 1))
        (pending_context (c.next_id + 1) cluster language) (numbered "ctx-" (c.next_id + 1)),
    string_comparable.equal_iff (numbered "ctx-" (c.next_id + 1)) (numbered "ctx-" (c.next_id + 1)),
  ),
)
