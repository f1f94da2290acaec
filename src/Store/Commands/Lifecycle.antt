-- ===== src/Store/Commands/Lifecycle.antt =====
-- internal/store/commands.go: what destroying, cancelling and finishing do to each command.
use databricks_emulator.Base.{
  ◌≡◌, ◌↔◌, true, refl, ◌||◌, Option, none, some, String, arith, Bool-cases, Option-cases, inl, inr,
  is_some, if◌then◌else◌,
}
use databricks_emulator.Base.Eq.{◌==◌, string_comparable}
use databricks_emulator.Dict
use databricks_emulator.Dict.{map_option, keep_option}
use databricks_emulator.Store.Commands.{
  Commands, ExecCommand, Outcome, destroy_context, destroy_found, finish_command, finish_found,
  cancel_command, cancel_found, get_command, get_context, finished_command, cancelled_command,
  outside,
}

outside_iff :
    (id k : String) (cmd : ExecCommand) (found : Option ExecCommand)
    → (keep_option (outside id) k found ≡ some cmd)
      ↔ ((found ≡ some cmd) × (true ≡ true → ¬ (cmd.context_id ≡ id)))
outside_iff id k cmd none = (λ h. absurd (cc h), λ (h, _). h)
outside_iff id k cmd (some other) = elim (Bool-cases (other.context_id == id)) [
  | inl hit ↦
      let own = (string_comparable.equal_iff other.context_id id).0 hit in
      rw hit (λ h. absurd (cc h), λ (h, away). absurd (away refl (ground (arith, own))))
  | inr miss ↦ rw miss (
    λ h. (h, λ _ own. ground (arith, string_comparable.equal_iff other.context_id id)),
    λ (h, _). h,
  )
]

-- After a context is destroyed it is gone and every other context is as before. The commands are
-- those from before, less, where the context existed, the ones that ran in it. The answer says
-- whether it existed.
pub destroy_context_lem :
    (c : Commands) (id k : String)
    → ((destroy_context c id).1 ≡ is_some (get_context c id))
      × (get_context (destroy_context c id).0 k ≡ (if id == k then none else get_context c k))
      × ((cmd : ExecCommand)
          → (get_command (destroy_context c id).0 k ≡ some cmd) ↔ (
              (get_command c k ≡ some cmd)
              × (is_some (get_context c id) ≡ true → ¬ (cmd.context_id ≡ id))))
unfolding destroy_context get_context get_command
destroy_context_lem c id k = elim (Option-cases (Dict.get c.contexts id)) [
  | inl e ↦
      rw (e, destroy_found)
        (
          refl,
          ground (arith, string_comparable.equal_iff id k),
          λ cmd. (λ at. (at, λ there. absurd (cc there)), λ (at, _). at),
        )
  | inr (ctx, e) ↦
      rw (e, destroy_found)
        (
          refl,
          Dict.get-remove c.contexts id k,
          λ cmd.
              rw (Dict.get-retain (outside id) c.cmds k) (outside_iff id k cmd (Dict.get c.cmds k)),
        )
]

-- The command that a cancellation leaves: one that is over keeps its result.
abbrev pub after_cancel : ExecCommand → ExecCommand
after_cancel cmd =
    if cmd.status == "Finished" || cmd.status == "Error" then cmd else cancelled_command cmd

-- A cancellation marks the command it names as Cancelled unless it is Finished or in Error, leaves
-- every other command, and answers whether the command exists.
pub cancel_command_lem :
    (c : Commands) (id k : String)
    → ((cancel_command c id).1 ≡ is_some (get_command c id))
      × (get_command (cancel_command c id).0 k
          ≡ (if id == k then map_option after_cancel (get_command c k) else get_command c k))
unfolding cancel_command get_command
cancel_command_lem c id k = elim (Option-cases (Dict.get c.cmds id)) [
  | inl e ↦ rw (e, cancel_found) (ground (arith, string_comparable.equal_iff id k))
  | inr (cmd, e) ↦ elim (Bool-cases (cmd.status == "Finished" || cmd.status == "Error")) [
    | inl over ↦ rw (e, cancel_found, over) (ground (arith, string_comparable.equal_iff id k))
    | inr live ↦
        rw (e, cancel_found, live)
          (ground (
            arith,
            Dict.get-put c.cmds id (cancelled_command cmd) k,
            string_comparable.equal_iff id k,
          ))
  ]
]

abbrev pub finishing : Outcome → ExecCommand → ExecCommand
finishing o cmd = finished_command cmd o

finish_command_lem :
    (c : Commands) (id k : String) (o : Outcome)
    → get_command (finish_command c id o).0 k
      ≡ (if id == k then map_option (finishing o) (get_command c k) else get_command c k)
unfolding finish_command get_command
finish_command_lem c id k o = elim (Option-cases (Dict.get c.cmds id)) [
  | inl e ↦ rw (e, finish_found) (ground (arith, string_comparable.equal_iff id k))
  | inr (cmd, e) ↦
      rw (e, finish_found)
        (ground (
          arith,
          Dict.get-put c.cmds id (finished_command cmd o) k,
          string_comparable.equal_iff id k,
        ))
]

finishing-after_cancel :
    (o : Outcome) (found : Option ExecCommand)
    → map_option (finishing o) (map_option after_cancel found) ≡ map_option (finishing o) found
finishing-after_cancel o none = refl
finishing-after_cancel o (some cmd) =
    elim (Bool-cases (cmd.status == "Finished" || cmd.status == "Error")) [
      | inl over ↦ rw over refl
      | inr live ↦ rw live refl
    ]

-- FinishCommand does not look at the status: a command that finishes after it was cancelled ends
-- as if it had never been cancelled.
pub finish-cancel :
    (c : Commands) (id k : String) (o : Outcome)
    → get_command (finish_command (cancel_command c id).0 id o).0 k
      ≡ get_command (finish_command c id o).0 k
finish-cancel c id k o =
    rw
      (
        finish_command_lem (cancel_command c id).0 id k o,
        finish_command_lem c id k o,
        (cancel_command_lem c id k).1,
      )
      (elim (Bool-cases (id == k)) [
        | inl hit ↦ rw hit (finishing-after_cancel o (get_command c k))
        | inr miss ↦ rw miss refl
      ])
