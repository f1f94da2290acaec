-- ===== src/Store/Commands.antt =====
-- internal/store/commands.go: execution contexts and the commands that run in them.
pub mod Lifecycle
pub mod Fresh
use databricks_emulator.Base.{
  ℕ, Bool, true, false, ◌||◌, not, Option, none, some, String, if◌then◌else◌,
}
use databricks_emulator.Base.Eq.{◌==◌, string_comparable}
use databricks_emulator.Base.Int64.{incr64}
use databricks_emulator.Text.{numbered}
use databricks_emulator.Dict
use databricks_emulator.Dict.{Dict}

pub record ExecContext : Type 0 where
  pub id : String
  pub cluster_id : String
  pub language : String
  pub status : String

pub record ExecCommand : Type 0 where
  pub id : String
  pub context_id : String
  pub cluster_id : String
  pub language : String
  pub code : String
  pub status : String
  pub result_type : String
  pub output : String
  pub summary : String
  pub cause : String

pub record Commands : Type 0 where
  pub next_id : ℕ
  pub contexts : Dict String ExecContext
  pub cmds : Dict String ExecCommand

unfoldable pub new_commands : Commands
new_commands = record { next_id = 0; contexts = Dict.empty; cmds = Dict.empty }

abbrev pub pending_context : ℕ → String → String → ExecContext
pending_context n cluster_id language = record {
  id = numbered "ctx-" n;
  cluster_id = cluster_id;
  language = language;
  status = "Pending";
}

unfoldable pub create_context : Commands → String → String → Commands × ExecContext
create_context c cluster_id language =
    let id = incr64 c.next_id in
    let ctx = pending_context id cluster_id language in
    (record c { next_id = id; contexts = Dict.put c.contexts (numbered "ctx-" id) ctx }, ctx)

unfoldable pub get_context : Commands → String → Option ExecContext
get_context c id = Dict.get c.contexts id

abbrev pub with_status : ExecContext → String → ExecContext
with_status ctx status = record ctx { status = status }

context_found : Commands → String → String → Option ExecContext → Commands × Bool
context_found c id status none = (c, false)
context_found c id status (some ctx) =
    (record c { contexts = Dict.put c.contexts id (with_status ctx status) }, true)

unfoldable pub set_context_status : Commands → String → String → Commands × Bool
unfolding context_found
set_context_status c id status = context_found c id status (Dict.get c.contexts id)

-- The commands that a context leaves when it goes.
abbrev pub outside : String → String → ExecCommand → Bool
outside id cid cmd = not (cmd.context_id == id)

destroy_found : Commands → String → Option ExecContext → Commands × Bool
destroy_found c id none = (c, false)
destroy_found c id (some ctx) = (
  record c { contexts = Dict.remove c.contexts id; cmds = Dict.retain (outside id) c.cmds },
  true,
)

unfoldable pub destroy_context : Commands → String → Commands × Bool
unfolding destroy_found
destroy_context c id = destroy_found c id (Dict.get c.contexts id)

abbrev pub running_command : ℕ → String → String → String → String → ExecCommand
running_command n cluster_id context_id language code = record {
  id = numbered "cmd-" n;
  context_id = context_id;
  cluster_id = cluster_id;
  language = language;
  code = code;
  status = "Running";
  result_type = "";
  output = "";
  summary = "";
  cause = "";
}

unfoldable pub create_command :
    Commands → String → String → String → String → Commands × ExecCommand
create_command c cluster_id context_id language code =
    let id = incr64 c.next_id in
    let cmd = running_command id cluster_id context_id language code in
    (record c { next_id = id; cmds = Dict.put c.cmds (numbered "cmd-" id) cmd }, cmd)

unfoldable pub get_command : Commands → String → Option ExecCommand
get_command c id = Dict.get c.cmds id

-- The arguments of FinishCommand behind the id.
pub record Outcome : Type 0 where
  pub status : String
  pub result_type : String
  pub output : String
  pub summary : String
  pub cause : String

abbrev pub finished_command : ExecCommand → Outcome → ExecCommand
finished_command cmd o = record cmd {
  status = o.status;
  result_type = o.result_type;
  output = o.output;
  summary = o.summary;
  cause = o.cause;
}

finish_found : Commands → String → Outcome → Option ExecCommand → Commands × Bool
finish_found c id o none = (c, false)
finish_found c id o (some cmd) =
    (record c { cmds = Dict.put c.cmds id (finished_command cmd o) }, true)

unfoldable pub finish_command : Commands → String → Outcome → Commands × Bool
unfolding finish_found
finish_command c id o = finish_found c id o (Dict.get c.cmds id)

abbrev pub cancelled_command : ExecCommand → ExecCommand
cancelled_command cmd = record cmd { status = "Cancelled" }

cancel_found : Commands → String → Option ExecCommand → Commands × Bool
cancel_found c id none = (c, false)
cancel_found c id (some cmd) =
    if cmd.status == "Finished" || cmd.status == "Error"
    then (c, true)
    else (record c { cmds = Dict.put c.cmds id (cancelled_command cmd) }, true)

unfoldable pub cancel_command : Commands → String → Commands × Bool
unfolding cancel_found
cancel_command c id = cancel_found c id (Dict.get c.cmds id)
