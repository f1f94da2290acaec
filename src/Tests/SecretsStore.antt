-- ===== src/Tests/SecretsStore.antt =====
-- The secrets store with names that are in lower case already.
use databricks_emulator.Base.{◌≡◌, refl, true, false, ◌&&◌, none, some, String, if◌then◌else◌}
use databricks_emulator.Base.Eq.{◌==◌, string_comparable}
use databricks_emulator.Base.Result.{ok, err}
use databricks_emulator.Dict
use databricks_emulator.Text.{trim_space}
use databricks_emulator.Store.Secrets.{
  Secrets, SecretScope, create, get_scope, new_scope, norm_scope, put, resolve, write_error,
  backend_databricks,
}
use databricks_emulator.Store.Secrets.Access.{put-resolve, create_unsaved}
use databricks_emulator.Store.Secrets.Durable.{
  IsDurable, apply, creates_scope, apply-IsDurable, no_scopes-IsDurable,
}

-- strings.ToLower on names without capitals.
abbrev lower : String → String
lower t = t

abbrev no_scopes : Secrets
no_scopes = record { scopes = Dict.empty; file = none }

apply-IsDurable_example : IsDurable lower (apply lower no_scopes (creates_scope " app ") true).0
apply-IsDurable_example =
    apply-IsDurable lower (λ t. refl) (λ t. refl) no_scopes (creates_scope " app ")
      (no_scopes-IsDurable lower)

create_unsaved_example :
    ((create lower no_scopes " app " backend_databricks "" "" false).1 ≡ err write_error)
    × (get_scope lower (create lower no_scopes " app " backend_databricks "" "" false).0 " app "
        ≡ some (new_scope "app" backend_databricks "" ""))
    × ((create lower no_scopes " app " backend_databricks "" "" false).0.file ≡ none)
unfolding trim_space get_scope norm_scope Dict.get Dict.empty
create_unsaved_example = create_unsaved lower no_scopes " app " backend_databricks "" "" refl refl

abbrev one_scope : Secrets
one_scope = (create lower no_scopes "app" backend_databricks "" "" true).0

put-resolve_example :
    resolve lower (put lower one_scope "app" "token" "s3cret" true).0 " app" "token" ≡ (
      if norm_scope lower "app" == norm_scope lower " app" && ◌==◌ {K = String} "token" "token"
      then ok "s3cret"
      else resolve lower one_scope " app" "token")
unfolding trim_space get_scope norm_scope Dict.get Dict.put Dict.empty create
    databricks_emulator.Store.Secrets.persist
put-resolve_example =
    put-resolve lower one_scope "app" "token" "s3cret" true " app" "token" (refl, refl)
