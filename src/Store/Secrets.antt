-- ===== src/Store/Secrets.antt =====
-- internal/store/secrets.go: secret scopes, in memory and in the file that they are saved to.
--
-- Each operation that saves takes `wrote`, whether the file could be written; the JSON of the file
-- is the list of the scopes. A failed write keeps the file that was there, since the new text goes
-- to a temporary file and is renamed.
pub mod Access
pub mod Durable
use databricks_emulator.Base.{
  ℕ, Bool, true, false, ◌||◌, not, Option, none, some, List, [], ◌∷◌, map, String, if◌then◌else◌,
}
use databricks_emulator.Base.Eq.{◌==◌, string_comparable}
use databricks_emulator.Base.Result.{Result, ok, err}
use databricks_emulator.Text.{trim_space}
use databricks_emulator.Dict
use databricks_emulator.Dict.{Dict}

abbrev pub backend_databricks : String
backend_databricks = "DATABRICKS"

abbrev pub backend_azure_key_vault : String
backend_azure_key_vault = "AZURE_KEYVAULT"

pub record SecretScope : Type 0 where
  pub name : String
  pub backend : String
  pub resource_id : String
  pub dns_name : String
  pub keys : Dict String String

pub record Secrets : Type 0 where
  pub scopes : Dict String SecretScope
  -- scopes.json, where it exists.
  pub file : Option (Dict String SecretScope)

abbrev pub is_akv : SecretScope → Bool
is_akv sc = sc.backend == backend_azure_key_vault

-- The answer of an operation that changes the scopes: nothing, or an error.
abbrev pub Answer : Type 0
Answer = Result {0, 0} String Unit

-- What is saved of a scope: an AKV-backed one has no keys in the file.
abbrev pub saved : SecretScope → SecretScope
saved sc = if is_akv sc then record sc { keys = Dict.empty } else sc

-- What is read back: an empty backend is the Databricks one.
abbrev pub loaded : SecretScope → SecretScope
loaded sc = if sc.backend == "" then record sc { backend = backend_databricks } else sc

-- The answer of an operation that saves: the error of the write, or nothing.
abbrev pub write_error : String
write_error = "write scopes.json"

unfoldable pub persist : Secrets → Bool → Secrets × Answer
persist s wrote =
    if wrote
    then (record s { file = some (Dict.map_values saved s.scopes) }, ok tt)
    else (s, err write_error)

abbrev pub new_scope : String → String → String → String → SecretScope
new_scope name backend resource_id dns_name = record {
  name = name;
  backend = backend;
  resource_id = resource_id;
  dns_name = dns_name;
  keys = Dict.empty;
}

created : Secrets → String → SecretScope → Bool → Option SecretScope → Secrets × Answer
created s key sc wrote none = persist (record s { scopes = Dict.put s.scopes key sc }) wrote
created s key sc wrote (some old) = (s, err "scope exists")

scope_deleted : Secrets → String → Bool → Option SecretScope → Secrets × Answer
scope_deleted s key wrote none = (s, err "scope not found")
scope_deleted s key wrote (some sc) = persist (record s { scopes = Dict.remove s.scopes key }) wrote

abbrev pub with_key : SecretScope → String → String → SecretScope
with_key sc key value = record sc { keys = Dict.put sc.keys key value }

abbrev pub akv_write_error : String
akv_write_error = "Cannot write secrets to Azure KeyVault-backed scope"

key_put : Secrets → String → String → String → Bool → Option SecretScope → Secrets × Answer
key_put s at key value wrote none = (s, err "scope not found")
key_put s at key value wrote (some sc) =
    if is_akv sc
    then (s, err akv_write_error)
    else if trim_space key == ""
    then (s, err "key is required")
    else persist (record s { scopes = Dict.put s.scopes at (with_key sc key value) }) wrote

abbrev pub without_key : SecretScope → String → SecretScope
without_key sc key = record sc { keys = Dict.remove sc.keys key }

key_present : Secrets → String → String → Bool → SecretScope → Option String → Secrets × Answer
key_present s at key wrote sc none = (s, err "secret not found")
key_present s at key wrote sc (some value) =
    persist (record s { scopes = Dict.put s.scopes at (without_key sc key) }) wrote

key_deleted : Secrets → String → String → Bool → Option SecretScope → Secrets × Answer
unfolding key_present
key_deleted s at key wrote none = (s, err "scope not found")
key_deleted s at key wrote (some sc) =
    if is_akv sc
    then (s, err akv_write_error)
    else key_present s at key wrote sc (Dict.get sc.keys key)

value_found : Option String → Result String String
value_found none = err "secret not found"
value_found (some v) = ok v

resolved : String → Option SecretScope → Result String String
unfolding value_found
resolved key none = err "scope not found"
resolved key (some sc) =
    if is_akv sc
    then err "AKV-backed secret must be resolved from the vault"
    else value_found (Dict.get sc.keys key)

-- strings.ToLower is a parameter.
module _ (to_lower : String → String) where
  unfoldable pub norm_scope : String → String
  norm_scope name = to_lower (trim_space name)

  unfoldable pub create : Secrets → String → String → String → String → Bool → Secrets × Answer
  unfolding created
  create s name backend resource_id dns_name wrote =
      let name' = trim_space name in
      let key = norm_scope name' in
      if name' == ""
      then (s, err "scope is required")
      else created s key (new_scope name' backend resource_id dns_name) wrote
          (Dict.get s.scopes key)

  unfoldable pub create_scope : Secrets → String → Bool → Secrets × Answer
  create_scope s name wrote = create s name backend_databricks "" "" wrote

  unfoldable pub create_akv_scope : Secrets → String → String → String → Bool → Secrets × Answer
  create_akv_scope s name resource_id dns_name wrote =
      create s name backend_azure_key_vault resource_id dns_name wrote

  unfoldable pub get_scope : Secrets → String → Option SecretScope
  get_scope s name = Dict.get s.scopes (norm_scope name)

  unfoldable pub delete_scope : Secrets → String → Bool → Secrets × Answer
  unfolding scope_deleted
  delete_scope s name wrote =
      scope_deleted s (norm_scope name) wrote (Dict.get s.scopes (norm_scope name))

  unfoldable pub put : Secrets → String → String → String → Bool → Secrets × Answer
  unfolding key_put
  put s scope key value wrote =
      key_put s (norm_scope scope) key value wrote (Dict.get s.scopes (norm_scope scope))

  unfoldable pub delete_key : Secrets → String → String → Bool → Secrets × Answer
  unfolding key_deleted
  delete_key s scope key wrote =
      key_deleted s (norm_scope scope) key wrote (Dict.get s.scopes (norm_scope scope))

  unfoldable pub resolve : Secrets → String → String → Result String String
  unfolding resolved
  resolve s scope key = resolved key (Dict.get s.scopes (norm_scope scope))

-- What a listing shows of a scope: no values.
abbrev pub public : SecretScope → SecretScope
public sc = record sc { keys = Dict.empty }

unfoldable pub list_scopes : Secrets → List SecretScope
list_scopes s = map public (Dict.values s.scopes)

module _ (to_lower : String → String) where
  -- The scopes that are read from the file, or none where it is missing.
  from_file : Option (Dict String SecretScope) → Dict String SecretScope
  from_file none = Dict.empty
  from_file (some d) = Dict.rekey (norm_scope to_lower) (Dict.map_values loaded d)

  unfoldable pub open_secrets : Secrets → Secrets
  unfolding from_file
  open_secrets s = record s { scopes = from_file s.file }
