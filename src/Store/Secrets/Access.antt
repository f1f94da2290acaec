-- ===== src/Store/Secrets/Access.antt =====
-- internal/store/secrets.go: what a put leaves for a later resolve.
use databricks_emulator.Base.{
  ◌≡◌, refl, Bool, true, false, Option, none, some, String, arith, Bool-cases, inl, inr,
  if◌then◌else◌, ◌&&◌,
}
use databricks_emulator.Base.Eq.{◌==◌, string_comparable}
use databricks_emulator.Base.Result.{ok, err}
use databricks_emulator.Text.{trim_space}
use databricks_emulator.Text.Trim.{trim_space-trim_space}
use databricks_emulator.Dict
use databricks_emulator.Store.Secrets.{
  Secrets, SecretScope, is_akv, with_key, norm_scope, put, key_put, resolve, resolved, value_found,
  persist, get_scope, write_error, create, created, new_scope,
}

-- The scope takes values and the key is not blank.
abbrev pub Accepts : Option SecretScope → String → Type 0
Accepts none key = ⊥
Accepts (some sc) key = (is_akv sc ≡ false) × (◌==◌ {K = String} (trim_space key) "" ≡ false)

persist-scopes : (s : Secrets) (wrote : Bool) → (persist s wrote).0.scopes ≡ s.scopes
unfolding persist
persist-scopes s true = refl
persist-scopes s false = refl

put_found-resolved :
    (s : Secrets) (at at' key k value : String) (wrote : Bool) (found : Option SecretScope)
    → Dict.get s.scopes at ≡ found
    → Accepts found key
    → resolved k (Dict.get (key_put s at key value wrote found).0.scopes at')
      ≡ (if at == at' && key == k then ok value else resolved k (Dict.get s.scopes at'))
unfolding key_put resolved value_found
put_found-resolved s at at' key k value wrote none e accepted = absurd accepted
put_found-resolved s at at' key k value wrote (some sc) e accepted =
    let t : Secrets = record s { scopes = Dict.put s.scopes at (with_key sc key value) } in
    rw
      (
        accepted.0,
        accepted.1,
        persist-scopes t wrote,
        Dict.get-put s.scopes at (with_key sc key value) at',
      )
      (elim (Bool-cases (at == at')) [
        | inl hit ↦
            let there : Dict.get s.scopes at' ≡ some sc =
              ground (arith, string_comparable.equal_iff at at', e) in
            rw (hit, there, Dict.get-put sc.keys key value k)
              (elim (Bool-cases (key == k)) [
                | inl same ↦ rw (accepted.0, same) refl
                | inr different ↦ rw different refl
              ])
        | inr miss ↦ rw miss refl
      ])

module _ (to_lower : String → String) where
  -- A value that is put on a Databricks-backed scope under a key that is not blank is what a
  -- resolve of the key finds under any spelling of the name of the scope, saved or not, and every
  -- other key resolves as before.
  pub put-resolve :
      (s : Secrets) (scope key value : String) (wrote : Bool) (other k : String)
      → Accepts (get_scope to_lower s scope) key
      → resolve to_lower (put to_lower s scope key value wrote).0 other k ≡ (
          if norm_scope to_lower scope == norm_scope to_lower other && key == k
          then ok value
          else resolve to_lower s other k)
  unfolding get_scope put resolve
  put-resolve s scope key value wrote other k accepted =
      put_found-resolved s (norm_scope to_lower scope) (norm_scope to_lower other) key k value wrote
        (Dict.get s.scopes (norm_scope to_lower scope)) refl accepted

  norm_scope-trim_space :
      (name : String) → norm_scope to_lower (trim_space name) ≡ norm_scope to_lower name
  unfolding norm_scope
  norm_scope-trim_space name = rw (trim_space-trim_space name) refl

  -- Creating a scope whose name is new and not blank answers the error of the write where it
  -- fails, and the scope is in memory and not in the file.
  pub create_unsaved :
      (s : Secrets) (name backend resource_id dns_name : String)
      → ◌==◌ {K = String} (trim_space name) "" ≡ false
      → get_scope to_lower s name ≡ none
      → ((create to_lower s name backend resource_id dns_name false).1 ≡ err write_error)
        × (get_scope to_lower (create to_lower s name backend resource_id dns_name false).0 name
            ≡ some (new_scope (trim_space name) backend resource_id dns_name))
        × ((create to_lower s name backend resource_id dns_name false).0.file ≡ s.file)
  unfolding create get_scope created persist
  create_unsaved s name backend resource_id dns_name named absent =
      let sc = new_scope (trim_space name) backend resource_id dns_name in
      let found = Dict.get-put s.scopes (norm_scope to_lower name) sc (norm_scope to_lower name) in
      let self =
        (string_comparable.equal_iff (norm_scope to_lower name) (norm_scope to_lower name)).1
          refl in
      rw (named, norm_scope-trim_space name, absent) (refl, rw self at found, refl)
