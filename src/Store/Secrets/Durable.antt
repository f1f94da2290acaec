-- ===== src/Store/Secrets/Durable.antt =====
-- internal/store/secrets.go: what is in memory is what a restart reads back.
pub mod Stored
use databricks_emulator.Base.{
  ◌≡◌, refl, sym, ap, ◌∙◌, Bool, true, false, Option, none, some, String, arith, Bool-cases,
  Option-cases, inl, inr, subst,
}
use databricks_emulator.Base.Eq.{◌==◌, string_comparable}
use databricks_emulator.Text.{trim_space}
use databricks_emulator.Text.Trim.{trim_space-trim_space}
use databricks_emulator.Dict
use databricks_emulator.Dict.{Dict}
use databricks_emulator.Store.Secrets.{
  Secrets, SecretScope, Answer, is_akv, norm_scope, create, created, delete_scope, scope_deleted,
  put, key_put, delete_key, key_deleted, key_present, persist, open_secrets, from_file, new_scope,
  saved, loaded, backend_databricks, backend_azure_key_vault,
}
use databricks_emulator.Store.Secrets.Durable.Stored.{
  IsStored, IsSound, put-IsSound, remove-IsSound, restored,
}

-- The operations that change the scopes.
pub data Op : Type 0 where
  creates_scope : (name : String) → Op
  creates_akv_scope : (name resource_id dns_name : String) → Op
  deletes_scope : (name : String) → Op
  puts : (scope key value : String) → Op
  deletes_key : (scope key : String) → Op

-- strings.ToLower, of which the theorem uses that a second pass changes nothing, and that it
-- neither makes nor removes space at the ends.
module _ (to_lower : String → String) where
  unfoldable pub apply : Secrets → Op → Bool → Secrets × Answer
  apply s (creates_scope name) wrote = create to_lower s name backend_databricks "" "" wrote
  apply s (creates_akv_scope name resource_id dns_name) wrote =
      create to_lower s name backend_azure_key_vault resource_id dns_name wrote
  apply s (deletes_scope name) wrote = delete_scope to_lower s name wrote
  apply s (puts scope key value) wrote = put to_lower s scope key value wrote
  apply s (deletes_key scope key) wrote = delete_key to_lower s scope key wrote

  -- A restart finds every scope as it is in memory.
  pub record IsDurable (s : Secrets) : Type 0 where
    pub sound : IsSound (norm_scope to_lower) s.scopes
    pub in_sync : (k : String) → Dict.get (open_secrets to_lower s).scopes k ≡ Dict.get s.scopes k

  get_twice :
      (d : Dict String SecretScope) (k : String)
      → Dict.get (Dict.map_values loaded (Dict.map_values saved d)) k
        ≡ Dict.map_option loaded (Dict.map_option saved (Dict.get d k))
  get_twice d k =
      Dict.get-map_values loaded (Dict.map_values saved d) k
      ∙ ap (Dict.map_option loaded) (Dict.get-map_values saved d k)

  restored_at :
      (s : Secrets) (k : String)
      → IsSound (norm_scope to_lower) s.scopes
      → Dict.get
          (Dict.rekey
            (norm_scope to_lower)
            (Dict.map_values loaded (Dict.map_values saved s.scopes)))
          k
        ≡ Dict.get s.scopes k
  restored_at s k sound =
      Dict.get-rekey (norm_scope to_lower) (Dict.map_values loaded (Dict.map_values saved s.scopes))
        k
        (λ j v at. elim (Option-cases (Dict.get s.scopes j)) [
          | inl e ↦ absurd (cc (at, rw e at (get_twice s.scopes j)))
          | inr (sc, e) ↦ (sound j sc e).normal
        ])
      ∙ (get_twice s.scopes k ∙ restored (norm_scope to_lower) k (Dict.get s.scopes k) (sound k))

  persist-IsDurable :
      (s : Secrets) → IsSound (norm_scope to_lower) s.scopes → IsDurable (persist s true).0
  unfolding persist open_secrets from_file
  persist-IsDurable s sound = record { sound = sound; in_sync = λ k. restored_at s k sound }

  norm_twice :
      ((t : String) → to_lower (to_lower t) ≡ to_lower t)
      → ((t : String) → trim_space (to_lower t) ≡ to_lower (trim_space t))
      → (name : String) → norm_scope to_lower (norm_scope to_lower name) ≡ norm_scope to_lower name
  unfolding norm_scope
  norm_twice lower_twice lower_trim name =
      rw (lower_trim (trim_space name), trim_space-trim_space name, lower_twice (trim_space name))
        refl

  module _ (s : Secrets) (durable : IsDurable s) where
    created-IsDurable :
        (key : String) (sc : SecretScope)
        → IsStored (norm_scope to_lower) key sc
        → IsDurable (created s key sc true (Dict.get s.scopes key)).0
    unfolding created
    created-IsDurable key sc stored = elim (Option-cases (Dict.get s.scopes key)) [
      | inl e ↦
          rw (e, created)
            (persist-IsDurable (record s { scopes = Dict.put s.scopes key sc })
              (put-IsSound (norm_scope to_lower) s.scopes key sc durable.sound stored))
      | inr (old, e) ↦ rw (e, created) durable
    ]

    scope_deleted-IsDurable :
        (key : String) → IsDurable (scope_deleted s key true (Dict.get s.scopes key)).0
    unfolding scope_deleted
    scope_deleted-IsDurable key = elim (Option-cases (Dict.get s.scopes key)) [
      | inl e ↦ rw (e, scope_deleted) durable
      | inr (sc, e) ↦
          rw (e, scope_deleted)
            (persist-IsDurable (record s { scopes = Dict.remove s.scopes key })
              (remove-IsSound (norm_scope to_lower) s.scopes key durable.sound))
    ]

    -- A Databricks-backed scope may hold any keys.
    with_keys :
        (at : String) (sc : SecretScope) (keys : Dict String String)
        → Dict.get s.scopes at ≡ some sc
        → is_akv sc ≡ false
        → IsDurable
            (persist
              (record s { scopes = Dict.put s.scopes at (record sc { keys = keys }) })
              true).0
    with_keys at sc keys e dbx =
        let stored = durable.sound at sc e in
        persist-IsDurable (record s { scopes = Dict.put s.scopes at (record sc { keys = keys }) })
          (put-IsSound (norm_scope to_lower) s.scopes at (record sc { keys = keys }) durable.sound
            (record {
              normal = stored.normal;
              backed = stored.backed;
              valueless = λ akv. absurd (cc (akv, dbx));
            }))

    key_put-IsDurable :
        (at key value : String) → IsDurable (key_put s at key value true (Dict.get s.scopes at)).0
    unfolding key_put
    key_put-IsDurable at key value = elim (Option-cases (Dict.get s.scopes at)) [
      | inl e ↦ rw (e, key_put) durable
      | inr (sc, e) ↦ elim (Bool-cases (is_akv sc)) [
        | inl akv ↦ rw (e, key_put, akv) durable
        | inr dbx ↦ elim (Bool-cases (◌==◌ {K = String} (trim_space key) "")) [
          | inl blank ↦ rw (e, key_put, dbx, blank) durable
          | inr named ↦
              rw (e, key_put, dbx, named) (with_keys at sc (Dict.put sc.keys key value) e dbx)
        ]
      ]
    ]

    key_deleted-IsDurable :
        (at key : String) → IsDurable (key_deleted s at key true (Dict.get s.scopes at)).0
    unfolding key_deleted key_present
    key_deleted-IsDurable at key = elim (Option-cases (Dict.get s.scopes at)) [
      | inl e ↦ rw (e, key_deleted) durable
      | inr (sc, e) ↦ elim (Bool-cases (is_akv sc)) [
        | inl akv ↦ rw (e, key_deleted, akv) durable
        | inr dbx ↦ elim (Option-cases (Dict.get sc.keys key)) [
          | inl missing ↦ rw (e, key_deleted, dbx, missing, key_present) durable
          | inr (value, there) ↦
              rw (e, key_deleted, dbx, there, key_present)
                (with_keys at sc (Dict.remove sc.keys key) e dbx)
        ]
      ]
    ]

  create-IsDurable :
      ((t : String) → to_lower (to_lower t) ≡ to_lower t)
      → ((t : String) → trim_space (to_lower t) ≡ to_lower (trim_space t))
      → (s : Secrets) → IsDurable s
      → (name backend resource_id dns_name : String) → ◌==◌ {K = String} backend "" ≡ false
      → IsDurable (create to_lower s name backend resource_id dns_name true).0
  unfolding create
  create-IsDurable lower_twice lower_trim s d name backend resource_id dns_name backed =
      elim (Bool-cases (◌==◌ {K = String} (trim_space name) "")) [
        | inl blank ↦ rw blank d
        | inr named ↦ rw named (
            created-IsDurable s d (norm_scope to_lower (trim_space name))
              (new_scope (trim_space name) backend resource_id dns_name)
              (record {
                normal = norm_twice lower_twice lower_trim (trim_space name);
                backed = backed;
                valueless = λ akv. refl;
              }))
      ]

  -- On a store of which a restart finds every scope and value as they are in memory, every operation
  -- of the secrets store, refused or not, leaves such a store, where the file can be written; a
  -- second pass of ToLower changes nothing, and it does not touch space at the ends.
  pub apply-IsDurable :
      ((t : String) → to_lower (to_lower t) ≡ to_lower t)
      → ((t : String) → trim_space (to_lower t) ≡ to_lower (trim_space t))
      → (s : Secrets) (o : Op) → IsDurable s
      → IsDurable (apply s o true).0
  unfolding apply put delete_scope delete_key
  apply-IsDurable lower_twice lower_trim s (creates_scope name) d =
      create-IsDurable lower_twice lower_trim s d name backend_databricks "" "" refl
  apply-IsDurable lower_twice lower_trim s (creates_akv_scope name resource_id dns_name) d =
      create-IsDurable lower_twice lower_trim s d name backend_azure_key_vault resource_id dns_name
        refl
  apply-IsDurable lower_twice lower_trim s (deletes_scope name) d =
      scope_deleted-IsDurable s d (norm_scope to_lower name)
  apply-IsDurable lower_twice lower_trim s (puts scope key value) d =
      key_put-IsDurable s d (norm_scope to_lower scope) key value
  apply-IsDurable lower_twice lower_trim s (deletes_key scope key) d =
      key_deleted-IsDurable s d (norm_scope to_lower scope) key

  pub no_scopes-IsDurable : IsDurable (record { scopes = Dict.empty; file = none })
  unfolding open_secrets from_file
  no_scopes-IsDurable = record {
    sound = λ k sc at. let e = Dict.get-empty {V = SecretScope} k in absurd (cc e);
    in_sync = λ k. refl;
  }
