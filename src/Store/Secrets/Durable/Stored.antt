-- ===== src/Store/Secrets/Durable/Stored.antt =====
-- internal/store/secrets.go: the scopes that a file can hold.
use databricks_emulator.Base.{
  ◌≡◌, refl, sym, ap, true, false, Option, none, some, String, arith, Bool-cases, inl, inr, subst,
}
use databricks_emulator.Base.Eq.{◌==◌, string_comparable}
use databricks_emulator.Dict
use databricks_emulator.Dict.{Dict}
use databricks_emulator.Store.Secrets.{SecretScope, is_akv, saved, loaded}

-- A scope that is stored under a normalized name has a backend, and is free of values if that is
-- the vault.
pub record IsStored (norm : String → String) (k : String) (sc : SecretScope) : Type 0 where
  pub normal : norm k ≡ k
  pub backed : ◌==◌ {K = String} sc.backend "" ≡ false
  pub valueless : is_akv sc ≡ true → sc.keys ≡ Dict.empty

abbrev pub IsSound : (String → String) → Dict String SecretScope → Type 0
IsSound norm d = (k : String) (sc : SecretScope) → Dict.get d k ≡ some sc → IsStored norm k sc

pub put-IsSound :
    (norm : String → String) (d : Dict String SecretScope) (at : String) (sc : SecretScope)
    → IsSound norm d
    → IsStored norm at sc
    → IsSound norm (Dict.put d at sc)
put-IsSound norm d at sc sound stored k u found = elim (Bool-cases (at == k)) [
  | inl hit ↦
      let same : at ≡ k = (string_comparable.equal_iff at k).0 hit in
      let stays : sc ≡ u = ground (arith, Dict.get-put d at sc k) in
      subst (λ v. IsStored norm k v) stays (subst (λ j. IsStored norm j sc) same stored)
  | inr miss ↦ sound k u (ground (arith, Dict.get-put d at sc k))
]

pub remove-IsSound :
    (norm : String → String) (d : Dict String SecretScope) (at : String)
    → IsSound norm d
    → IsSound norm (Dict.remove d at)
remove-IsSound norm d at sound k u found = sound k u (ground (arith, Dict.get-remove d at k))

loaded-saved :
    (norm : String → String) (k : String) (sc : SecretScope)
    → IsStored norm k sc
    → loaded (saved sc) ≡ sc
loaded-saved norm k sc stored = elim (Bool-cases (is_akv sc)) [
  | inl akv ↦
      rw (akv, stored.backed) (ap (λ d. record sc { keys = d }) (sym (stored.valueless akv)))
  | inr dbx ↦ rw (dbx, stored.backed) refl
]

pub restored :
    (norm : String → String) (k : String) (found : Option SecretScope)
    → ((sc : SecretScope) → found ≡ some sc → IsStored norm k sc)
    → Dict.map_option loaded (Dict.map_option saved found) ≡ found
restored norm k none stored = refl
restored norm k (some sc) stored = ap (λ u. some u) (loaded-saved norm k sc (stored sc refl))
