-- ===== src/Store/Policies/Enforced.antt =====
-- internal/store/policies.go: every stored policy is one that is enforced.
use databricks_emulator.Base.{
  ℕ, ◌≡◌, refl, sym, ap, ◌∙◌, Bool, true, false, some, String, if◌then◌else◌, arith, Bool-cases,
  Option-cases, inl, inr, is_some,
}
use databricks_emulator.Base.Eq.{◌==◌, string_comparable}
use databricks_emulator.Base.Int64.{incr64}
use databricks_emulator.Base.Result.{Result, ok, err}
use databricks_emulator.Text.{trim_space, numbered}
use databricks_emulator.Dict
use databricks_emulator.Dict.{Dict}
use databricks_emulator.Store.Policies.Rules.{Json, PolicyError, validate_definition}
use databricks_emulator.Store.Policies.{
  Policy, Policies, persist_policies, delete_policy, create_policy, policy_added, edit_policy,
  edit_checked, policy_edited, edited, chosen, open_policies,
}

-- The operations that change the policies.
pub data Op : Type 0 where
  creates : Policy → Op
  edits : (id name definition description : String) → Op
  deletes : (id : String) → Op

module _ (js : Json) where
  unfoldable pub policy_step : Policies → Op → Bool → Policies
  policy_step p (creates pol) wrote = (create_policy js p pol wrote).0
  policy_step p (edits id name definition description) wrote =
      (edit_policy js p id name definition description wrote).0
  policy_step p (deletes id) wrote = (delete_policy p id wrote).0

  -- Every stored policy has a definition that ValidateDefinition accepts.
  abbrev pub IsEnforced : Policies → Type 0
  IsEnforced p =
      (id : String) (pol : Policy)
      → Dict.get p.all id ≡ some pol
      → validate_definition js pol.definition ≡ ok tt

  persist-IsEnforced {ℓ} :
      {A : Type ℓ} (p : Policies) (wrote : Bool) (answer : A)
      → IsEnforced p
      → IsEnforced (persist_policies p wrote answer).0
  unfolding persist_policies
  persist-IsEnforced p true answer h = h
  persist-IsEnforced p false answer h = h

  put-IsEnforced :
      (p : Policies) (n : ℕ) (id : String) (pol : Policy)
      → IsEnforced p
      → validate_definition js pol.definition ≡ ok tt
      → IsEnforced (record p { next_id = n; all = Dict.put p.all id pol })
  put-IsEnforced p n id pol h valid j q at = elim (Bool-cases (id == j)) [
    | inl hit ↦
        let same : pol ≡ q = ground (arith, at, Dict.get-put p.all id pol j) in
        ap (λ (r : Policy). validate_definition js r.definition) (sym same) ∙ valid
    | inr miss ↦ h j q (ground (arith, at, Dict.get-put p.all id pol j))
  ]

  added-IsEnforced :
      (p : Policies) (pol : Policy) (wrote : Bool) (checked : Result {0, 0} PolicyError Unit)
      → validate_definition js pol.definition ≡ checked
      → IsEnforced p
      → IsEnforced (policy_added js p pol wrote checked).0
  unfolding policy_added
  added-IsEnforced p pol wrote (err e) same h = h
  added-IsEnforced p pol wrote (ok tt) same h =
      let id = numbered "policy-" (incr64 p.next_id) in
      let pol' : Policy = record pol { id = id } in
      persist-IsEnforced (record p { next_id = incr64 p.next_id; all = Dict.put p.all id pol' })
        wrote pol' (put-IsEnforced p (incr64 p.next_id) id pol' h same)

  edited-IsEnforced :
      (p : Policies) (id name definition description : String) (wrote : Bool)
      (checked : Result {0, 0} PolicyError Unit)
      → (if definition == "" then ok tt else validate_definition js definition) ≡ checked
      → IsEnforced p
      → IsEnforced (edit_checked js p id name definition description wrote checked).0
  unfolding edit_checked policy_edited
  edited-IsEnforced p id name definition description wrote (err e) same h = h
  edited-IsEnforced p id name definition description wrote (ok tt) same h =
      elim (Option-cases (Dict.get p.all id)) [
        | inl e ↦ rw (policy_edited, e) h
        | inr (pol, e) ↦
            let pol' = edited pol name definition description in
            let valid : validate_definition js (chosen definition pol.definition) ≡ ok tt =
              elim (Bool-cases (definition == "")) [
                | inl kept ↦ rw kept (h id pol e)
                | inr new ↦ rw new (rw new at same)
              ] in
            rw (policy_edited, e)
              (persist-IsEnforced (record p { all = Dict.put p.all id pol' }) wrote pol'
                (put-IsEnforced p p.next_id id pol' h valid))
      ]

  -- Every operation, refused or not, saved or not, keeps the stored policies such that
  -- ValidateDefinition accepts each.
  pub policy_step-IsEnforced :
      (p : Policies) (o : Op) (wrote : Bool) → IsEnforced p → IsEnforced (policy_step p o wrote)
  unfolding policy_step create_policy edit_policy delete_policy
  policy_step-IsEnforced p (creates pol) wrote h = elim (Bool-cases (trim_space pol.name == "")) [
    | inl blank ↦ rw (policy_step, blank) h
    | inr given ↦
        rw (policy_step, given)
          (added-IsEnforced p pol wrote (validate_definition js pol.definition) refl h)
  ]
  policy_step-IsEnforced p (edits id name definition description) wrote h =
      edited-IsEnforced p id name definition description wrote
        (if definition == "" then ok tt else validate_definition js definition) refl h
  policy_step-IsEnforced p (deletes id) wrote h = elim (Bool-cases (is_some (Dict.get p.all id))) [
    | inr gone ↦ rw (policy_step, gone) h
    | inl there ↦
        rw (policy_step, there)
          (persist-IsEnforced (record p { all = Dict.remove p.all id }) wrote true
            (λ j q at. h j q (ground (arith, at, Dict.get-remove p.all id j))))
  ]

-- A deletion that could not be saved is answered as one that was made, and a restart reads the same
-- policies as without it.
pub delete_policy_unsaved :
    (p : Policies) (id : String) (pol : Policy)
    → Dict.get p.all id ≡ some pol
    → ((delete_policy p id false).1 ≡ true)
      × (open_policies (delete_policy p id false).0 ≡ open_policies p)
unfolding delete_policy persist_policies open_policies
delete_policy_unsaved p id pol at = rw at (refl, refl)
