-- ===== src/Store/Policies/Rules/Meaning.antt =====
-- internal/store/policies.go: what a policy asks of a cluster.
use databricks_emulator.Base.{
  ◌≡◌, ◌≢◌, ◌↔◌, subst, refl, sym, ap, ◌∙◌, Bool, true, false, Option, none, some, String,
  if◌then◌else◌, any, arith, Bool-cases, Option-cases, inl, inr,
}
use databricks_emulator.Base.Eq.{◌==◌, string_comparable}
use databricks_emulator.Base.Result.{ok}
use databricks_emulator.Dict
use databricks_emulator.Dict.{Dict}
use databricks_emulator.Dict.Entries.{found_entries, get-found_entries, at_key}
use databricks_emulator.Store.Policies.Rules.{
  Json, ClusterAttrs, Attr, Violation, text, attr_value, show_attr, evaluate_policy, evaluated,
  parse_definition, violation, apply_fixed_defaults, defaulted, fixed_default, spec_type, type_of,
  type_text, show_key, show_option, is_forbidden, must_be, not_listed, present, ranged, above,
  below, attr_number, key_number, allowed,
}

module _ (js : Json) where
  open js use {V, F, as_text, show, lt}

  -- The number is between the bounds that the rule has.
  abbrev pub Within : Dict String V → F → Type 0
  Within spec n =
      ((least : F) → key_number js (Dict.get spec "minValue") ≡ some least → lt n least ≡ false)
      × ((most : F) → key_number js (Dict.get spec "maxValue") ≡ some most → lt most n ≡ false)

  abbrev pub InRange : Dict String V → Attr → Type 0
  InRange spec got = (n : F) × (attr_number js got ≡ some n) × Within spec n

  -- What the rule asks of the attribute.
  pub record Complies (spec : Dict String V) (got : Attr) : Type 0 where
    pub forbidden : spec_type js spec ≡ "forbidden" → present got ≡ false
    pub fixed : spec_type js spec ≡ "fixed" → show_attr got ≡ show_key js spec "value"
    pub range : spec_type js spec ≡ "range" → InRange spec got
    pub listed :
        spec_type js spec ≡ "allowlist"
        → any (λ v. show v == show_attr got) (allowed js (Dict.get spec "values")) ≡ true

  range-none :
      (n : F) (least most : Option F)
      → (above js n most (below js n least none) ≡ none)
        ↔ (((m : F) → least ≡ some m → lt n m ≡ false) × ((m : F) → most ≡ some m → lt m n ≡ false))
  unfolding above below
  range-none n none none = (λ _. (λ m e. absurd (cc e), λ m e. absurd (cc e)), λ _. refl)
  range-none n none (some y) =
      (λ h. (λ m e. absurd (cc e), λ m e. ground arith), λ h. ground (arith, h.1 y refl))
  range-none n (some x) none =
      (λ h. (λ m e. ground arith, λ m e. absurd (cc e)), λ h. ground (arith, h.0 x refl))
  range-none n (some x) (some y) =
      (λ h. (λ m e. ground arith, λ m e. ground arith), λ h. ground (arith, h.0 x refl, h.1 y refl))

  ranged-none :
      (spec : Dict String V) (got : Attr)
      → (ranged js spec (attr_number js got) ≡ none) ↔ InRange spec got
  unfolding ranged
  ranged-none spec got = elim (Option-cases (attr_number js got)) [
    | inl e ↦ (λ h. absurd (cc (rw e at h)), λ (n, at, _). absurd (cc (e, at)))
    | inr (n, e) ↦
        let bounds =
          range-none n (key_number js (Dict.get spec "minValue"))
            (key_number js (Dict.get spec "maxValue")) in
        (
          λ h. (n, e, bounds.0 (rw e at h)),
          λ (m, at, within).
              let same : m ≡ n = ground (arith, e, at) in
              rw e (bounds.1 (subst (Within spec) same within)),
        )
  ]

  if-none : (x : Violation) (b : Bool) → ((if b then none else some x) ≡ none) ↔ (b ≡ true)
  if-none x true = (λ _. refl, λ _. refl)
  if-none x false = (λ h. absurd (cc h), λ h. absurd (cc h))

  if-some : (x : Violation) (b : Bool) → ((if b then some x else none) ≡ none) ↔ (b ≡ false)
  if-some x true = (λ h. absurd (cc h), λ h. absurd (cc h))
  if-some x false = (λ _. refl, λ _. refl)

  other : (t x y : String) → (x == y) ≡ false → t ≡ x → t ≢ y
  other t x y differ one two =
      absurd (cc ((string_comparable.equal_iff x y).1 (sym one ∙ two), differ))

  forbidden-Complies :
      (spec : Dict String V) (got : Attr)
      → spec_type js spec ≡ "forbidden"
      → present got ≡ false
      → Complies spec got
  forbidden-Complies spec got kind holds = record {
    forbidden = λ _. holds;
    fixed = λ e. absurd (other (spec_type js spec) "forbidden" "fixed" refl kind e);
    range = λ e. absurd (other (spec_type js spec) "forbidden" "range" refl kind e);
    listed = λ e. absurd (other (spec_type js spec) "forbidden" "allowlist" refl kind e);
  }

  fixed-Complies :
      (spec : Dict String V) (got : Attr)
      → spec_type js spec ≡ "fixed"
      → show_attr got ≡ show_key js spec "value"
      → Complies spec got
  fixed-Complies spec got kind holds = record {
    forbidden = λ e. absurd (other (spec_type js spec) "fixed" "forbidden" refl kind e);
    fixed = λ _. holds;
    range = λ e. absurd (other (spec_type js spec) "fixed" "range" refl kind e);
    listed = λ e. absurd (other (spec_type js spec) "fixed" "allowlist" refl kind e);
  }

  range-Complies :
      (spec : Dict String V) (got : Attr)
      → spec_type js spec ≡ "range"
      → InRange spec got
      → Complies spec got
  range-Complies spec got kind holds = record {
    forbidden = λ e. absurd (other (spec_type js spec) "range" "forbidden" refl kind e);
    fixed = λ e. absurd (other (spec_type js spec) "range" "fixed" refl kind e);
    range = λ _. holds;
    listed = λ e. absurd (other (spec_type js spec) "range" "allowlist" refl kind e);
  }

  listed-Complies :
      (spec : Dict String V) (got : Attr)
      → spec_type js spec ≡ "allowlist"
      → any (λ v. show v == show_attr got) (allowed js (Dict.get spec "values")) ≡ true
      → Complies spec got
  listed-Complies spec got kind holds = record {
    forbidden = λ e. absurd (other (spec_type js spec) "allowlist" "forbidden" refl kind e);
    fixed = λ e. absurd (other (spec_type js spec) "allowlist" "fixed" refl kind e);
    range = λ e. absurd (other (spec_type js spec) "allowlist" "range" refl kind e);
    listed = λ _. holds;
  }

  -- The rule finds no fault exactly with an attribute that complies.
  pub violation-iff-Complies :
      (spec : Dict String V) (got : Attr) → (violation js spec got ≡ none) ↔ Complies spec got
  unfolding violation
  violation-iff-Complies spec got =
      let t : String = spec_type js spec in
      let text_iff : (s : String) → _ = string_comparable.equal_iff t in
      elim (Bool-cases (t == "forbidden")) [
        | inl a ↦
            let rule = if-some is_forbidden (present got) in
            let kind = (text_iff "forbidden").0 a in
            (
              λ h. forbidden-Complies spec got kind (rule.0 (rw a at h)),
              λ c. rw a (rule.1 (c.forbidden kind)),
            )
        | inr na ↦ elim (Bool-cases (t == "fixed")) [
          | inl b ↦
              let value = show_key js spec "value" in
              let rule = if-none (must_be value) (show_attr got == value) in
              let same = string_comparable.equal_iff (show_attr got) value in
              let kind = (text_iff "fixed").0 b in
              (
                λ h. fixed-Complies spec got kind (same.0 (rule.0 (rw (na, b) at h))),
                λ c. rw (na, b) (rule.1 (same.1 (c.fixed kind))),
              )
          | inr nb ↦ elim (Bool-cases (t == "range")) [
            | inl d ↦
                let rule = ranged-none spec got in
                let kind = (text_iff "range").0 d in
                (
                  λ h. range-Complies spec got kind (rule.0 (rw (na, nb, d) at h)),
                  λ c. rw (na, nb, d) (rule.1 (c.range kind)),
                )
            | inr nd ↦ elim (Bool-cases (t == "allowlist")) [
              | inl l ↦
                  let rule =
                    if-none not_listed
                      (any (λ v. show v == show_attr got) (allowed js (Dict.get spec "values"))) in
                  let kind = (text_iff "allowlist").0 l in
                  (
                    λ h. listed-Complies spec got kind (rule.0 (rw (na, nb, nd, l) at h)),
                    λ c. rw (na, nb, nd, l) (rule.1 (c.listed kind)),
                  )
              | inr nl ↦ (
                λ h. record {
                  forbidden = λ e. absurd (cc (na, (text_iff "forbidden").1 e));
                  fixed = λ e. absurd (cc (nb, (text_iff "fixed").1 e));
                  range = λ e. absurd (cc (nd, (text_iff "range").1 e));
                  listed = λ e. absurd (cc (nl, (text_iff "allowlist").1 e));
                },
                λ c. rw (na, nb, nd, nl) refl,
              )
            ]
          ]
        ]
      ]

  -- EvaluatePolicy, for a definition that can be read: it reports no violation at a name exactly if
  -- the rule that the definition has there, if it has one, is complied with.
  pub evaluate_policy-iff-Complies :
      (definition : String) (a : ClusterAttrs) (attrs : Dict String (Dict String V))
      (found : Dict String Violation) (name : String)
      → parse_definition js definition ≡ ok attrs
      → evaluate_policy js definition a ≡ ok found
      → (Dict.get found name ≡ none) ↔ (
          (spec : Dict String V)
          → Dict.get attrs name ≡ some spec
          → Complies spec (attr_value a name))
  unfolding evaluate_policy evaluated
  evaluate_policy-iff-Complies definition a attrs found name parsed answered =
      let rule = λ (k : String) (spec : Dict String V). violation js spec (attr_value a k) in
      let same : found_entries rule attrs ≡ found = ground (arith, rw parsed at answered) in
      let at_name = ap (λ d. Dict.get d name) (sym same) ∙ get-found_entries rule attrs name in
      elim (Option-cases (Dict.get attrs name)) [
        | inl e ↦ (λ _ spec there. absurd (cc (e, there)), λ _. at_name ∙ ap (at_key rule name) e)
        | inr (s, e) ↦
            let meaning = violation-iff-Complies s (attr_value a name) in
            let here = at_name ∙ ap (at_key rule name) e in
            (
              λ h spec there.
                  let equal : s ≡ spec = ground (arith, e, there) in
                  subst (λ r. Complies r (attr_value a name)) equal (meaning.0 (sym here ∙ h)),
              λ h. here ∙ meaning.1 (h s e),
            )
      ]

  shown-type :
      (v : Option V)
      → ((v : V) (s : String) → as_text v ≡ some s → show v ≡ s)
      → type_of js v ≡ "fixed"
      → show_option js v ≡ "fixed"
  unfolding type_of type_text show_option
  shown-type none shows fixed = absurd (cc fixed)
  shown-type (some v) shows fixed = elim (Option-cases (as_text v)) [
    | inl e ↦ absurd (cc (rw e at fixed))
    | inr (s, e) ↦ shows v s e ∙ rw e at fixed
  ]

  -- A cluster that leaves its version open, where the rule of the policy fixes it to a value, is
  -- given a version with which the rule finds no fault; the text of a string is the string.
  pub apply_fixed_defaults-violation :
      (definition : String) (a : ClusterAttrs) (attrs : Dict String (Dict String V))
      (spec : Dict String V)
      → ((v : V) (s : String) → as_text v ≡ some s → show v ≡ s)
      → parse_definition js definition ≡ ok attrs
      → Dict.get attrs "spark_version" ≡ some spec
      → spec_type js spec ≡ "fixed"
      → a.spark_version ≡ ""
      → violation js spec (attr_value (apply_fixed_defaults js definition a) "spark_version") ≡ none
  unfolding apply_fixed_defaults defaulted fixed_default attr_value show_attr show_key type_of
      spec_type
  apply_fixed_defaults-violation definition a attrs spec shows parsed at fixed left =
      let kind : show_key js spec "type" ≡ "fixed" =
        shown-type (Dict.get spec "type") shows fixed in
      let given : (apply_fixed_defaults js definition a).spark_version ≡ show_key js spec "value" =
        rw (parsed, at, left, kind) refl in
      (violation-iff-Complies spec (text (apply_fixed_defaults js definition a).spark_version)).1 (
        fixed-Complies spec (text (apply_fixed_defaults js definition a).spark_version) fixed given)

  -- A rule that fixes autoscale to false is complied with by no cluster.
  pub autoscale_false :
      (spec : Dict String V) (a : ClusterAttrs)
      → spec_type js spec ≡ "fixed"
      → show_key js spec "value" ≡ "false"
      → violation js spec (attr_value a "autoscale") ≡ some (must_be "false")
  unfolding violation attr_value show_attr
  autoscale_false spec a fixed value = elim (Bool-cases a.autoscale) [
    | inl up ↦ rw (fixed, value, up) refl
    | inr down ↦ rw (fixed, value, down) refl
  ]
