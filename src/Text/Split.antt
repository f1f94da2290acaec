-- ===== src/Text/Split.antt =====
-- strings.Split at a one-byte separator, strings.Join, strings.Contains and strings.HasPrefix.
use Prim.Native.Char.{Char, code}
use databricks_emulator.Base.{
  ℕ, ◌≡◌, refl, sym, ap, ◌∙◌, Bool, true, false, ◌&&◌, ◌||◌, List, [], ◌∷◌, String, ◌<>◌,
  if◌then◌else◌, arith, Bool-cases, inl, inr, All,
}
use text.Mathlib.TextLemmas.{nil-append, cons-append}
use databricks_emulator.Base.Eq.{◌==◌, nat_comparable, string_comparable}

-- A character before the first field.
unfoldable pub onto : Char → List String → List String
onto c [] = String.◌∷◌ c "" ∷ []
onto c (field ∷ fields) = String.◌∷◌ c field ∷ fields

-- strings.Split(s, sep), for the separator with code `k`.
unfoldable pub split_on : ℕ → String → List String
split_on k String.[] = "" ∷ []
split_on k (String.◌∷◌ c s) =
    let rest = split_on k s in if code c == k then "" ∷ rest else onto c rest

-- strings.Join(fields, sep)
unfoldable pub join : String → List String → String
join sep [] = ""
join sep (x ∷ []) = x
join sep (x ∷ y ∷ xs) = x <> (sep <> join sep (y ∷ xs))

-- strings.HasPrefix(s, prefix)
unfoldable pub prefixed : String → String → Bool
prefixed s String.[] = true
prefixed String.[] (String.◌∷◌ d p) = false
prefixed (String.◌∷◌ c s) (String.◌∷◌ d p) = code c == code d && prefixed s p

-- strings.Contains(s, part)
unfoldable pub contains : String → String → Bool
contains String.[] part = prefixed "" part
contains (String.◌∷◌ c s) part = prefixed (String.◌∷◌ c s) part || contains s part

-- strings.TrimPrefix(s, prefix), with the rest of what has been passed as a prefix.
unfoldable pub after : String → String → String
after s String.[] = s
after String.[] (String.◌∷◌ d p) = ""
after (String.◌∷◌ c s) (String.◌∷◌ d p) = after s p

unfoldable pub trim_prefix : String → String → String
unfolding prefixed after
trim_prefix s prefix = if prefixed s prefix then after s prefix else s

split_on_example : split_on 47 "/a//b" ≡ "" ∷ "a" ∷ "" ∷ "b" ∷ []
unfolding split_on onto
split_on_example = refl

contains_example : (contains "a..b" ".." ≡ true) × (contains "a.b." ".." ≡ false)
unfolding contains prefixed
contains_example = (refl, refl)

trim_prefix_example : (trim_prefix "dbfs:/a" "dbfs:" ≡ "/a") × (trim_prefix "a" "dbfs:" ≡ "a")
unfolding trim_prefix
trim_prefix_example = (refl, refl)

-- No character of the text has the code.
abbrev pub Without : ℕ → String → Type 0
Without k String.[] = Unit
Without k (String.◌∷◌ c s) = (◌==◌ {K = ℕ} (code c) k ≡ false) × Without k s

onto-Without :
    (k : ℕ) (c : Char) (fields : List String)
    → ◌==◌ {K = ℕ} (code c) k ≡ false
    → All (Without k) fields
    → All (Without k) (onto c fields)
unfolding onto
onto-Without k c [] other h = ((other, tt), tt)
onto-Without k c (field ∷ fields) other h = ((other, h.0), h.1)

pub split_on-Without : (k : ℕ) (s : String) → All (Without k) (split_on k s)
unfolding split_on
split_on-Without k String.[] = (tt, tt)
split_on-Without k (String.◌∷◌ c s) = elim (Bool-cases (◌==◌ {K = ℕ} (code c) k)) [
  | inl hit ↦ rw hit (tt, split_on-Without k s)
  | inr miss ↦ rw miss (onto-Without k c (split_on k s) miss (split_on-Without k s))
]

-- Behind a field, the separator starts the next one.
split_on-field :
    (k : ℕ) (x s : String) (d : Char)
    → Without k x
    → ◌==◌ {K = ℕ} (code d) k ≡ true
    → split_on k (x <> String.◌∷◌ d s) ≡ x ∷ split_on k s
unfolding split_on onto
split_on-field k String.[] s d h sep = rw (nil-append (String.◌∷◌ d s)) (rw (split_on, sep) refl)
split_on-field k (String.◌∷◌ c x) s d (other, h) sep =
    rw (cons-append c x (String.◌∷◌ d s)) (rw (split_on, other, split_on-field k x s d h sep) refl)

split_on-one : (k : ℕ) (x : String) → Without k x → split_on k x ≡ x ∷ []
unfolding split_on onto
split_on-one k String.[] h = refl
split_on-one k (String.◌∷◌ c x) (other, h) = rw (other, split_on-one k x h) refl

pub slash-append : (t : String) → "/" <> t ≡ String.◌∷◌ "/" t
slash-append t = rw (cons-append "/" "" t, nil-append t) refl

pub split_on-slash :
    (x t : String) → Without 47 x → split_on 47 (x <> ("/" <> t)) ≡ x ∷ split_on 47 t
split_on-slash x t h = rw (slash-append t) (split_on-field 47 x t "/" h refl)

pub split_on-join :
    (x : String) (xs : List String)
    → All (Without 47) (x ∷ xs)
    → split_on 47 (join "/" (x ∷ xs)) ≡ x ∷ xs
unfolding join
split_on-join x [] h = split_on-one 47 x h.0
split_on-join x (y ∷ xs) h =
    split_on-slash x (join "/" (y ∷ xs)) h.0 ∙ ap (λ r. x ∷ r) (split_on-join y xs h.1)

pub trim_prefix-slash : (t : String) → trim_prefix ("/" <> t) "/" ≡ t
unfolding trim_prefix prefixed after
trim_prefix-slash t = rw (slash-append t) refl

-- Two dots in a row stand nowhere in the text.
abbrev pub NoDots : String → Type 0
NoDots s = contains s ".." ≡ false

first : List String → String
first [] = ""
first (x ∷ xs) = x

prefixed-onto :
    (d : Char) (fields : List String)
    → prefixed (first (onto d fields)) "." ≡ (code d == 46 && true)
unfolding prefixed onto first
prefixed-onto d [] = refl
prefixed-onto d (x ∷ xs) = refl

prefixed-first : (s : String) → prefixed (first (split_on 47 s)) "." ≡ true → prefixed s "." ≡ true
unfolding prefixed split_on onto first
prefixed-first String.[] h = absurd (cc h)
prefixed-first (String.◌∷◌ d s) h = elim (Bool-cases (◌==◌ {K = ℕ} (code d) 47)) [
  | inl hit ↦ absurd (cc (rw hit at h))
  | inr miss ↦ sym (prefixed-onto d (split_on 47 s)) ∙ rw miss at h
]

onto-NoDots :
    (c : Char) (fields : List String)
    → (code c == 46 && prefixed (first fields) ".") ≡ false
    → All NoDots fields
    → All NoDots (onto c fields)
unfolding onto contains prefixed first
onto-NoDots c [] apart h = (ground arith, tt)
onto-NoDots c (x ∷ xs) apart h = (rw (apart, h.0) refl, h.1)

pub split_on-NoDots : (s : String) → NoDots s → All NoDots (split_on 47 s)
unfolding split_on contains prefixed
split_on-NoDots String.[] h = (refl, tt)
split_on-NoDots (String.◌∷◌ c s) h = elim (Bool-cases (◌==◌ {K = ℕ} (code c) 47)) [
  | inl hit ↦ rw hit (refl, split_on-NoDots s (ground (arith, h)))
  | inr miss ↦ rw miss (
      onto-NoDots c (split_on 47 s) (ground (arith, h, prefixed-first s))
        (split_on-NoDots s (ground (arith, h))))
]

-- A text begins with the element ".." only if that is among its elements.
pub prefixed-NoDots : (s : String) → All NoDots (split_on 47 s) → prefixed s "../" ≡ false
unfolding prefixed contains split_on onto
prefixed-NoDots String.[] h = refl
prefixed-NoDots (String.◌∷◌ c String.[]) h = ground arith
prefixed-NoDots (String.◌∷◌ c (String.◌∷◌ d String.[])) h = ground arith
prefixed-NoDots (String.◌∷◌ c (String.◌∷◌ d (String.◌∷◌ e t))) h =
    elim (Bool-cases (code e == 47)) [
      | inr other ↦ rw other (ground arith)
      | inl slash ↦ elim (Bool-cases (code d == 46)) [
        | inr other ↦ rw other (ground arith)
        | inl dot ↦ elim (Bool-cases (code c == 46)) [
          | inr other ↦ rw other refl
          | inl dot' ↦
              let c_miss : (code c == 47) ≡ false = ground arith in
              let d_miss : (code d == 47) ≡ false = ground arith in
              absurd (cc ((rw (c_miss, d_miss, slash) at h).0, dot, dot'))
        ]
      ]
    ]
