-- ===== src/Store/Identity/Tokens.antt =====
-- internal/store/identity.go: which presented values are tokens.
use databricks_emulator.Base.{
  ℕ, ◌≡◌, ◌⊎◌, refl, sym, ap, ◌∙◌, Bool, true, false, Option, none, some, List, [], ◌∷◌, ◌++◌,
  String, if◌then◌else◌, Any, All, arith, Bool-cases, Option-cases, inl, inr, is_some, Any-imp,
  subst, ◌≢◌,
}
use databricks_emulator.Base.Eq.{◌==◌, string_comparable}
use databricks_emulator.Base.Int64.{ℤ}
use databricks_emulator.Store.Identity.{
  Identity, Token, last_match, lookup_pat, has_hash, create_pat, pat_info, delete_pat, pat_deleted,
  without_first, in_front,
}

module _ {A : Type 0} (passes : A → Bool) where
  last_match-append :
      (found : Option A) (xs : List A) (y : A)
      → last_match passes found (xs ++ y ∷ [])
        ≡ (if passes y then some y else last_match passes found xs)
  unfolding last_match
  last_match-append found [] y = refl
  last_match-append found (x ∷ xs) y = last_match-append (if passes x then some x else found) xs y

  last_match-found :
      (found : Option A) (xs : List A) (y : A)
      → last_match passes found xs ≡ some y
      → (found ≡ some y) ⊎ ((passes y ≡ true) × Any (λ x. x ≡ y) xs)
  unfolding last_match
  last_match-found found [] y h = inl h
  last_match-found found (x ∷ xs) y h = elim (Bool-cases (passes x)) [
    | inl hit ↦ elim (last_match-found (some x) xs y (rw (last_match, hit) at h)) [
      | inl same ↦ let this : x ≡ y = ground arith in inr (ap passes (sym this) ∙ hit, inl this)
      | inr (passed, later) ↦ inr (passed, inr later)
    ]
    | inr miss ↦ elim (last_match-found found xs y (rw (last_match, miss) at h)) [
      | inl same ↦ inl same
      | inr (passed, later) ↦ inr (passed, inr later)
    ]
  ]

  last_match-some :
      (found : Option A) (xs : List A)
      → ((is_some found ≡ true) ⊎ Any (λ x. passes x ≡ true) xs)
      → is_some (last_match passes found xs) ≡ true
  unfolding last_match
  last_match-some found [] (inl h) = h
  last_match-some found [] (inr h) = absurd h
  last_match-some found (x ∷ xs) h = elim (Bool-cases (passes x)) [
    | inl hit ↦ rw hit (last_match-some (some x) xs (inl refl))
    | inr miss ↦ rw miss (
        last_match-some found xs (elim h [
          | inl f ↦ inl f
          | inr (inl p) ↦ absurd (cc (p, miss))
          | inr (inr later) ↦ inr later
        ]))
  ]

module _ (hash_secret : String → String) where
  -- A value is accepted exactly if some stored token has its hash, and the row that is answered is
  -- one of those.
  pub lookup_pat_lem :
      (i : Identity) (value : String)
      → ((tok : Token)
          → lookup_pat hash_secret i value ≡ some tok
          → (tok.hash ≡ hash_secret value) × Any (λ t. t ≡ tok) i.tokens)
        × (Any (λ t. t.hash ≡ hash_secret value) i.tokens
            → is_some (lookup_pat hash_secret i value) ≡ true)
  unfolding lookup_pat
  lookup_pat_lem i value = (
    λ tok h.
        elim (last_match-found (has_hash hash_secret (hash_secret value)) none i.tokens tok h) [
          | inl no_row ↦ absurd (cc no_row)
          | inr (same, row) ↦
              ((string_comparable.equal_iff tok.hash (hash_secret value)).0 same, row)
        ],
    λ row. last_match-some (has_hash hash_secret (hash_secret value)) none i.tokens (
        inr (
          Any-imp (λ t. t.hash ≡ hash_secret value)
            (λ t. has_hash hash_secret (hash_secret value) t ≡ true)
            (λ t same. (string_comparable.equal_iff t.hash (hash_secret value)).1 same) i.tokens
            row)),
  )

  -- A new token is accepted under the value that is answered, and any other value is accepted as
  -- before, unless it has the same hash.
  pub lookup_pat-create_pat :
      (hex : List ℕ → String) (i : Identity) (raw : List ℕ) (user comment : String) (now : ℤ)
      (value : String)
      → lookup_pat hash_secret (create_pat hash_secret hex i raw user comment now).0 value ≡ (
          if hash_secret (create_pat hash_secret hex i raw user comment now).1 == hash_secret value
          then some (create_pat hash_secret hex i raw user comment now).2
          else lookup_pat hash_secret i value)
  unfolding lookup_pat create_pat
  lookup_pat-create_pat hex i raw user comment now value =
      last_match-append (has_hash hash_secret (hash_secret value)) none i.tokens
        (pat_info hash_secret hex raw user comment now)

-- The rows that keep their place when the first row of an id goes.
pub data Removed (token_id : String) : List Token → List Token → Type 0 where
  here : (tok : Token) (rest : List Token) → tok.id ≡ token_id → Removed token_id (tok ∷ rest) rest
  behind :
      (tok : Token) (rows rest : List Token)
      → tok.id ≢ token_id
      → Removed token_id rows rest
      → Removed token_id (tok ∷ rows) (tok ∷ rest)

without_first-Removed :
    (token_id : String) (rows rest : List Token)
    → without_first token_id rows ≡ some rest
    → Removed token_id rows rest
unfolding without_first in_front
without_first-Removed token_id [] rest h = absurd (cc h)
without_first-Removed token_id (tok ∷ rows) rest h = elim (Bool-cases (tok.id == token_id)) [
  | inl hit ↦
      let same : rows ≡ rest = ground (arith, rw (without_first, hit) at h) in
      subst (Removed token_id (tok ∷ rows)) same
        (here tok rows ((string_comparable.equal_iff tok.id token_id).0 hit))
  | inr miss ↦ elim (Option-cases (without_first token_id rows)) [
    | inl e ↦ absurd (cc (rw (without_first, miss, e, in_front) at h))
    | inr (later, e) ↦
        let same : tok ∷ later ≡ rest =
          ground (arith, rw (without_first, miss, e, in_front) at h) in
        subst (Removed token_id (tok ∷ rows)) same (
          behind tok rows later
            (λ is. absurd (cc ((string_comparable.equal_iff tok.id token_id).1 is, miss)))
            (without_first-Removed token_id rows later e))
  ]
]

without_first-none :
    (token_id : String) (rows : List Token)
    → without_first token_id rows ≡ none
    → All (λ t. t.id ≢ token_id) rows
unfolding without_first in_front
without_first-none token_id [] h = tt
without_first-none token_id (tok ∷ rows) h = elim (Bool-cases (tok.id == token_id)) [
  | inl hit ↦ absurd (cc (rw (without_first, hit) at h))
  | inr miss ↦ elim (Option-cases (without_first token_id rows)) [
    | inl e ↦ (
      λ is. absurd (cc ((string_comparable.equal_iff tok.id token_id).1 is, miss)),
      without_first-none token_id rows e,
    )
    | inr (later, e) ↦ absurd (cc (rw (without_first, miss, e, in_front) at h))
  ]
]

-- Deleting answers true and takes out the first row of the id, the others keeping their order, or
-- answers false, where no row has the id, and changes nothing.
pub delete_pat_lem :
    (i : Identity) (token_id : String)
    → (((delete_pat i token_id).1 ≡ true)
        × Removed token_id i.tokens (delete_pat i token_id).0.tokens)
      ⊎ (((delete_pat i token_id).1 ≡ false)
          × All (λ t. t.id ≢ token_id) i.tokens
          × ((delete_pat i token_id).0 ≡ i))
unfolding delete_pat
delete_pat_lem i token_id = elim (Option-cases (without_first token_id i.tokens)) [
  | inl e ↦ rw (e, pat_deleted) (inr (refl, without_first-none token_id i.tokens e, refl))
  | inr (rest, e) ↦ rw (e, pat_deleted) (inl (refl, without_first-Removed token_id i.tokens rest e))
]
