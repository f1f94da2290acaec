-- ===== src/Store/Path/Spec.antt =====
-- internal/store/path.go: what CleanRel answers.
use Prim.Native.Char.{code}
use databricks_emulator.Base.{
  ℕ, ◌≡◌, ◌≢◌, ◌⊎◌, refl, sym, ap, ◌∙◌, Bool, true, false, ◌||◌, not, List, [], ◌∷◌, ◌++◌, String,
  ◌<>◌, if◌then◌else◌, any, subst, keep, keep-All, append_nil, append_assoc, All, All-keep, arith,
  Bool-cases, inl, inr,
}
use databricks_emulator.Base.Eq.{◌==◌, nat_comparable, string_comparable}
use databricks_emulator.Base.Result.{ok, err}
use databricks_emulator.Text.Split.{
  onto, split_on, join, prefixed, contains, trim_prefix, after, Without, split_on-Without,
  split_on-join, slash-append, trim_prefix-slash, NoDots, split_on-NoDots, prefixed-NoDots,
}
use databricks_emulator.Store.Path.{traversal, next, elements, clean, escapes, slashed, clean_rel}

-- The elements that stay.
unfoldable pub stays : String → Bool
stays x = not (x == "" || x == ".")

NoDots-ne : (x : String) → NoDots x → x ≢ ".."
unfolding contains prefixed
NoDots-ne x h same = absurd (cc (rw same at h))

ne-eq : (x y : String) → x ≢ y → (x == y) ≡ false
ne-eq x y other = ground (arith, string_comparable.equal_iff x y, other)

any-NoDots : (xs : List String) → All NoDots xs → any (λ seg. seg == "..") xs ≡ false
unfolding any
any-NoDots [] h = refl
any-NoDots (x ∷ xs) h = rw (ne-eq x ".." (NoDots-ne x h.0), any-NoDots xs h.1) refl

elements-keep :
    (before xs : List String) → All NoDots xs → elements before xs ≡ before ++ keep stays xs
unfolding elements next keep stays
elements-keep before [] h = sym (append_nil before)
elements-keep before (x ∷ xs) h = elim (Bool-cases (x == "" || x == ".")) [
  | inl dropped ↦ rw (dropped, elements-keep before xs h.1) refl
  | inr kept ↦
      let plain : (x == "..") ≡ false =
        ground (arith, string_comparable.equal_iff x "..", NoDots-ne x h.0) in
      rw (kept, plain, elements-keep (before ++ x ∷ []) xs h.1)
        (append_assoc before (x ∷ []) (keep stays xs))
]

trim_prefix-NoDots : (s : String) → NoDots s → NoDots (trim_prefix s "/")
unfolding trim_prefix contains prefixed after
trim_prefix-NoDots String.[] h = refl
trim_prefix-NoDots (String.◌∷◌ c s) h = ground (arith, h)

keep-trim_prefix :
    (s : String) → keep stays (split_on 47 (trim_prefix s "/")) ≡ keep stays (split_on 47 s)
unfolding trim_prefix prefixed after split_on keep stays
keep-trim_prefix String.[] = refl
keep-trim_prefix (String.◌∷◌ c s) = elim (Bool-cases (◌==◌ {K = ℕ} (code c) 47)) [
  | inl hit ↦
      let cut : trim_prefix (String.◌∷◌ c s) "/" ≡ s = rw hit refl in
      ap (λ t. keep stays (split_on 47 t)) cut ∙ rw hit refl
  | inr miss ↦
      let whole : trim_prefix (String.◌∷◌ c s) "/" ≡ String.◌∷◌ c s = rw miss refl in
      ap (λ t. keep stays (split_on 47 t)) whole
]

clean-join :
    (s : String) → NoDots s → clean ("/" <> s) ≡ "/" <> join "/" (keep stays (split_on 47 s))
unfolding clean split_on keep stays elements contains prefixed
clean-join s h = rw (slash-append s) (
    ap (λ xs. "/" <> join "/" xs)
      (elements-keep [] ("" ∷ split_on 47 s) (refl, split_on-NoDots s h)))

escapes-join :
    (xs : List String) → All NoDots xs → All (Without 47) xs → escapes (join "/" xs) ≡ false
unfolding escapes any split_on onto prefixed join
escapes-join [] dots h = refl
escapes-join (x ∷ xs) dots h =
    let fields = split_on-join x xs h in
    rw
      (
        ne-eq (join "/" (x ∷ xs)) ".."
            (λ same. NoDots-ne x dots.0 (ground (arith, sym fields ∙ ap (split_on 47) same))),
        prefixed-NoDots (join "/" (x ∷ xs)) (subst (All NoDots) (sym fields) dots),
        fields,
        any-NoDots (x ∷ xs) dots,
      )
      refl

kept-Without : (s : String) → All (Without 47) (keep stays (split_on 47 s))
kept-Without s = All-keep (Without 47) stays (split_on 47 s) (split_on-Without 47 s)

kept-NoDots : (s : String) → NoDots s → All NoDots (keep stays (split_on 47 s))
kept-NoDots s h = All-keep NoDots stays (split_on 47 s) (split_on-NoDots s h)

-- The elements that stay, joined.
abbrev pub joined : String → String
joined s = join "/" (keep stays (split_on 47 s))

-- The rest of a path without two dots in a row, behind the slash that roots it.
rooted-join : (s : String) → NoDots s → trim_prefix (clean ("/" <> s)) "/" ≡ joined s
rooted-join s h = ap (λ t. trim_prefix t "/") (clean-join s h) ∙ trim_prefix-slash (joined s)

joined-nil : (s : String) → s ≡ "" → "" ≡ joined s
unfolding split_on keep stays join
joined-nil s same = ap joined (sym same)

joined-root : (s : String) → NoDots s → clean ("/" <> s) ≡ "/" → "" ≡ joined s
unfolding trim_prefix prefixed after
joined-root s h root = sym (ap (λ t. trim_prefix t "/") root) ∙ rooted-join s h

-- CleanRel refuses a path in which two dots stand in a row, and answers every other with its
-- elements, without the empty ones and those that are ".", joined with slashes: the checks behind
-- path.Clean refuse nothing.
pub clean_rel_lem :
    (p : String)
    → clean_rel p ≡ (if contains (slashed p) ".." then err traversal else ok (joined (slashed p)))
unfolding clean_rel
clean_rel_lem p = elim (Bool-cases (contains (slashed p) "..")) [
  | inl found ↦ rw found refl
  | inr dots ↦
      let rooted = trim_prefix (slashed p) "/" in
      let clear = trim_prefix-NoDots (slashed p) dots in
      let whole : ok (joined rooted) ≡ ok (joined (slashed p)) =
        ap (λ xs. ok (join "/" xs)) (keep-trim_prefix (slashed p)) in
      rw dots (elim (Bool-cases (◌==◌ {K = String} rooted "")) [
        | inl empty ↦
            rw empty
              (ap ok (joined-nil rooted ((string_comparable.equal_iff rooted "").0 empty)) ∙ whole)
        | inr given ↦ elim (Bool-cases (◌==◌ {K = String} (clean ("/" <> rooted)) "/")) [
          | inl root ↦
              rw (given, root)
                (ap ok (
                    joined-root rooted clear
                      ((string_comparable.equal_iff (clean ("/" <> rooted)) "/").0 root))
                  ∙ whole)
          | inr below ↦
              rw
                (
                  given,
                  below,
                  rooted-join rooted clear,
                  escapes-join (keep stays (split_on 47 rooted)) (kept-NoDots rooted clear)
                      (kept-Without rooted),
                )
                whole
        ]
      ])
]

-- An element that is neither empty nor "." nor "..".
abbrev pub Plain : String → Type 0
Plain x = (x ≢ "") × (x ≢ ".") × (x ≢ "..")

stays-Plain : (x : String) → NoDots x → stays x ≡ true → Plain x
unfolding stays
stays-Plain x dots kept =
    (λ same. absurd (cc (rw same at kept)), λ same. absurd (cc (rw same at kept)), NoDots-ne x dots)

kept-Plain : (xs : List String) → All NoDots xs → All (λ x. stays x ≡ true) xs → All Plain xs
kept-Plain [] dots kept = tt
kept-Plain (x ∷ xs) dots kept = (stays-Plain x dots.0 kept.0, kept-Plain xs dots.1 kept.1)

joined-Plain :
    (xs : List String)
    → All Plain xs
    → All (Without 47) xs
    → (join "/" xs ≡ "") ⊎ All Plain (split_on 47 (join "/" xs))
unfolding join
joined-Plain [] plain fields = inl refl
joined-Plain (x ∷ xs) plain fields = inr (subst (All Plain) (sym (split_on-join x xs fields)) plain)

-- A path that CleanRel answers is the root, or none of its elements is empty, "." or "..": it
-- stays below the root, and does not begin or end with a slash.
pub clean_rel-Plain :
    (p rel : String) → clean_rel p ≡ ok rel → (rel ≡ "") ⊎ All Plain (split_on 47 rel)
clean_rel-Plain p rel answered = elim (Bool-cases (contains (slashed p) "..")) [
  | inl found ↦ absurd (cc (rw found at (sym (clean_rel_lem p) ∙ answered)))
  | inr dots ↦
      let same : joined (slashed p) ≡ rel =
        ground (arith, rw dots at (sym (clean_rel_lem p) ∙ answered)) in
      subst (λ r. (r ≡ "") ⊎ All Plain (split_on 47 r)) same
        (joined-Plain (keep stays (split_on 47 (slashed p)))
          (kept-Plain (keep stays (split_on 47 (slashed p))) (kept-NoDots (slashed p) dots)
            (keep-All stays (split_on 47 (slashed p))))
          (kept-Without (slashed p)))
]
