-- ===== src/Sqlshim/Managed.antt =====
-- internal/sqlshim/shim.go: what a managed table is registered with.
use Prim.Native.Char.{code}
use text.Mathlib.TextLemmas.{nil-append, cons-append}
use databricks_emulator.Base.{
  ℕ, ◌≡◌, ◌≢◌, refl, ap, Bool, true, false, ◌&&◌, Option, none, some, List, [], ◌∷◌, String, ◌<>◌,
  arith, Bool-cases, inl, inr, subst,
}
use databricks_emulator.Base.Eq.{◌==◌, nat_comparable, string_comparable}
use databricks_emulator.Text.{trim_space, trim_right_of}
use databricks_emulator.Text.Split.{Without}
use databricks_emulator.Sqlshim.Scan.{
  safe_segment, all_safe, is_safe_char, first_ident, split_ident, strip_literals,
}
use databricks_emulator.Sqlshim.{
  Patterns, ExternalTable, managed, named_table, rewrite_create_table, named_schema, rewrite_table,
  rewrite_schema, rewrite, engine_root, table_location, strip_leading_comments, default_root,
}

Without-append : (k : ℕ) (s t : String) → Without k s → Without k t → Without k (s <> t)
Without-append k String.[] t h g = rw (nil-append t) g
Without-append k (String.◌∷◌ c s) t (other, h) g =
    rw (cons-append c s t) (other, Without-append k s t h g)

and-both : (a b : Bool) → (a && b) ≡ true → (a ≡ true) × (b ≡ true)
and-both true true h = (refl, refl)
and-both true false h = absurd (cc h)
and-both false b h = absurd (cc h)

all_safe-Without : (k : ℕ) (s : String) → is_safe_char k ≡ false → all_safe s ≡ true → Without k s
unfolding all_safe
all_safe-Without k String.[] strange h = tt
all_safe-Without k (String.◌∷◌ c s) strange h =
    let (here, rest) = and-both (is_safe_char (code c)) (all_safe s) h in
    (
      elim (Bool-cases (◌==◌ {K = ℕ} (code c) k)) [
        | inl hit ↦
            let same = ap is_safe_char ((nat_comparable.equal_iff (code c) k).0 hit) in
            absurd (cc (same, here, strange))
        | inr miss ↦ miss
      ],
      all_safe-Without k s strange rest,
    )

trim_right_of-Without : (k j : ℕ) (s : String) → Without k s → Without k (trim_right_of j s)
unfolding trim_right_of
trim_right_of-Without k j String.[] h = tt
trim_right_of-Without k j (String.◌∷◌ c s) (other, h) =
    elim (Bool-cases (code c == j && ◌==◌ {K = String} (trim_right_of j s) "")) [
      | inl cut ↦ rw cut tt
      | inr kept ↦ rw kept (other, trim_right_of-Without k j s h)
    ]

-- One element of a path below the root, without the quote that ends a literal.
pub record IsSegment (s : String) : Type 0 where
  pub not_empty : s ≢ ""
  pub not_here : s ≢ "."
  pub not_up : s ≢ ".."
  pub no_slash : Without b'/' s
  pub no_quote : Without 39 s

safe_segment-IsSegment : (s : String) → safe_segment s ≡ true → IsSegment s
unfolding safe_segment
safe_segment-IsSegment s safe = record {
  not_empty = λ same. absurd (cc (rw same at safe));
  not_here = λ same. absurd (cc (rw same at safe));
  not_up = λ same. absurd (cc (rw same at safe));
  no_slash = all_safe-Without b'/' s refl (ground (arith, safe));
  no_quote = all_safe-Without 39 s refl (ground (arith, safe));
}

-- A table that may be registered, below the root.
abbrev IsManaged : String → ExternalTable → Type 0
IsManaged root t =
    IsSegment t.catalog
    × IsSegment t.schema
    × IsSegment t.name
    × (t.location ≡ table_location root t.catalog t.schema t.name)
    × Without 39 t.location

table_location-Without :
    (root catalog schema name : String)
    → Without 39 root
    → IsSegment catalog
    → IsSegment schema
    → IsSegment name
    → Without 39 (table_location root catalog schema name)
unfolding table_location
table_location-Without root catalog schema name h c s n =
    Without-append 39 root ("/" <> (catalog <> ("/" <> (schema <> ("/" <> name))))) h (
      Without-append 39 "/" (catalog <> ("/" <> (schema <> ("/" <> name)))) (refl, tt)
        (Without-append 39 catalog ("/" <> (schema <> ("/" <> name))) c.no_quote (
          Without-append 39 "/" (schema <> ("/" <> name)) (refl, tt)
            (Without-append 39 schema ("/" <> name) s.no_quote
              (Without-append 39 "/" name (refl, tt) n.no_quote)))))

table_of : {t u : ExternalTable} → some t ≡ some u → t ≡ u
table_of same = ground (arith, same)

named_table-IsManaged :
    (ps : Patterns) (original front rest root : String) (parts : List String) (t : ExternalTable)
    → Without 39 root
    → (named_table ps original front rest root parts).register ≡ some t
    → IsManaged root t
unfolding named_table managed
named_table-IsManaged ps original front rest root [] t quote h = absurd (cc h)
named_table-IsManaged ps original front rest root (a ∷ []) t quote h = absurd (cc h)
named_table-IsManaged ps original front rest root (a ∷ b ∷ []) t quote h = absurd (cc h)
named_table-IsManaged ps original front rest root (a ∷ b ∷ c ∷ more) t quote h =
    elim (Bool-cases (ps.equal_fold a "hive_metastore")) [
      | inl hive ↦ absurd (cc (rw hive at h))
      | inr ours ↦ elim (Bool-cases (safe_segment a && (safe_segment b && safe_segment c))) [
        | inr unsafe ↦ absurd (cc (rw (ours, unsafe) at h))
        | inl safe ↦
            let (first, others) =
              and-both (safe_segment a) (safe_segment b && safe_segment c) safe in
            let (second, third) = and-both (safe_segment b) (safe_segment c) others in
            let x = safe_segment-IsSegment a first in
            let y = safe_segment-IsSegment b second in
            let z = safe_segment-IsSegment c third in
            subst (IsManaged root) (table_of (rw (ours, safe) at h))
              (x, y, z, refl, table_location-Without root a b c quote x y z)
      ]
    ]

table-IsManaged :
    (ps : Patterns) (sql src root : String) (found : Option (String × String)) (t : ExternalTable)
    → Without 39 root
    → (rewrite_table ps sql src root found).register ≡ some t
    → IsManaged root t
unfolding rewrite_table rewrite_create_table
table-IsManaged ps sql src root none t quote h = absurd (cc h)
table-IsManaged ps sql src root (some (front, rest)) t quote h =
    elim (Bool-cases (ps.has_location src)) [
      | inl placed ↦ absurd (cc (rw placed at h))
      | inr free ↦
          named_table-IsManaged ps sql front (trim_space rest) root
            (split_ident (first_ident (trim_space rest))) t quote (rw free at h)
    ]

schema_registers_nothing :
    (ps : Patterns) (sql : String) (parts : List String)
    → (named_schema ps sql parts).register ≡ none
unfolding named_schema
schema_registers_nothing ps sql [] = refl
schema_registers_nothing ps sql (a ∷ []) = refl
schema_registers_nothing ps sql (a ∷ b ∷ []) = ground arith
schema_registers_nothing ps sql (a ∷ b ∷ c ∷ more) = refl

schema-IsManaged :
    (ps : Patterns) (sql src root : String) (found : Option (String × String)) (t : ExternalTable)
    → Without 39 root
    → (rewrite_schema ps sql src root found).register ≡ some t
    → IsManaged root t
unfolding rewrite_schema
schema-IsManaged ps sql src root none t quote h =
    table-IsManaged ps sql src root (ps.table_end src) t quote h
schema-IsManaged ps sql src root (some (front, rest)) t quote h =
    let nothing = schema_registers_nothing ps sql (split_ident (first_ident (trim_space rest))) in
    absurd (cc (nothing, h))

engine_root-Without : (root : String) → Without 39 root → Without 39 (engine_root root)
unfolding engine_root
engine_root-Without root quote = elim (Bool-cases (◌==◌ {K = String} root "")) [
  | inl empty ↦ rw empty (trim_right_of-Without 39 b'/' default_root (ground arith))
  | inr given ↦ rw given (trim_right_of-Without 39 b'/' root quote)
]

-- Where the root has no quote, each name of a table that a statement registers is one element of a
-- path, not "." or "..", without a slash or a quote; the location is the root and the three names,
-- and it has no quote, so it ends no literal of the statement.
pub rewrite_managed :
    (ps : Patterns) (sql root : String) (t : ExternalTable)
    → Without 39 root
    → (rewrite ps sql root).register ≡ some t
    → IsSegment t.catalog
      × IsSegment t.schema
      × IsSegment t.name
      × (t.location ≡ table_location (engine_root root) t.catalog t.schema t.name)
      × Without 39 t.location
unfolding rewrite
rewrite_managed ps sql root t quote h =
    elim (Bool-cases (ps.info_schema (strip_literals (strip_leading_comments ps sql)))) [
      | inl info ↦ absurd (cc (rw info at h))
      | inr other ↦ elim (Bool-cases (ps.temporary (strip_leading_comments ps sql))) [
        | inl temporary ↦ absurd (cc (rw (other, temporary) at h))
        | inr lasting ↦
            schema-IsManaged ps sql (strip_leading_comments ps sql) (engine_root root)
              (ps.schema_end (strip_leading_comments ps sql)) t (engine_root-Without root quote)
              (rw (other, lasting) at h)
      ]
    ]
