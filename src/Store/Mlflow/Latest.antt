-- ===== src/Store/Mlflow/Latest.antt =====
-- internal/store/mlflow.go: LatestMetrics, the newest point of each metric.
use databricks_emulator.Base.{
  ℕ, ◌+◌, ◌%◌, ◌^◌, ◌≡◌, refl, sym, ap, ◌∙◌, Bool, true, false, ◌&&◌, ◌||◌, Option, none, some,
  List, [], ◌∷◌, String, subst, All, Any, if◌then◌else◌, ltb, is_some, arith, Bool-cases,
  Option-cases, inl, inr, ◌⊎◌,
}
use databricks_emulator.Base.Eq.{◌==◌, string_comparable, nat_comparable}
use databricks_emulator.Dict
use databricks_emulator.Dict.{Dict}
use databricks_emulator.Store.Mlflow.{MlMetric}

-- `<` on int64, by their bit patterns.
unfoldable pub lt64 : ℕ → ℕ → Bool
lt64 a b = ltb ((a + 2 ^ 63) % 2 ^ 64) ((b + 2 ^ 63) % 2 ^ 64)

-- `==` on int64.
unfoldable pub same64 : ℕ → ℕ → Bool
same64 a b = a % 2 ^ 64 == b % 2 ^ 64

module _ {F : Type 0} (gt : F → F → Bool) where
  -- A later point, or one of the same time with a greater value.
  abbrev pub newer : MlMetric F → MlMetric F → Bool
  newer p q = lt64 q.timestamp p.timestamp || (same64 p.timestamp q.timestamp && gt p.value q.value)

  kept_best : Dict String (MlMetric F) → MlMetric F → Option (MlMetric F) → Dict String (MlMetric F)
  kept_best best p none = Dict.put best p.key p
  kept_best best p (some cur) = if newer p cur then Dict.put best p.key p else best

  -- The points that LatestMetrics answers, by their keys.
  unfoldable pub best_metrics :
      Dict String (MlMetric F) → List (MlMetric F) → Dict String (MlMetric F)
  unfolding kept_best
  best_metrics best [] = best
  best_metrics best (p ∷ points) = best_metrics (kept_best best p (Dict.get best p.key)) points

  -- No comparison of values goes both ways, and not being greater is transitive.
  pub record IsOrder : Type 0 where
    pub one_way : (x y : F) → gt x y ≡ true → gt y x ≡ false
    pub not_greater : (x y z : F) → gt x y ≡ false → gt y z ≡ false → gt x z ≡ false

  newer-one_way : IsOrder → (p q : MlMetric F) → newer p q ≡ true → newer q p ≡ false
  unfolding lt64 same64
  newer-one_way o p q h = ground (arith, o.one_way p.value q.value)

  newer-not_newer :
      IsOrder → (p q r : MlMetric F) → newer p q ≡ false → newer q r ≡ false → newer p r ≡ false
  unfolding lt64 same64
  newer-not_newer o p q r h g = ground (arith, o.not_greater p.value q.value r.value)

  -- What a round leaves at a key: the point that was there, or the new one, which is newer.
  abbrev Kept : Dict String (MlMetric F) → MlMetric F → String → MlMetric F → Type 0
  Kept best p k m =
      ((Dict.get best k ≡ some m) × (p.key ≡ k → newer p m ≡ false))
      ⊎ ((m ≡ p) × (p.key ≡ k) × ((q : MlMetric F) → Dict.get best k ≡ some q → newer p q ≡ true))

  apart :
      (p : MlMetric F) (k : String) (m : MlMetric F)
      → (p.key == k) ≡ false
      → p.key ≡ k
      → newer p m ≡ false
  apart p k m miss same = absurd (cc ((string_comparable.equal_iff p.key k).1 same, miss))

  kept_best-Kept :
      (best : Dict String (MlMetric F)) (p : MlMetric F) (cur : Option (MlMetric F)) (k : String)
      (m : MlMetric F)
      → Dict.get best p.key ≡ cur
      → Dict.get (kept_best best p cur) k ≡ some m
      → Kept best p k m
  unfolding kept_best
  kept_best-Kept best p none k m there at = elim (Bool-cases (p.key == k)) [
    | inr miss ↦ inl (ground (arith, at, Dict.get-put best p.key p k), apart p k m miss)
    | inl hit ↦
        let same : p.key ≡ k = (string_comparable.equal_iff p.key k).0 hit in
        inr (
          ground (arith, at, Dict.get-put best p.key p k),
          same,
          λ q old. absurd (cc (there, old, same)),
        )
  ]
  kept_best-Kept best p (some cur) k m there at = elim (Bool-cases (newer p cur)) [
    | inr stays ↦
        let kept : Dict.get best k ≡ some m = rw stays at at in
        inl (
          kept,
          λ same.
              let equal : cur ≡ m = ground (arith, there, kept, same) in
              ap (newer p) (sym equal) ∙ stays,
        )
    | inl wins ↦ elim (Bool-cases (p.key == k)) [
      | inr miss ↦
          inl (ground (arith, rw wins at at, Dict.get-put best p.key p k), apart p k m miss)
      | inl hit ↦
          let same : p.key ≡ k = (string_comparable.equal_iff p.key k).0 hit in
          inr (
            ground (arith, rw wins at at, Dict.get-put best p.key p k),
            same,
            λ q old.
                let equal : cur ≡ q = ground (arith, there, old, same) in
                ap (newer p) (sym equal) ∙ wins,
          )
    ]
  ]

  -- The point at each key is one of those seen, and none of them with the key is newer.
  abbrev Newest : Dict String (MlMetric F) → List (MlMetric F) → Type 0
  Newest best seen =
      (k : String) (m : MlMetric F)
      → Dict.get best k ≡ some m
      → (m.key ≡ k)
        × Any (λ q. q ≡ m) seen
        × All (λ (q : MlMetric F). q.key ≡ k → newer q m ≡ false) seen

  abbrev pub Covers : Dict String (MlMetric F) → List (MlMetric F) → Type 0
  Covers best seen = All (λ (q : MlMetric F). is_some (Dict.get best q.key) ≡ true) seen

  -- A point that is newer than the one at its key is not older than any that was seen.
  beaten :
      IsOrder
      → (best : Dict String (MlMetric F)) (seen : List (MlMetric F)) (p : MlMetric F) (k : String)
      → Covers best seen
      → ((old : MlMetric F)
          → Dict.get best k ≡ some old
          → All (λ (q : MlMetric F). q.key ≡ k → newer q old ≡ false) seen)
      → ((old : MlMetric F) → Dict.get best k ≡ some old → newer p old ≡ true)
      → All (λ (q : MlMetric F). q.key ≡ k → newer q p ≡ false) seen
  beaten o best [] p k covers least wins = tt
  beaten o best (q ∷ seen) p k covers least wins = (
    λ same. elim (Option-cases (Dict.get best k)) [
      | inl gone ↦ absurd (cc (covers.0, same, gone))
      | inr (old, there) ↦
          newer-not_newer o q old p ((least old there).0 same)
            (newer-one_way o p old (wins old there))
    ],
    beaten o best seen p k covers.1 (λ old there. (least old there).1) wins,
  )

  newer_self : IsOrder → (p : MlMetric F) → newer p p ≡ false
  newer_self o p = elim (Bool-cases (newer p p)) [
    | inl h ↦ absurd (cc (h, newer-one_way o p p h))
    | inr h ↦ h
  ]

  kept_best-Newest :
      IsOrder
      → (best : Dict String (MlMetric F)) (seen : List (MlMetric F)) (p : MlMetric F)
      → Newest best seen
      → Covers best seen
      → Newest (kept_best best p (Dict.get best p.key)) (p ∷ seen)
  kept_best-Newest o best seen p newest covers k m at =
      elim (kept_best-Kept best p (Dict.get best p.key) k m refl at) [
        | inl (there, bound) ↦
            let (own, among, least) = newest k m there in (own, inr among, (bound, least))
        | inr (same, own, wins) ↦
            let least = beaten o best seen p k covers (λ old there. (newest k old there).2) wins in
            subst
              (λ n.
                (n.key ≡ k)
                × ((p ≡ n) ⊎ Any (λ q. q ≡ n) seen)
                × ((p.key ≡ k → newer p n ≡ false)
                    × All (λ (q : MlMetric F). q.key ≡ k → newer q n ≡ false) seen))
              (sym same) (own, inl refl, (λ _. newer_self o p, least))
      ]

  kept_best-some :
      (best : Dict String (MlMetric F)) (p : MlMetric F) (cur : Option (MlMetric F)) (k : String)
      → is_some (Dict.get best k) ≡ true
      → is_some (Dict.get (kept_best best p cur) k) ≡ true
  unfolding kept_best
  kept_best-some best p none k h = ground (arith, h, Dict.get-put best p.key p k)
  kept_best-some best p (some cur) k h = elim (Bool-cases (newer p cur)) [
    | inl wins ↦ rw wins (ground (arith, h, Dict.get-put best p.key p k))
    | inr stays ↦ rw stays h
  ]

  kept_best-own :
      (best : Dict String (MlMetric F)) (p : MlMetric F) (cur : Option (MlMetric F))
      → Dict.get best p.key ≡ cur
      → is_some (Dict.get (kept_best best p cur) p.key) ≡ true
  unfolding kept_best
  kept_best-own best p none there = rw (Dict.get-put_same best p.key p) refl
  kept_best-own best p (some cur) there = elim (Bool-cases (newer p cur)) [
    | inl wins ↦ rw (wins, Dict.get-put_same best p.key p) refl
    | inr stays ↦ rw (stays, there) refl
  ]

  kept_best-Covers :
      (best : Dict String (MlMetric F)) (seen : List (MlMetric F)) (p : MlMetric F)
      (cur : Option (MlMetric F))
      → Covers best seen
      → Covers (kept_best best p cur) seen
  kept_best-Covers best [] p cur h = tt
  kept_best-Covers best (q ∷ seen) p cur h =
      (kept_best-some best p cur q.key h.0, kept_best-Covers best seen p cur h.1)

  -- The points, each put in front of those before it.
  abbrev onto : List (MlMetric F) → List (MlMetric F) → List (MlMetric F)
  onto [] seen = seen
  onto (p ∷ points) seen = onto points (p ∷ seen)

  best_metrics-Newest :
      IsOrder
      → (best : Dict String (MlMetric F)) (points seen : List (MlMetric F)) → Newest best seen
      → Covers best seen
      → Newest (best_metrics best points) (onto points seen)
        × Covers (best_metrics best points) (onto points seen)
  unfolding best_metrics
  best_metrics-Newest o best [] seen newest covers = (newest, covers)
  best_metrics-Newest o best (p ∷ points) seen newest covers =
      best_metrics-Newest o (kept_best best p (Dict.get best p.key)) points (p ∷ seen)
        (kept_best-Newest o best seen p newest covers)
        (
          kept_best-own best p (Dict.get best p.key) refl,
          kept_best-Covers best seen p (Dict.get best p.key) covers,
        )

  onto-Any :
      (m : MlMetric F) (points seen : List (MlMetric F))
      → Any (λ q. q ≡ m) (onto points seen)
      → Any (λ q. q ≡ m) points ⊎ Any (λ q. q ≡ m) seen
  onto-Any m [] seen h = inr h
  onto-Any m (p ∷ points) seen h = elim (onto-Any m points (p ∷ seen) h) [
    | inl later ↦ inl (inr later)
    | inr now ↦ elim now [ inl here ↦ inl (inl here) | inr before ↦ inr before ]
  ]

  onto-All :
      (P : MlMetric F → Type 0) (points seen : List (MlMetric F))
      → All P (onto points seen)
      → All P points × All P seen
  onto-All P [] seen h = (tt, h)
  onto-All P (p ∷ points) seen h =
      let (later, now) = onto-All P points (p ∷ seen) h in ((now.0, later), now.1)

  -- The one point is not later than the other, nor greater at the same time.
  abbrev pub AtMost : MlMetric F → MlMetric F → Type 0
  AtMost q m =
      (lt64 m.timestamp q.timestamp ≡ false)
      × (same64 q.timestamp m.timestamp ≡ true → gt q.value m.value ≡ false)

  -- The point at each key has the key and is one of those given, and none of them with the key is
  -- later than it, or greater at the same time.
  abbrev pub Latest : Dict String (MlMetric F) → List (MlMetric F) → Type 0
  Latest best points =
      (k : String) (m : MlMetric F)
      → Dict.get best k ≡ some m
      → (m.key ≡ k)
        × Any (λ q. q ≡ m) points
        × All (λ (q : MlMetric F). q.key ≡ k → AtMost q m) points

  newer-AtMost : (q m : MlMetric F) → newer q m ≡ false → AtMost q m
  newer-AtMost q m h = (ground (arith, h), λ same. ground (arith, h, same))

  All-AtMost :
      (k : String) (m : MlMetric F) (points : List (MlMetric F))
      → All (λ (q : MlMetric F). q.key ≡ k → newer q m ≡ false) points
      → All (λ (q : MlMetric F). q.key ≡ k → AtMost q m) points
  All-AtMost k m [] h = tt
  All-AtMost k m (q ∷ points) h = ((λ own. newer-AtMost q m (h.0 own)), All-AtMost k m points h.1)

  -- Where the values of metrics are ordered: LatestMetrics has a point at the key of each point that
  -- it is given; the point at a key is one of those given and has the key, and no other with the key
  -- is later, or has a greater value at the same time.
  pub best_metrics_lem :
      IsOrder
      → (points : List (MlMetric F))
      → Latest (best_metrics Dict.empty points) points
        × Covers (best_metrics Dict.empty points) points
  best_metrics_lem o points =
      let (newest, covers) =
        best_metrics-Newest o Dict.empty points []
          (λ k m at. let e = Dict.get-empty {V = MlMetric F} k in absurd (cc e)) tt in
      (
        λ k m at.
            let (own, among, least) = newest k m at in
            (
              own,
              elim (onto-Any m points [] among) [
                | inl given ↦ given
                | inr nowhere ↦ absurd nowhere
              ],
              All-AtMost k m points
                  (onto-All (λ (q : MlMetric F). q.key ≡ k → newer q m ≡ false) points [] least).0,
            ),
        (onto-All
            (λ (q : MlMetric F). is_some (Dict.get (best_metrics Dict.empty points) q.key) ≡ true)
            points [] covers).0,
      )
