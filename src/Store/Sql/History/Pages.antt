-- ===== src/Store/Sql/History/Pages.antt =====
-- internal/store/sql.go: a client that follows the pages of the history.
use databricks_emulator.Base.{
  ℕ, zero, suc, ◌+◌, ◌^◌, ◌≤◌, ◌<◌, ◌≡◌, refl, sym, ap, Bool, true, Option, none, some, List, [],
  ◌∷◌, ◌++◌, String, if◌then◌else◌, ltb, length, take, drop, arith, Bool-cases, inl, inr,
}
use databricks_emulator.Base.Eq.{nat_comparable}
use databricks_emulator.Base.Int64.{pos}
use databricks_emulator.Store.Sql.History.{
  QueryHistory, HistoryFilter, Page, clamp_offset, clamp_limit, page_at, matching, list_history,
}

module _ {A : Type 0} where
  take-drop : (n : ℕ) (xs : List A) → take n xs ++ drop n xs ≡ xs
  take-drop zero xs = refl
  take-drop (suc n) [] = refl
  take-drop (suc n) (x ∷ xs) = ap (λ r. x ∷ r) (take-drop n xs)

  drop-nil : (n : ℕ) → drop {A = A} n [] ≡ []
  drop-nil zero = refl
  drop-nil (suc n) = refl

  drop-drop : (m n : ℕ) (xs : List A) → drop n (drop m xs) ≡ drop (m + n) xs
  drop-drop zero n xs = let e : 0 + n ≡ n = omega arith in rw e refl
  drop-drop (suc m) n [] = let e : suc m + n ≡ suc (m + n) = omega arith in rw e (drop-nil n)
  drop-drop (suc m) n (x ∷ xs) =
      let e : suc m + n ≡ suc (m + n) = omega arith in rw e (drop-drop m n xs)

-- The items behind those of a page.
abbrev pub prepend : List QueryHistory → Option (List QueryHistory) → Option (List QueryHistory)
prepend items none = none
prepend items (some rest) = some (items ++ rest)

module _ (equal_fold : String → String → Bool) (history : List QueryHistory)
    (f : HistoryFilter) where
  -- What a client makes of an answer, where `next` is what it collects from an offset on.
  abbrev pub follow : (ℕ → Option (List QueryHistory)) → Option Page → Option (List QueryHistory)
  follow next none = none
  follow next (some p) = if p.has_next then prepend p.items (next p.next_offset) else some p.items

  -- What a client collects that starts at an offset and asks for the next page as long as the
  -- answer names one, in at most `fuel` requests.
  unfoldable pub walk : ℕ → ℕ → ℕ → Option (List QueryHistory)
  walk zero limit offset = none
  walk (suc fuel) limit offset =
      follow (walk fuel limit) (list_history equal_fold history f (pos offset) (pos limit))

  list_history_inside :
      (offset limit : ℕ)
      → 0 < limit
      → offset ≤ length (matching equal_fold history f)
      → list_history equal_fold history f (pos offset) (pos limit)
        ≡ page_at (matching equal_fold history f) offset limit
  unfolding list_history clamp_offset clamp_limit
  list_history_inside offset limit positive inside = ground arith

  walk_rest :
      (fuel limit offset : ℕ)
      → 0 < limit
      → length (matching equal_fold history f) + limit < 2 ^ 63
      → offset ≤ length (matching equal_fold history f)
      → length (matching equal_fold history f) < offset + fuel
      → walk fuel limit offset ≡ some (drop offset (matching equal_fold history f))
  unfolding walk page_at
  walk_rest zero limit offset positive room inside enough = absurd (omega arith)
  walk_rest (suc fuel) limit offset positive room inside enough =
      let matched = matching equal_fold history f in
      let fits : ltb (offset + limit) (2 ^ 63) ≡ true = ground arith in
      elim (Bool-cases (ltb (offset + limit) (length matched))) [
        | inl more ↦
            let behind : offset + limit ≤ length matched = ground arith in
            rw
              (
                walk,
                list_history_inside offset limit positive inside,
                page_at,
                fits,
                more,
                walk_rest fuel limit (offset + limit) positive room behind (omega arith),
                sym (drop-drop offset limit matched),
                take-drop limit (drop offset matched),
              )
              refl
        | inr last ↦
            rw (walk, list_history_inside offset limit positive inside, page_at, fits, last) refl
      ]

  -- A client that follows the pages from the start collects exactly the matching entries, in
  -- order and each once, with one request more than there are entries; no request panics. The
  -- limit is positive, and the number of entries and the limit together fit an int.
  pub walk-matching :
      (limit : ℕ)
      → 0 < limit
      → length (matching equal_fold history f) + limit < 2 ^ 63
      → walk (length (matching equal_fold history f) + 1) limit 0
        ≡ some (matching equal_fold history f)
  walk-matching limit positive room =
      walk_rest (length (matching equal_fold history f) + 1) limit 0 positive room (omega arith)
        (omega arith)
