-- ===== src/Store/Numbered.antt =====
-- internal/store: stores that number their objects by one counter, under ids such as "cmd-7".
use Prim.Native.String.{count}
use text.Mathlib.TextLemmas.{length-append}
use databricks_emulator.Base.{
  ◌≢◌, ap, ℕ, ◌+◌, ◌^◌, ◌≤◌, ◌<◌, ◌≡◌, sym, Bool, none, some, String, arith, Bool-cases,
  Option-cases, inl, inr,
}
use databricks_emulator.Base.Eq.{◌==◌, string_comparable}
use databricks_emulator.Text.{numbered, show_int64}
use databricks_emulator.Text.Decimal.{numbered_injective}
use databricks_emulator.Dict
use databricks_emulator.Dict.{Dict}

pub numbered-ne-nil : (prefix : String) (n : ℕ) → 0 < count prefix → numbered prefix n ≢ ""
unfolding numbered
numbered-ne-nil prefix n some_text h =
    let none_left : count (numbered prefix n) ≡ 0 = ap count h in
    absurd (omega (arith, length-append prefix (show_int64 n)))

module _ {V : Type 0} (prefix : String) where
  -- Each object stands under an id that a counter handed out, up to its value `bound`.
  abbrev pub IsNumbered : ℕ → Dict String V → Type 0
  IsNumbered bound d =
      (k : String) (v : V)
      → Dict.get d k ≡ some v
      → (n : ℕ) × (0 < n) × (n ≤ bound) × (k ≡ numbered prefix n)

  pub empty-IsNumbered : IsNumbered 0 Dict.empty
  empty-IsNumbered k v at = let e = Dict.get-empty {V = V} k in absurd (cc e)

  pub IsNumbered-fresh :
      (bound : ℕ) (d : Dict String V)
      → IsNumbered bound d
      → bound + 1 < 2 ^ 63
      → Dict.get d (numbered prefix (bound + 1)) ≡ none
  IsNumbered-fresh bound d h room = elim (Option-cases (Dict.get d (numbered prefix (bound + 1)))) [
    | inl e ↦ e
    | inr (v, e) ↦
        let (n, above, le, same) = h (numbered prefix (bound + 1)) v e in
        let equal : bound + 1 ≡ n =
          numbered_injective prefix (bound + 1) n room (omega arith) same in
        absurd (omega arith)
  ]

  pub put_next-IsNumbered :
      (bound : ℕ) (d : Dict String V) (v : V)
      → IsNumbered bound d
      → IsNumbered (bound + 1) (Dict.put d (numbered prefix (bound + 1)) v)
  put_next-IsNumbered bound d v h k w at = elim (Bool-cases (numbered prefix (bound + 1) == k)) [
    | inl hit ↦ (
      bound + 1,
      omega arith,
      omega arith,
      sym ((string_comparable.equal_iff (numbered prefix (bound + 1)) k).0 hit),
    )
    | inr miss ↦
        let (n, above, le, same) =
          h k w (ground (arith, Dict.get-put d (numbered prefix (bound + 1)) v k)) in
        (n, above, omega arith, same)
  ]

  pub put_old-IsNumbered :
      (bound : ℕ) (d : Dict String V) (k : String) (v w : V)
      → IsNumbered bound d
      → Dict.get d k ≡ some v
      → IsNumbered bound (Dict.put d k w)
  put_old-IsNumbered bound d k v w h old j u at = elim (Bool-cases (k == j)) [
    | inl hit ↦ h j v (ground (arith, string_comparable.equal_iff k j))
    | inr miss ↦ h j u (ground (arith, Dict.get-put d k w j))
  ]

  pub remove-IsNumbered :
      (bound : ℕ) (d : Dict String V) (k : String)
      → IsNumbered bound d
      → IsNumbered bound (Dict.remove d k)
  remove-IsNumbered bound d k h j u at = h j u (ground (arith, Dict.get-remove d k j))

  pub retain-IsNumbered :
      (bound : ℕ) (d : Dict String V) (p : String → V → Bool)
      → IsNumbered bound d
      → IsNumbered bound (Dict.retain p d)
  retain-IsNumbered bound d p h j u at = elim (Option-cases (Dict.get d j)) [
    | inl e ↦ absurd (ground (arith, Dict.get-retain p d j))
    | inr (v, e) ↦ h j v e
  ]

  -- The counter moves on for an object of another kind.
  pub next-IsNumbered :
      (bound : ℕ) (d : Dict String V) → IsNumbered bound d → IsNumbered (bound + 1) d
  next-IsNumbered bound d h k v at =
      let (n, above, le, same) = h k v at in (n, above, omega arith, same)
