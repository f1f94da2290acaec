-- ===== src/Text/Decimal.antt =====
-- `%d` writes different numbers differently, so ids that a counter numbers are distinct.
use Prim.Native.Char.{code}
use text.Mathlib.TextLemmas.{append_cancel_left, nil-append, cons-append}
use databricks_emulator.Base.{
  ℕ, zero, suc, ◌+◌, ◌*◌, ◌-◌, ◌/◌, ◌%◌, ◌^◌, ◌<◌, ◌<>◌, ltb, ◌≡◌, refl, sym, ap, ◌∙◌, String,
  Bool-cases, inl, inr, arith,
}
use databricks_emulator.Text.{digit, decimal, decimal_fuel, show_int64, numbered}

-- The number that a text of digits denotes, behind the digits of `n`.
read : String → ℕ → ℕ
read String.[] n = n
read (String.◌∷◌ c s) n = read s (n * 10 + (code c - 48))

read-append : (s t : String) (n : ℕ) → read (s <> t) n ≡ read t (read s n)
unfolding read
read-append String.[] t n = rw (nil-append t) refl
read-append (String.◌∷◌ c s) t n = rw (cons-append c s t) (read-append s t (n * 10 + (code c - 48)))

read-digit : (d n : ℕ) → d < 10 → read (digit d) n ≡ n * 10 + d
unfolding read digit
read-digit zero n h = refl
read-digit (suc zero) n h = refl
read-digit (suc (suc zero)) n h = refl
read-digit (suc (suc (suc zero))) n h = refl
read-digit (suc (suc (suc (suc zero)))) n h = refl
read-digit (suc (suc (suc (suc (suc zero))))) n h = refl
read-digit (suc (suc (suc (suc (suc (suc zero)))))) n h = refl
read-digit (suc (suc (suc (suc (suc (suc (suc zero))))))) n h = refl
read-digit (suc (suc (suc (suc (suc (suc (suc (suc zero)))))))) n h = refl
read-digit (suc (suc (suc (suc (suc (suc (suc (suc (suc d))))))))) n h = omega arith

read-decimal_fuel : (fuel n : ℕ) → n < fuel → read (decimal_fuel fuel n) 0 ≡ n
unfolding decimal_fuel
read-decimal_fuel zero n h = absurd (omega arith)
read-decimal_fuel (suc fuel) n h = elim (Bool-cases (ltb n 10)) [
  | inl small ↦ rw (small, read-digit n 0 (ground arith)) (omega arith)
  | inr large ↦
      let shorter : n / 10 < fuel = ground arith in
      rw
        (
          large,
          read-append (decimal_fuel fuel (n / 10)) (digit (n % 10)) 0,
          read-decimal_fuel fuel (n / 10) shorter,
          read-digit (n % 10) (n / 10) (omega arith),
        )
        (omega arith)
]

pub decimal_injective : (m n : ℕ) → decimal m ≡ decimal n → m ≡ n
unfolding decimal
decimal_injective m n h =
    sym (read-decimal_fuel (suc m) m (omega arith))
    ∙ (ap (λ s. read s 0) h ∙ read-decimal_fuel (suc n) n (omega arith))

show_positive : (n : ℕ) → n < 2 ^ 63 → show_int64 n ≡ decimal n
unfolding show_int64
show_positive n h = ground arith

pub numbered_injective :
    (prefix : String) (m n : ℕ)
    → m < 2 ^ 63
    → n < 2 ^ 63
    → numbered prefix m ≡ numbered prefix n
    → m ≡ n
unfolding numbered show_int64
numbered_injective prefix m n hm hn h =
    decimal_injective m n
      (rw (show_positive m hm, show_positive n hn) at (append_cancel_left prefix _ _ h))
