-- ===== src/Base/Result.antt =====
-- Go's `(value, error)` with the error's text, and errors told apart by name.
pub data Result {ℓ κ} (E : Type ℓ) (A : Type κ) : Type (ℓ ⊔ κ) where
  ok : A → Result E A
  err : E → Result E A
