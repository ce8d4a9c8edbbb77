-- ===== src/Shared/Results.antt =====
-- The result of an operation that can fail.
pub data Result {ℓ} (E A : Type ℓ) : Type ℓ where
  ok : A → Result E A
  err : E → Result E A
