-- ===== src/Common/Float.antt =====
-- `float`: the kernel has no floating point, so the type and its operations are parameters, and
-- what the code relies on of IEEE arithmetic is stated as laws.
use Prim.Native.Nat.{ℕ, ◌+◌, ◌-◌, ◌^◌, ◌≤◌, ◌<◌}
use mathlib.Core.Path.{◌≡◌}
use mathlib.Core.Bool.{Bool, false}

pub record FloatOps : Type 1 where
  pub F : Type 0
  -- the conversion of an unsigned integer
  pub of_ℕ : ℕ → F
  pub add : F → F → F
  pub sub : F → F → F
  pub mul : F → F → F
  pub div : F → F → F
  -- `a < b`, which is false if one of them is NaN
  pub lt : F → F → Bool
  -- `(uint32_t)x`
  pub to_u32 : F → ℕ

-- Single precision: 24 bits of integers are exact, and rounding is monotone. `IsNumber` is "not NaN".
pub record IsIeee (float : FloatOps) : Type 1 where
  pub IsNumber : float.F → Type 0
  pub sub_exact :
      (a b : ℕ) → b ≤ a → a < 2 ^ 24 → float.sub (float.of_ℕ a) (float.of_ℕ b) ≡ float.of_ℕ (a - b)
  pub lt_exact : (a b : ℕ) → b ≤ a → a < 2 ^ 24 → float.lt (float.of_ℕ a) (float.of_ℕ b) ≡ false
  -- a factor between 0 and 1
  pub mul_number :
      (n : ℕ) (s : float.F)
      → n < 2 ^ 24
      → IsNumber s
      → float.lt s (float.of_ℕ 0) ≡ false
      → float.lt (float.of_ℕ 1) s ≡ false
      → IsNumber (float.mul (float.of_ℕ n) s)
        × (float.lt (float.mul (float.of_ℕ n) s) (float.of_ℕ 0) ≡ false)
        × (float.lt (float.of_ℕ n) (float.mul (float.of_ℕ n) s) ≡ false)
  pub mul_zero : (n : ℕ) → n < 2 ^ 24 → float.mul (float.of_ℕ n) (float.of_ℕ 0) ≡ float.of_ℕ 0
  pub mul_one : (n : ℕ) → n < 2 ^ 24 → float.mul (float.of_ℕ n) (float.of_ℕ 1) ≡ float.of_ℕ n
  pub add_exact :
      (a b : ℕ) → a + b < 2 ^ 24 → float.add (float.of_ℕ a) (float.of_ℕ b) ≡ float.of_ℕ (a + b)
  pub add_monotone :
      (x : float.F) (n c : ℕ)
      → n + c < 2 ^ 24
      → IsNumber x
      → float.lt x (float.of_ℕ 0) ≡ false
      → float.lt (float.of_ℕ n) x ≡ false
      → IsNumber (float.add x (float.of_ℕ c))
        × (float.lt (float.add x (float.of_ℕ c)) (float.of_ℕ c) ≡ false)
        × (float.lt (float.of_ℕ (n + c)) (float.add x (float.of_ℕ c)) ≡ false)
  pub truncate :
      (x : float.F) (a b : ℕ)
      → b < 2 ^ 24
      → IsNumber x
      → float.lt x (float.of_ℕ a) ≡ false
      → float.lt (float.of_ℕ b) x ≡ false
      → (a ≤ float.to_u32 x) × (float.to_u32 x ≤ b)
  pub truncate_exact : (n : ℕ) → n < 2 ^ 24 → float.to_u32 (float.of_ℕ n) ≡ n
