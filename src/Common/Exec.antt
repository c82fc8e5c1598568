-- ===== src/Common/Exec.antt =====
-- C functions that return early with an error code: what was done before the return stays done, so
-- the state comes back beside the error too.
use mathlib.Core.Path.{◌≡◌}
use native.Mathlib.Omega.{arith}

pub data Result {ℓ} (E A : Type ℓ) : Type ℓ where
  ok : A → Result E A
  err : E → Result E A

abbrev pub Exec {ℓ} : Type ℓ → Type ℓ → Type ℓ → Type ℓ
Exec S E A = S → Result E A × S

module _ {ℓ} {S E A : Type ℓ} where
  unfoldable pub pure : A → Exec S E A
  pure a s = (ok a, s)

  unfoldable pub raise : E → Exec S E A
  raise e s = (err e, s)

  unfoldable pub gets : (S → A) → Exec S E A
  gets f s = (ok (f s), s)

module _ {ℓ} {S E A B : Type ℓ} where
  abbrev pub continue : Result E A → (A → Exec S E B) → Exec S E B
  continue (ok a) f s = f a s
  continue (err e) f s = (err e, s)

  infixl 10 ◌>>=◌ ◌>>◌
  -- Opening this opens `pure`, `raise` and `gets` too.
  unfoldable pub ◌>>=◌ : Exec S E A → (A → Exec S E B) → Exec S E B
  unfolding pure raise gets
  ◌>>=◌ m f s = let (r, s') = m s in continue r f s'

  abbrev pub ◌>>◌ : Exec S E A → Exec S E B → Exec S E B
  m >> n = m >>= λ _. n

module _ {ℓ} {S E A B : Type ℓ} (m : Exec S E A) (f : A → Exec S E B) (s : S) where
  -- A call that succeeds is followed by the rest; one that fails is the last.
  pub >>=-ok : {a : A} → (m s).0 ≡ ok a → (m >>= f) s ≡ f a (m s).1
  unfolding ◌>>=◌
  >>=-ok e = ground arith

  pub >>=-err : {e : E} → (m s).0 ≡ err e → (m >>= f) s ≡ (err e, (m s).1)
  unfolding ◌>>=◌
  >>=-err h = ground arith

abbrev pub recode {ℓ} : {E F A : Type ℓ} → F → Result E A → Result F A
recode code (ok a) = ok a
recode code (err e) = err code

-- `if (f(...) < 0) return code;`: any error of the callee becomes the caller's own code.
unfoldable pub or_return {ℓ} : {S E F A : Type ℓ} → Exec S E A → F → Exec S F A
or_return m code s = let (r, s') = m s in (recode code r, s')
