-- ===== src/Demos/Esc/Sweep.antt =====
-- Each sweep of the speed ends.
use mathlib.Core.Path.{fun_ext}
use efc.Common.{ℕ, zero, suc, ◌≤◌, ◌≡◌, refl, ap, ◌∙◌, false, arith, if◌then◌else◌}
use efc.Common.Exec.{ok, ◌>>=◌}
use efc.Esc.Types.{World}
use efc.Demos.Esc.{
  Board, Config, change_speed, sweep_up, sweep_down, sweep, sweeps, blink, prepare, main,
}

module _ (b : Board) where
  open b use {os, float}
  open float use {F, of_ℕ, add, sub, lt}

  -- The speed after some rounds of a sweep from `i`.
  abbrev pub up : ℕ → F → F
  up zero i = i
  up (suc n) i = up n (add i b.tenth)

  abbrev pub down : ℕ → F → F
  down zero i = i
  down (suc n) i = down n (sub i b.tenth)

  -- In single precision ten times 0.1f is not below 1, and ten times 0.1f taken from 1 is not above 0.
  pub record IsTenth : Type 0 where
    pub reaches : lt (up 10 (of_ℕ 0)) (of_ℕ 1) ≡ false
    pub falls : lt (of_ℕ 0) (down 10 (of_ℕ 1)) ≡ false

  sweep_up-done :
      (m : ℕ) (i : F) (w : World os float) → lt i (of_ℕ 1) ≡ false → sweep_up b m i w ≡ w
  unfolding sweep_up
  sweep_up-done zero i w h = refl
  sweep_up-done (suc m) i w h = rw h refl

  sweep_down-done :
      (m : ℕ) (i : F) (w : World os float) → lt (of_ℕ 0) i ≡ false → sweep_down b m i w ≡ w
  unfolding sweep_down
  sweep_down-done zero i w h = refl
  sweep_down-done (suc m) i w h = rw h refl

  sweep_up-enough :
      (n m : ℕ) (i : F) (w : World os float)
      → n ≤ m
      → lt (up n i) (of_ℕ 1) ≡ false
      → sweep_up b m i w ≡ sweep_up b n i w
  unfolding sweep_up
  sweep_up-enough zero m i w le h = sweep_up-done m i w h
  sweep_up-enough (suc n) zero i w le h = absurd (omega (arith, le))
  sweep_up-enough (suc n) (suc m) i w le h =
      ap (λ rest. if lt i (of_ℕ 1) then rest else w)
        (sweep_up-enough n m (add i b.tenth) (change_speed b i w) (omega (arith, le)) h)

  sweep_down-enough :
      (n m : ℕ) (i : F) (w : World os float)
      → n ≤ m
      → lt (of_ℕ 0) (down n i) ≡ false
      → sweep_down b m i w ≡ sweep_down b n i w
  unfolding sweep_down
  sweep_down-enough zero m i w le h = sweep_down-done m i w h
  sweep_down-enough (suc n) zero i w le h = absurd (omega (arith, le))
  sweep_down-enough (suc n) (suc m) i w le h =
      ap (λ rest. if lt (of_ℕ 0) i then rest else w)
        (sweep_down-enough n m (sub i b.tenth) (change_speed b i w) (omega (arith, le)) h)

  module _ (is_tenth : IsTenth) where
    sweep-enough : (fuel : ℕ) (w : World os float) → 10 ≤ fuel → sweep b fuel w ≡ sweep b 10 w
    unfolding sweep
    sweep-enough fuel w le =
        sweep_down-enough 10 fuel (of_ℕ 1) (sweep_up b fuel (of_ℕ 0) w) le is_tenth.falls
        ∙ ap (λ v. sweep_down b 10 (of_ℕ 1) v)
            (sweep_up-enough 10 fuel (of_ℕ 0) w le is_tenth.reaches)

    sweeps-enough :
        (fuel n : ℕ) (w : World os float) → 10 ≤ fuel → sweeps b fuel n w ≡ sweeps b 10 n w
    unfolding sweeps
    sweeps-enough fuel zero w le = refl
    sweeps-enough fuel (suc n) w le =
        sweeps-enough fuel n (sweep b fuel w) le
        ∙ ap (λ v. sweeps b 10 n v) (sweep-enough fuel w le)

    -- Where ten times 0.1f is not below 1, and ten times 0.1f taken from 1 is not above 0,
    -- each sweep of the demo ends within ten rounds: with any greater bound on the rounds of
    -- a sweep main does the same.
    pub main-enough :
        (cfg : Config) (fuel n : ℕ) (w : World os float)
        → 10 ≤ fuel
        → main b cfg fuel n w ≡ main b cfg 10 n w
    unfolding main
    main-enough cfg fuel n w le =
        ap {A = World os float → World os float}
          (λ f. (prepare b cfg >>= (λ done v. (ok tt, f (blink b 10 v)))) w)
          (fun_ext (λ v. sweeps-enough fuel n v le))
