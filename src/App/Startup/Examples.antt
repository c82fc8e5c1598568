-- ===== src/App/Startup/Examples.antt =====
-- The theorems on `main` at a board in memory.
use efc.Common.{from, ◌+◌, ◌≤◌, ◌≡◌, refl, List, [], ◌∷◌, none, true, arith, length, map}
use efc.Common.Exec.{ok}
use efc.App.Logger.{mpu6050}
use efc.App.Startup.{start, rounds, main, turns, loop_round, data_ready}
use efc.App.Startup.Boots.{
  PowerOn, Outcome, start_lem, reset, boot_counts, started_boots_are_counted,
}
use efc.App.LogName.{filename}
use efc.App.Startup.Logs.{AllDifferent, log_names_differ}
use efc.App.Startup.Loop.{rounds_lem, turns_lem}
use efc.App.Startup.Ready.{uses_trigger, main_lem}
use efc.App.Startup.Rig.{
  board, flash, apart, reliable, bus, loop, works, ready, polled, headless, blank,
}

abbrev three_power_ons : List (PowerOn board)
three_power_ons =
    record { cfg = polled; run = λ s. s }
    ∷ record { cfg = headless; run = λ s. s }
    ∷ record { cfg = polled; run = λ s. record s { imu = [] } }
    ∷ []

start_lem_example :
    let w = reset board blank in
    Outcome flash (start board polled w).0 none w (start board polled w).1
start_lem_example =
    start_lem flash apart reliable polled none (reset board blank) (omega arith) refl

started_boots_are_counted_example :
    boot_counts board three_power_ons blank
    ≡ from 0 (length (boot_counts board three_power_ons blank))
started_boots_are_counted_example =
    started_boots_are_counted flash apart reliable three_power_ons blank
      (λ s. refl, (λ s. refl, (λ s. refl, tt))) (omega arith) refl

rounds_lem_example :
    let out = rounds board 3 7 true (reset board blank) in
    (out.0 ≡ ok tt)
    × (length blank.baro ≤ length out.1.io.baro)
    × (length out.1.io.baro ≤ length blank.baro + 3)
    × (length blank.imu ≤ length out.1.io.imu)
    × (length out.1.io.imu ≤ length blank.imu + 0)
rounds_lem_example = rounds_lem bus loop 7 3 true (reset board blank)

main_lem_example :
    let begin = (start board polled (reset board blank)).1.io in
    let out = main board polled 5 (reset board blank) in
    (out.0 ≡ ok tt)
    × (length out.1.io.baro ≡ length begin.baro + 5)
    × (length out.1.io.imu ≡ length begin.imu + 5)
unfolding uses_trigger
main_lem_example = main_lem ready bus polled mpu6050 5 (reset board blank) loop works refl

turns_lem_example :
    let out = turns board (data_ready ∷ loop_round ∷ data_ready ∷ []) 7 (reset board blank) in
    (out.0 ≡ ok tt) × (length out.1.io.baro ≡ 1) × (length out.1.io.imu ≡ 2)
turns_lem_example =
    turns_lem bus loop 7 (data_ready ∷ loop_round ∷ data_ready ∷ []) (reset board blank) works

log_names_differ_example :
    AllDifferent (map (λ count. filename 256 count) (boot_counts board three_power_ons blank))
log_names_differ_example =
    log_names_differ flash apart reliable 256 three_power_ons blank (omega arith)
      (λ s. refl, (λ s. refl, (λ s. refl, tt))) (omega arith) refl
