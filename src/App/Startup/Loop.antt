-- ===== src/App/Startup/Loop.antt =====
-- The endless loop of `main`, for any number of its rounds.
use efc.Common.{
  ℕ, zero, suc, ◌+◌, ◌≤◌, ◌≡◌, refl, ap, ◌∙◌, List, [], ◌∷◌, Bool, true, false, is_negative, arith,
  length,
}
use efc.Common.Exec.{ok, pure, ◌>>=◌}
use efc.App.Sensors.{process_imu, process_baro}
use efc.App.Sensors.Stamps.{IsBus}
use efc.App.Sensors.Channels.{
  Works, OneMore, process_baro-imu, process_imu-baro, process_baro-OneMore, process_imu-OneMore,
  process_baro-works, process_imu-works,
}
use efc.App.Startup.{
  Board, Firmware, attempt, sample, sleep, round, rounds, handle_icm42688p_drdy, Turn, loop_round,
  data_ready, turns,
}

-- The LED can be toggled, and neither this nor a pause publishes anything.
pub record IsLoop (b : Board) (bus : IsBus b.drivers) : Type 0 where
  pub toggles : (s : b.drivers.State) → is_negative (b.gpio_pin_toggle_dt s).0 ≡ false
  pub toggle_quiet :
      (s : b.drivers.State)
      → (bus.imu (b.gpio_pin_toggle_dt s).1 ≡ bus.imu s)
        × (bus.baro (b.gpio_pin_toggle_dt s).1 ≡ bus.baro s)
  pub sleep_quiet :
      (ms : ℕ) (s : b.drivers.State)
      → (bus.imu (b.k_msleep ms s) ≡ bus.imu s) × (bus.baro (b.k_msleep ms s) ≡ bus.baro s)

-- The messages that n rounds may publish on the IMU's channel.
abbrev pub imu_rounds : Bool → ℕ → ℕ
imu_rounds true n = 0
imu_rounds false n = n

abbrev pub count_rounds : List Turn → ℕ
count_rounds [] = 0
count_rounds (loop_round ∷ ts) = count_rounds ts + 1
count_rounds (data_ready ∷ ts) = count_rounds ts

abbrev pub count_interrupts : List Turn → ℕ
count_interrupts [] = 0
count_interrupts (loop_round ∷ ts) = count_interrupts ts
count_interrupts (data_ready ∷ ts) = count_interrupts ts + 1

module _ {b : Board} (bus : IsBus b.drivers) (loop : IsLoop b bus)
    (main_imu : b.drivers.Device) where
  -- The outside after the toggle, after the IMU, and after the barometer.
  abbrev toggled : b.drivers.State → b.drivers.State
  toggled s = (b.gpio_pin_toggle_dt s).1

  abbrev imu_sampled : Bool → b.drivers.State → b.drivers.State
  imu_sampled true s = toggled s
  imu_sampled false s = (process_imu b.drivers main_imu (toggled s)).1

  abbrev baro_sampled : Bool → b.drivers.State → b.drivers.State
  baro_sampled using_trigger s =
      (process_baro b.drivers b.bosch_bme280 (imu_sampled using_trigger s)).1

  -- Every round gets to its end.
  round_lem :
      (using_trigger : Bool) (w : Firmware b)
      → round b main_imu using_trigger w
        ≡ (ok tt, record w { io = b.k_msleep 1000 (baro_sampled using_trigger w.io) })
  unfolding round attempt sample sleep pure ◌>>=◌
  round_lem true w = ground (arith, loop.toggles w.io)
  round_lem false w = ground (arith, loop.toggles w.io)

  -- The bus before the barometer's sample, and after the round.
  imu_sampled-baro : (t : Bool) (s : b.drivers.State) → bus.baro (imu_sampled t s) ≡ bus.baro s
  imu_sampled-baro true s = (loop.toggle_quiet s).1
  imu_sampled-baro false s = process_imu-baro bus main_imu (toggled s) ∙ (loop.toggle_quiet s).1

  abbrev after : Bool → b.drivers.State → b.drivers.State
  after t s = b.k_msleep 1000 (baro_sampled t s)

  after-baro : (t : Bool) (s : b.drivers.State) → bus.baro (after t s) ≡ bus.baro (baro_sampled t s)
  after-baro t s = (loop.sleep_quiet 1000 (baro_sampled t s)).1

  after-imu : (t : Bool) (s : b.drivers.State) → bus.imu (after t s) ≡ bus.imu (imu_sampled t s)
  after-imu t s =
      (loop.sleep_quiet 1000 (baro_sampled t s)).0
      ∙ process_baro-imu bus b.bosch_bme280 (imu_sampled t s)

  -- How many messages there are.
  abbrev bauds : b.drivers.State → ℕ
  bauds s = length (bus.baro s)

  abbrev imus : b.drivers.State → ℕ
  imus s = length (bus.imu s)

  baro_round :
      (t : Bool) (s : b.drivers.State)
      → (bauds s ≤ bauds (after t s)) × (bauds (after t s) ≤ bauds s + 1)
  unfolding OneMore
  baro_round t s =
      rw (after-baro t s)
        (rw (imu_sampled-baro t s) at (process_baro-OneMore bus b.bosch_bme280 (imu_sampled t s)))

  imu_round :
      (t : Bool) (s : b.drivers.State)
      → (imus s ≤ imus (after t s)) × (imus (after t s) ≤ imus s + imu_rounds t 1)
  unfolding OneMore
  imu_round true s =
      let e = ap length (after-imu true s ∙ (loop.toggle_quiet s).0) in
      (omega (arith, e), omega (arith, e))
  imu_round false s =
      rw (after-imu false s)
        (rw ((loop.toggle_quiet s).0) at (process_imu-OneMore bus main_imu (toggled s)))

  rounds_step :
      (n : ℕ) (t : Bool) (w : Firmware b)
      → rounds b (suc n) main_imu t w ≡ rounds b n main_imu t (record w { io = after t w.io })
  unfolding rounds ◌>>=◌
  rounds_step n t w = rw (round_lem t w) refl

  none_yet : (t : Bool) → imu_rounds t 0 ≡ 0
  none_yet true = refl
  none_yet false = refl

  imu_rounds_add : (t : Bool) (n : ℕ) → imu_rounds t 1 + imu_rounds t n ≡ imu_rounds t (suc n)
  imu_rounds_add true n = refl
  imu_rounds_add false n = omega arith

  -- While the LED can be toggled, and neither this nor a pause publishes anything, with a bus
  -- as IsBus describes it: whatever the drivers and the channels return, any number n of rounds
  -- of the loop of main gets to its end, with at most n more messages of the barometer and at
  -- most n of the IMU, none if it is read by its trigger.
  pub rounds_lem :
      (n : ℕ) (using_trigger : Bool) (w : Firmware b)
      → let out = rounds b n main_imu using_trigger w in
        (out.0 ≡ ok tt)
        × (length (bus.baro w.io) ≤ length (bus.baro out.1.io))
        × (length (bus.baro out.1.io) ≤ length (bus.baro w.io) + n)
        × (length (bus.imu w.io) ≤ length (bus.imu out.1.io))
        × (length (bus.imu out.1.io) ≤ length (bus.imu w.io) + imu_rounds using_trigger n)
  unfolding rounds pure ◌>>=◌
  rounds_lem zero t w = (refl, omega arith, omega arith, omega arith, omega arith)
  rounds_lem (suc n) t w =
      let rest = rounds_lem n t (record w { io = after t w.io }) in
      let baro = baro_round t w.io in
      let imu = imu_round t w.io in
      let sum = imu_rounds_add t n in
      rw (rounds_step n t w) (rest.0, omega arith, omega arith, omega arith, omega arith)

  baro_works : (t : Bool) (s : b.drivers.State) → Works b.drivers → bauds (after t s) ≡ bauds s + 1
  baro_works t s works =
      ap length (after-baro t s)
      ∙ process_baro-works bus b.bosch_bme280 (imu_sampled t s) works
      ∙ ap (λ l. length l + 1) (imu_sampled-baro t s)

  imu_works :
      (t : Bool) (s : b.drivers.State)
      → Works b.drivers
      → imus (after t s) ≡ imus s + imu_rounds t 1
  imu_works true s works = ap length (after-imu true s ∙ (loop.toggle_quiet s).0) ∙ omega arith
  imu_works false s works =
      ap length (after-imu false s)
      ∙ process_imu-works bus main_imu (toggled s) works
      ∙ ap (λ l. length l + 1) (loop.toggle_quiet s).0

  -- Where nothing fails, a round publishes one message of the barometer, and one of the IMU that it reads.
  pub rounds_publish :
      (n : ℕ) (using_trigger : Bool) (w : Firmware b)
      → Works b.drivers
      → let out = rounds b n main_imu using_trigger w in
        (out.0 ≡ ok tt)
        × (length (bus.baro out.1.io) ≡ length (bus.baro w.io) + n)
        × (length (bus.imu out.1.io) ≡ length (bus.imu w.io) + imu_rounds using_trigger n)
  unfolding rounds pure
  rounds_publish zero t w works = (refl, omega arith, omega (arith, none_yet t))
  rounds_publish (suc n) t w works =
      let rest = rounds_publish n t (record w { io = after t w.io }) works in
      let baro = baro_works t w.io works in
      let imu = imu_works t w.io works in
      let sum = imu_rounds_add t n in rw (rounds_step n t w) (rest.0, omega arith, omega arith)

  -- With an IMU that is read by its trigger, where no driver, channel or toggle of the LED
  -- fails: however the rounds of the loop and the interrupts follow each other, the loop has
  -- not ended, every round has published one message of the barometer, and every interrupt one
  -- of the IMU.
  pub turns_lem :
      (ts : List Turn) (w : Firmware b)
      → Works b.drivers
      → let out = turns b ts main_imu w in
        (out.0 ≡ ok tt)
        × (length (bus.baro out.1.io) ≡ length (bus.baro w.io) + count_rounds ts)
        × (length (bus.imu out.1.io) ≡ length (bus.imu w.io) + count_interrupts ts)
  unfolding turns handle_icm42688p_drdy sample pure ◌>>=◌
  turns_lem [] w works = (refl, omega arith, omega arith)
  turns_lem (loop_round ∷ ts) w works =
      let rest = turns_lem ts (record w { io = after true w.io }) works in
      let baro = baro_works true w.io works in
      let imu = imu_works true w.io works in
      rw (round_lem true w) (rest.0, omega arith, omega arith)
  turns_lem (data_ready ∷ ts) w works =
      let next = (process_imu b.drivers main_imu w.io).1 in
      let rest = turns_lem ts (record w { io = next }) works in
      let imu = process_imu-works bus main_imu w.io works in
      let baro = ap length (process_imu-baro bus main_imu w.io) in
      (rest.0, omega arith, omega arith)
