-- ===== src/App/Flight/Late.antt =====
-- A flight in which the logger is late.
use efc.Common.{◌*◌, ◌^◌, ◌<◌, ◌≡◌, refl, List, [], ◌∷◌, ◌++◌, false, arith}
use efc.App.Logger.{Imu6dofData, BaroData}
use efc.App.Bus.{logger_sub}
use efc.App.Flight.{Turn, main_loop, wake, Flight, run}
use efc.App.Flight.Acts.{AllDue}
use efc.App.Flight.Lag.{Anything, IsReplay, late_thread_repeats}
use efc.App.Flight.Caught.{imus, baros}
use efc.App.Flight.Clock.{IsClock}
use efc.App.Flight.Clock
use efc.App.Flight.Ascending.{IsAscending, heard_stamps_ascend}
use efc.App.Flight.Rig.{imu_later, baro_later, wait_later, board, zbus, bus, still, in_time}
use efc.App.Flight.Examples.{start, imu_sample, for_all_subs, firmware}

-- The logger sleeps through a second sample of the IMU.
abbrev late_turns : List Turn
late_turns =
    main_loop
    ∷ main_loop
    ∷ main_loop
    ∷ main_loop
    ∷ main_loop
    ∷ main_loop
    ∷ wake logger_sub
    ∷ wake logger_sub
    ∷ wake logger_sub
    ∷ wake logger_sub
    ∷ wake logger_sub
    ∷ wake logger_sub
    ∷ []

abbrev late : Flight board zbus
late = run board zbus 7 false late_turns start

-- The first sample is lost, and the second comes twice.
heard_late :
    imus (late.heard logger_sub)
    ≡ record imu_sample { timestamp_us = 2000 } ∷ record imu_sample { timestamp_us = 2000 } ∷ []
unfolding firmware
heard_late = refl

has_room : AllDue bus Anything logger_sub 7 false late_turns start
unfolding firmware
has_room = (
  λ runs. tt,
  (
    λ runs. (for_all_subs _ (omega arith) (omega arith), tt),
    (
      λ runs. (for_all_subs _ (omega arith) (omega arith), tt),
      (
        λ runs. tt,
        (
          λ runs. tt,
          (
            λ runs. (for_all_subs _ (omega arith) (omega arith), tt),
            (tt, (tt, (tt, (tt, (tt, (tt, tt)))))),
          ),
        ),
      ),
    ),
  ),
)

late_thread_repeats_example :
    (is : List Imu6dofData) × (bs : List BaroData) × ((bus.look logger_sub late.firmware.io).imus
      ≡ [] ++ is)
    × ((bus.look logger_sub late.firmware.io).baros ≡ [] ++ bs)
    × IsReplay is (imus (late.heard logger_sub))
    × IsReplay bs (baros (late.heard logger_sub))
late_thread_repeats_example =
    late_thread_repeats bus logger_sub 7 false still in_time late_turns start refl refl has_room

abbrev time : IsClock board zbus
time = record {
  fetched = λ dev s. omega arith;
  got = λ dev c s. omega arith;
  imu_published = imu_later;
  baro_published = baro_later;
  toggled = λ s. omega arith;
  slept = λ ms s. omega arith;
  notified = λ c s. omega arith;
  waited = λ sub s s' ret c e. wait_later sub s (s.queue sub) s' ret c e;
  imu_read = λ s. omega arith;
  baro_read = λ s. omega arith;
}

late_soon : Clock.uptime time late * 1000 < 2 ^ 64
unfolding firmware
late_soon = omega arith

heard_stamps_ascend_example : IsAscending (imus (late.heard logger_sub))
heard_stamps_ascend_example =
    heard_stamps_ascend bus time logger_sub 7 false still in_time late_turns start refl refl
      has_room late_soon
