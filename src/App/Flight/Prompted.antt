-- ===== src/App/Flight/Prompted.antt =====
-- A flight of two rounds in which the timers fire too, and both threads run after each turn.
use efc.Common.{◌≡◌, refl, List, [], ◌∷◌, ◌++◌, false}
use efc.App.Bus.{logger_sub, telemetry_packer_sub}
use efc.App.Flight.{Turn, main_loop, sync_timer, heartbeat_timer, Flight, run}
use efc.App.Flight.Caught.{imus, baros}
use efc.App.Flight.Woken.{Calm}
use efc.App.Flight.Prompt.{prompt, prompt_threads_hear_all}
use efc.App.Flight.Rig.{board, zbus, bus, still, in_time}
use efc.App.Flight.Examples.{start, imu_sample, firmware}

abbrev turns : List Turn
turns =
    main_loop ∷ main_loop ∷ sync_timer ∷ main_loop ∷ main_loop ∷ heartbeat_timer ∷ main_loop
    ∷ main_loop ∷ main_loop ∷ []

abbrev landed : Flight board zbus
landed = run board zbus 7 false (prompt turns) start

start-Calm : Calm bus start
start-Calm = record { awake = λ sub. refl; waits = λ sub. refl; quiet = λ sub. refl }

two_rounds :
    imus (landed.heard logger_sub) ≡ imu_sample ∷ record imu_sample { timestamp_us = 2000 } ∷ []
unfolding firmware
two_rounds = refl

prompt_threads_hear_all_example :
    Calm bus landed
    × ((bus.look telemetry_packer_sub landed.firmware.io).imus
        ≡ [] ++ imus (landed.heard telemetry_packer_sub))
    × ((bus.look telemetry_packer_sub landed.firmware.io).baros
        ≡ [] ++ baros (landed.heard telemetry_packer_sub))
prompt_threads_hear_all_example =
    prompt_threads_hear_all bus still in_time 7 false telemetry_packer_sub turns start start-Calm
      refl
