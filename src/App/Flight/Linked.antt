-- ===== src/App/Flight/Linked.antt =====
-- A flight whose samples reach the ground, as packets of a heartbeat's and a sample's length.
use efc.Common.{ℕ, ◌≡◌, refl, List, [], ◌∷◌, ◌++◌, arith, map, false}
use efc.App.Logger.{Imu6dofData, BaroData}
use efc.App.Bus.{telemetry_packer_sub, imu, baro, told, heartbeat_chan, Notice, packer_event}
use efc.App.Telemetry
use efc.App.Telemetry.{Round, packer, sender, pack_imu, pack_baro, pack_heartbeat}
use efc.App.Telemetry.Order.{events}
use efc.App.Telemetry.Complete.{senders}
use efc.App.Telemetry.Rig.{mav, fpu, pipe_of, pipe_of_lem, room, large}
use efc.App.Flight.{Turn, main_loop, heartbeat_timer, wake, Flight, run}
use efc.App.Flight.Acts.{unread}
use efc.App.Flight.Heard.{KeepsUp}
use efc.App.Flight.Downlink.{IsDownlinked, every_sample-IsDownlinked}
use efc.App.Flight.Rig.{board, zbus, bus, still, in_time}
use efc.App.Flight.Examples.{start, imu_sample, baro_sample, firmware, for_all_subs}

abbrev turns : List Turn
turns =
    main_loop
    ∷ main_loop
    ∷ wake telemetry_packer_sub
    ∷ main_loop
    ∷ heartbeat_timer
    ∷ wake telemetry_packer_sub
    ∷ wake telemetry_packer_sub
    ∷ wake telemetry_packer_sub
    ∷ wake telemetry_packer_sub
    ∷ wake telemetry_packer_sub
    ∷ []

abbrev landed : Flight board zbus
landed = run board zbus 7 false turns start

abbrev notices : List Notice
notices = imu imu_sample ∷ baro baro_sample ∷ told heartbeat_chan ∷ []

heard_in_flight : landed.heard telemetry_packer_sub ≡ notices
unfolding firmware
heard_in_flight = refl

-- The sender forwards two bytes before the last event.
abbrev rounds : List Round
rounds =
    packer (packer_event (imu imu_sample))
    ∷ sender
    ∷ packer (packer_event (baro baro_sample))
    ∷ sender
    ∷ packer (packer_event (told heartbeat_chan))
    ∷ []

same_events : events rounds ≡ map packer_event (landed.heard telemetry_packer_sub)
same_events = rw heard_in_flight refl

keeps_up : KeepsUp bus telemetry_packer_sub 7 false turns start
unfolding firmware
keeps_up = (
  λ runs. tt,
  (
    λ runs. (for_all_subs _ (omega arith) (omega arith), refl),
    (
      tt,
      (
        λ runs. (for_all_subs _ (omega arith) (omega arith), refl),
        (tt, (tt, (tt, (tt, (tt, (tt, tt)))))),
      ),
    ),
  ),
)

all_read : unread bus telemetry_packer_sub landed ≡ []
unfolding firmware
all_read = refl

every_sample-IsDownlinked_example :
    (is : List Imu6dofData) × (bs : List BaroData) × (stream : List ℕ) × ((bus.look
        telemetry_packer_sub landed.firmware.io).imus
      ≡ [] ++ is)
    × ((bus.look telemetry_packer_sub landed.firmware.io).baros ≡ [] ++ bs)
    × IsDownlinked fpu mav 5 stream is bs
    × ((Telemetry.run mav fpu (pipe_of 1024) (rounds ++ senders 8) large).wire.sent ≡ stream)
unfolding pack_imu pack_baro pack_heartbeat
every_sample-IsDownlinked_example =
    every_sample-IsDownlinked bus still in_time mav fpu (pipe_of_lem 1024) (room 1024) 7 false turns
      start rounds 8 large refl refl keeps_up all_read refl same_events (omega arith) (omega arith)
