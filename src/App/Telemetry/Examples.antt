-- ===== src/App/Telemetry/Examples.antt =====
-- Runs of the telemetry threads, and their theorems at those runs.
use efc.Common.{◌≡◌, refl, List, [], ◌∷◌, ◌++◌, arith, true}
use efc.App.Telemetry
use efc.App.Telemetry.{
  Mavlink, Convert, Pipe, IsPipe, Event, imu_chan, baro_chan, heartbeat_chan, other_chan,
  wait_failed, pack_imu, pack_baro, pack_heartbeat, send_packet, pack_event, forward_byte, Round,
  packer, sender, step, run,
}
use efc.App.Telemetry.Order.{packets, events, Delivered, delivered}
use efc.App.Telemetry.Complete.{bytes, senders, all_sent}
use efc.App.Telemetry.Rig.{mav, fpu, pipe_of, three_bytes, pipe_of_lem, room, large}

abbrev start : Telemetry.World mav fpu three_bytes
start = record { status = 5; packing = true; wire = record { queued = []; sent = [] } }

-- The second packet is cut off, since only one byte of room is left.
abbrev rounds : List Round
rounds =
    packer heartbeat_chan
    ∷ sender
    ∷ packer (baro_chan (record { timestamp_us = 9000; temperature_degc = 1; pressure_kpa = 2 }))
    ∷ sender
    ∷ sender
    ∷ sender
    ∷ packer wait_failed
    ∷ packer heartbeat_chan
    ∷ []

rounds_sent : (run mav fpu three_bytes rounds start).wire.sent ≡ 5 ∷ 0 ∷ 6 ∷ 29 ∷ []
unfolding run step pack_event forward_byte send_packet pack_imu pack_baro pack_heartbeat
rounds_sent = refl

delivered_example :
    Delivered mav fpu
      (pipe_of_lem 3)
      (packets mav fpu (events rounds) 5)
      start
      (run mav fpu three_bytes rounds start)
delivered_example = delivered mav fpu (pipe_of_lem 3) rounds start refl

all_sent_example :
    (run mav fpu (pipe_of 1024) (rounds ++ senders 9) large).wire.sent
    ≡ bytes (packets mav fpu (events rounds) 5)
unfolding pack_heartbeat pack_baro
all_sent_example =
    all_sent mav fpu (pipe_of_lem 1024) (room 1024) rounds 9 large refl (omega arith) (omega arith)
