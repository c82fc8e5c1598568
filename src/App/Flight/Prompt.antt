-- ===== src/App/Flight/Prompt.antt =====
-- Threads that get to run after each turn of another.
use mathlib.Core.Path.{subst}
use efc.Common.{◌≡◌, refl, ◌∙◌, List, [], ◌∷◌, ◌++◌, Bool, true, arith, if-both, false}
use efc.Common.Exec.{Result, ok, err}
use efc.App.Bus.{imu_chan, baro_chan, Chan, Sub, logger_sub, telemetry_packer_sub, Zbus}
use efc.App.Bus.Laws.{IsZbus, ReadsInTime}
use efc.App.Startup.{Board, Stop, Firmware}
use efc.App.Flight.{
  Point, at_toggle, at_imu, at_baro, at_sleep, Turn, main_loop, data_ready, sync_timer,
  heartbeat_timer, wake, Flight, piece, after_piece, advance, listen, step, run,
}
use efc.App.Flight.Acts.{IsStill, Due, DueAt, CanTake, held}
use efc.App.Flight.Steps.{step-Acts}
use efc.App.Flight.Caught.{IsRead, imus, baros}
use efc.App.Flight.Heard.{KeepsUp, every_sample_heard}
use efc.App.Flight.Woken.{
  AtMostOne, Acts-AtMostOne, queue, IsIdle, twice, Calm, Calm-IsIdle, Calm-unread, listen-nothing,
  listen-Woken,
}

-- After each of the turns, both threads have time for their wait and a read.
abbrev pub prompt : List Turn → List Turn
prompt [] = []
prompt (t ∷ ts) =
    t
    ∷ wake logger_sub
    ∷ wake logger_sub
    ∷ wake telemetry_packer_sub
    ∷ wake telemetry_packer_sub
    ∷ prompt ts

module _ {b : Board} {z : Zbus b.drivers} (bus : IsZbus z) where
  module _ (still : IsStill b bus) (in_time : ReadsInTime z) where
    -- Wakes of a thread that waits without a notification.
    unwoken-IsIdle : (sub : Sub) (w : Flight b z) → Calm bus w → IsIdle bus (listen b z sub w)
    unwoken-IsIdle sub w c =
        let idle = Calm-IsIdle bus w c in
        rw (listen-nothing bus in_time sub w idle (c.quiet sub)) idle

    after_piece-IsIdle :
        (r : Result Stop Unit × Firmware b) (w : Flight b z)
        → IsIdle bus w
        → IsIdle bus (after_piece b z r w)
    after_piece-IsIdle (ok u, fw) w a = record { awake = a.awake; waits = a.waits }
    after_piece-IsIdle (err e, fw) w a = record { awake = a.awake; waits = a.waits }

    advance-IsIdle :
        (dev : b.drivers.Device) (u : Bool) (w : Flight b z)
        → IsIdle bus w
        → IsIdle bus (advance b z dev u w)
    unfolding advance
    advance-IsIdle dev u w a =
        if-both (IsIdle bus) w.looping _ _
          (after_piece-IsIdle (piece b z w.point dev u w.firmware) w a) a

    module _ (dev : b.drivers.Device) (using_trigger : Bool) where
      Calm-CanTake : (me : Sub) (c : Chan) (w : Flight b z) → Calm bus w → CanTake bus IsRead me c w
      Calm-CanTake me c w calm =
          ((λ sub. rw (calm.quiet sub) (omega arith)), rw (Calm-unread bus w me calm) refl)

      Calm-DueAt :
          (me : Sub) (u : Bool) (p : Point) (w : Flight b z)
          → Calm bus w
          → DueAt bus IsRead me u p w
      Calm-DueAt me true at_toggle w c = tt
      Calm-DueAt me true at_imu w c = tt
      Calm-DueAt me true at_baro w c = Calm-CanTake me baro_chan w c
      Calm-DueAt me true at_sleep w c = tt
      Calm-DueAt me false at_toggle w c = tt
      Calm-DueAt me false at_imu w c = Calm-CanTake me imu_chan w c
      Calm-DueAt me false at_baro w c = Calm-CanTake me baro_chan w c
      Calm-DueAt me false at_sleep w c = tt

      Calm-Due :
          (me : Sub) (t : Turn) (w : Flight b z) → Calm bus w → Due bus IsRead me using_trigger t w
      Calm-Due me main_loop w c = λ runs. Calm-DueAt me using_trigger w.point w c
      Calm-Due me data_ready w c = Calm-CanTake me imu_chan w c
      Calm-Due me sync_timer w c = tt
      Calm-Due me heartbeat_timer w c = tt
      Calm-Due me (wake sub) w c = tt

      -- No turn ends a thread.
      step-IsIdle :
          (t : Turn) (w : Flight b z) → Calm bus w → IsIdle bus (step b z dev using_trigger t w)
      unfolding step
      step-IsIdle main_loop w c = advance-IsIdle dev using_trigger w (Calm-IsIdle bus w c)
      step-IsIdle data_ready w c = record { awake = c.awake; waits = c.waits }
      step-IsIdle sync_timer w c = record { awake = c.awake; waits = c.waits }
      step-IsIdle heartbeat_timer w c = record { awake = c.awake; waits = c.waits }
      step-IsIdle (wake s) w c = unwoken-IsIdle s w c

      step-AtMostOne :
          (t : Turn) (w : Flight b z)
          → Calm bus w
          → (sub : Sub) → AtMostOne (queue bus sub (step b z dev using_trigger t w))
      step-AtMostOne t w c sub =
          let idle = step-IsIdle t w c in
          let w' = step b z dev using_trigger t w in
          subst (λ r. AtMostOne (held r ++ queue bus sub w')) (idle.waits sub)
            (Acts-AtMostOne _ _ _ _
              (step-Acts bus IsRead sub still in_time dev using_trigger t w (Calm-Due sub t w c))
              (Calm-unread bus w sub c))

      -- The wakes make it calm again.
      woken-Calm :
          (w : Flight b z)
          → IsIdle bus w
          → ((sub : Sub) → AtMostOne (queue bus sub w))
          → Calm bus (twice bus telemetry_packer_sub (twice bus logger_sub w))
      woken-Calm w a few =
          let first = listen-Woken bus in_time logger_sub w a (few logger_sub) in
          let kept = first.others telemetry_packer_sub (λ e. cc) in
          let second =
            listen-Woken bus in_time telemetry_packer_sub (twice bus logger_sub w) first.idle
              (rw kept (few telemetry_packer_sub)) in
          let idle = second.idle in
          record {
            awake = idle.awake;
            waits = idle.waits;
            quiet = λ sub.
                elim sub
                  as (λ s.
                    queue bus s (twice bus telemetry_packer_sub (twice bus logger_sub w)) ≡ []) [
                      | logger_sub ↦ second.others logger_sub (λ e. cc) ∙ first.own
                      | telemetry_packer_sub ↦ second.own
                    ];
          }

      woken_up :
          (t : Turn) (w : Flight b z)
          → Calm bus w
          → Calm bus (
              twice bus telemetry_packer_sub
                (twice bus logger_sub (step b z dev using_trigger t w)))
      woken_up t w c = woken-Calm _ (step-IsIdle t w c) (step-AtMostOne t w c)

      prompt-Calm :
          (ts : List Turn) (w : Flight b z)
          → Calm bus w
          → Calm bus (run b z dev using_trigger (prompt ts) w)
      unfolding run
      prompt-Calm [] w c = c
      prompt-Calm (t ∷ ts) w c = unfold step in prompt-Calm ts _ (woken_up t w c)

      prompt-KeepsUp :
          (me : Sub) (ts : List Turn) (w : Flight b z)
          → Calm bus w
          → KeepsUp bus me dev using_trigger (prompt ts) w
      unfolding step
      prompt-KeepsUp me [] w c = tt
      prompt-KeepsUp me (t ∷ ts) w c =
          (Calm-Due me t w c, (tt, (tt, (tt, (tt, prompt-KeepsUp me ts _ (woken_up t w c))))))

      -- With zbus as IsZbus describes it, where the LED and a pause leave it alone and no
      -- read of a channel fails: for any sequence of turns of main, the interrupt, the
      -- timers and the threads, after each of which both threads have time for a wait and a
      -- read, from a point where both threads run and wait and no notification is left for
      -- them, and where a thread has heard nothing yet: at the end both still run and wait
      -- and none is left, and that thread has had every sample published meanwhile, once
      -- and in order, and no other.
      pub prompt_threads_hear_all :
          (me : Sub) (ts : List Turn) (w : Flight b z)
          → let w' = run b z dev using_trigger (prompt ts) w in
            let before = bus.look me w.firmware.io in
            let after = bus.look me w'.firmware.io in
            Calm bus w
            → w.heard me ≡ []
            → Calm bus w'
              × (after.imus ≡ before.imus ++ imus (w'.heard me))
              × (after.baros ≡ before.baros ++ baros (w'.heard me))
      prompt_threads_hear_all me ts w c h =
          let c' = prompt-Calm ts w c in
          let (of_imu, of_baro) =
            every_sample_heard bus me dev using_trigger still in_time (prompt ts) w h
              (Calm-unread bus w me c) (prompt-KeepsUp me ts w c) (Calm-unread bus _ me c') in
          (c', of_imu, of_baro)
