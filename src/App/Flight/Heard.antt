-- ===== src/App/Flight/Heard.antt =====
-- Samples on their way from main to the threads.
use efc.Common.{
  ◌≡◌, refl, ap, ◌∙◌, sym, List, [], ◌∷◌, ◌++◌, append-nil, Bool, true, All, All-append,
}
use efc.App.Logger.{Imu6dofData}
use efc.App.Bus.{Chan, imu_chan, baro_chan, sync_chan, heartbeat_chan, Sub, Zbus, Notice}
use efc.App.Bus.Laws.{Seen, notice, IsZbus, ReadsInTime}
use efc.App.Startup.{Board}
use efc.App.Flight.{Turn, Flight, goes_on, step, run}
use efc.App.Flight.Acts.{
  Acts, stays, imu_came, baro_came, told_of, heard_one, IsStill, seen, unread, AllDue, Due,
}
use efc.App.Flight.Steps.{step-Acts}
use efc.App.Flight.Caught.{
  IsRead, count, imus, baros, imu_topic, baro_topic, Caught, level, Moves-Caught, Caught-all,
}
use efc.App.Flight.Caught.Imu.{imu-Moves}
use efc.App.Flight.Caught.Baro.{baro-Moves}

-- zbus lets no wait fail.
pub notice-goes_on : (c : Chan) (x : Seen) → goes_on (notice c x) ≡ true
notice-goes_on imu_chan x = refl
notice-goes_on baro_chan x = refl
notice-goes_on sync_chan x = refl
notice-goes_on heartbeat_chan x = refl

Acts-goes_on :
    {M : Imu6dofData → Type 0} (x y : Seen) (h h' : List Notice)
    → Acts IsRead M x h y h'
    → All (λ n. goes_on n ≡ true) h
    → All (λ n. goes_on n ≡ true) h'
Acts-goes_on x y h h' (stays e f) g = rw f g
Acts-goes_on x y h h' (imu_came m made p e f) g = rw f g
Acts-goes_on x y h h' (baro_came m p e f) g = rw f g
Acts-goes_on x y h h' (told_of c t e f) g = rw f g
Acts-goes_on x y h h' (heard_one c cs q e f) g =
    rw f (All-append (λ n. goes_on n ≡ true) h _ g (notice-goes_on c x, tt))

module _ {b : Board} {z : Zbus b.drivers} (bus : IsZbus z) (me : Sub) (dev : b.drivers.Device)
    (using_trigger : Bool) where
  -- Where main or the interrupt is about to sample a sensor, the queues have room and the
  -- subscriber has read what its channel had before.
  abbrev pub KeepsUp : List Turn → Flight b z → Type 0
  KeepsUp = AllDue bus IsRead me dev using_trigger

  -- The thread has had all samples since then, but at most the last.
  pub record HasCaught (start w : Flight b z) : Type 0 where
    pub went_on : All (λ n. goes_on n ≡ true) (w.heard me)
    imu : Caught (seen bus IsRead me start).imus (imu_topic (seen bus IsRead me w) (w.heard me))
    baro : Caught (seen bus IsRead me start).baros (baro_topic (seen bus IsRead me w) (w.heard me))

  module _ (still : IsStill b bus) (in_time : ReadsInTime z) where
    step-HasCaught :
        (start w : Flight b z) (t : Turn)
        → Due bus IsRead me using_trigger t w
        → HasCaught start w
        → HasCaught start (step b z dev using_trigger t w)
    step-HasCaught start w t due c =
        let acts = step-Acts bus IsRead me still in_time dev using_trigger t w due in
        record {
          went_on = Acts-goes_on _ _ _ _ acts c.went_on;
          imu = Moves-Caught _ _ _ (λ m q. q.1) (imu-Moves IsRead _ _ _ _ _ acts) c.imu;
          baro = Moves-Caught _ _ _ (λ m q. q) (baro-Moves IsRead _ _ _ _ _ acts) c.baro;
        }

    pub run-HasCaught :
        (start w : Flight b z) (ts : List Turn)
        → KeepsUp ts w
        → HasCaught start w
        → HasCaught start (run b z dev using_trigger ts w)
    unfolding run
    run-HasCaught start w [] due c = c
    run-HasCaught start w (t ∷ ts) (due, rest) c =
        run-HasCaught start (step b z dev using_trigger t w) ts rest
          (step-HasCaught start w t due c)

    pub at_start : (w : Flight b z) → w.heard me ≡ [] → unread bus me w ≡ [] → HasCaught w w
    at_start w h q = record {
      went_on = rw h tt;
      imu =
          level (ap (count imu_chan) q)
            (sym (ap (λ l. (seen bus IsRead me w).imus ++ imus l) h ∙ append-nil _));
      baro =
          level (ap (count baro_chan) q)
            (sym (ap (λ l. (seen bus IsRead me w).baros ++ baros l) h ∙ append-nil _));
    }

    -- With zbus as IsZbus describes it, where the LED and a pause leave it alone and no read
    -- of a channel fails: however main, the interrupt, the timers, and the waits and reads of
    -- the threads take turns, if whenever the interrupt or the running main samples a sensor
    -- the queues have room and the thread has read the sensor's channel, then a thread, the
    -- logger or the telemetry packer, that has heard nothing yet and starts and ends with
    -- nothing waiting and nothing about to be read has had every sample published meanwhile,
    -- once and in order, and no other.
    pub every_sample_heard :
        (ts : List Turn) (w : Flight b z)
        → let w' = run b z dev using_trigger ts w in
          let before = bus.look me w.firmware.io in
          let after = bus.look me w'.firmware.io in
          w.heard me ≡ []
          → unread bus me w ≡ []
          → KeepsUp ts w
          → unread bus me w' ≡ []
          → (after.imus ≡ before.imus ++ imus (w'.heard me))
            × (after.baros ≡ before.baros ++ baros (w'.heard me))
    every_sample_heard ts w h q due q' =
        let c = run-HasCaught w w ts due (at_start w h q) in
        (
          Caught-all _ _ c.imu (ap (count imu_chan) q'),
          Caught-all _ _ c.baro (ap (count baro_chan) q'),
        )
