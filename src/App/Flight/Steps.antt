-- ===== src/App/Flight/Steps.antt =====
-- Every turn of the firmware is one of the acts.
use mathlib.Core.Path.{subst}
use efc.Common.{
  ◌≡◌, ◌≢◌, refl, sym, ap, ◌∙◌, Option, none, some, List, [], ◌∷◌, ◌++◌, Bool, true, false,
  Bool-cases, if-both, inl, inr, is_negative, if◌then◌else◌,
}
use efc.Common.Exec.{pure}
use efc.App.Bus.{
  Chan, imu_chan, baro_chan, sync_chan, heartbeat_chan, Sub, Zbus, read, sync_notify,
  heartbeat_notify,
}
use efc.App.Bus.Laws.{
  imu_published, baro_published, IsZbus, ReadsInTime, process_imu-Seen, process_baro-Seen,
  read-quiet, read-notice,
}
use efc.App.Sensors.Imu
use efc.App.Sensors.Stamps
use efc.App.Sensors.{process_imu, process_baro}
use efc.App.Startup.{Board, attempt, sample, sleep, handle_icm42688p_drdy}
use efc.App.Flight.{
  Point, at_toggle, at_imu, at_baro, at_sleep, Turn, main_loop, data_ready, sync_timer,
  heartbeat_timer, wake, Flight, piece, after_piece, advance, after_wait, has_had, resume, listen,
  change, step,
}
use efc.App.Flight.Acts.{
  IsStill, is_timer, stays, imu_came, baro_came, told_of, heard_one, change-same, change-other,
  Sub-discrete, front, held, seen, CanTake, DueAt, Due, ActsTo, SeesAt, front-behind, notice_now,
}

module _ {b : Board} {z : Zbus b.drivers} (bus : IsZbus z) (P : Chan → List Chan → Type 0)
    (me : Sub) where
  same-Sees :
      (dev : b.drivers.Device) (w : Flight b z) (s : b.drivers.State)
      → bus.look me s ≡ bus.look me w.firmware.io
      → SeesAt bus P me dev w s
  same-Sees dev w s e = stays (ap (front (held (w.reading me))) e) refl

  imu_sample :
      (dev : b.drivers.Device) (w : Flight b z)
      → CanTake bus P me imu_chan w
      → SeesAt bus P me dev w (process_imu b.drivers dev w.firmware.io).1
  imu_sample dev w (room, p) = elim (process_imu-Seen bus dev w.firmware.io room) [
    | inl same ↦ same-Sees dev w _ (same me)
    | inr published ↦
        let hs = held (w.reading me) in
        imu_came _ (refl, refl) p
          (ap (front hs) (published me)
            ∙ ap
                (λ q.
                  record (imu_published (Imu.imu_message b.drivers dev w.firmware.io)
                    (bus.look me w.firmware.io)) { queue = q })
                (front-behind hs imu_chan (bus.look me w.firmware.io)))
          refl
  ]

  baro_sample :
      (dev : b.drivers.Device) (w : Flight b z)
      → CanTake bus P me baro_chan w
      → SeesAt bus P me dev w (process_baro b.drivers b.bosch_bme280 w.firmware.io).1
  baro_sample dev w (room, p) = elim (process_baro-Seen bus b.bosch_bme280 w.firmware.io room) [
    | inl same ↦ same-Sees dev w _ (same me)
    | inr published ↦
        let hs = held (w.reading me) in
        baro_came _ p
          (ap (front hs) (published me)
            ∙ ap
                (λ q.
                  record (baro_published
                    (Stamps.baro_message b.drivers b.bosch_bme280 w.firmware.io)
                    (bus.look me w.firmware.io)) { queue = q })
                (front-behind hs baro_chan (bus.look me w.firmware.io)))
          refl
  ]

  notify-Acts :
      (dev : b.drivers.Device) (c : Chan) (w : Flight b z)
      → is_timer c ≡ true
      → SeesAt bus P me dev w (z.zbus_chan_notify c w.firmware.io).1
  notify-Acts dev c w t = elim (bus.notify me c w.firmware.io) [
    | inl same ↦ same-Sees dev w _ same
    | inr came ↦
        let hs = held (w.reading me) in
        told_of c t
          (ap (front hs) came
            ∙ ap (λ q. record (bus.look me w.firmware.io) { queue = q })
                (front-behind hs c (bus.look me w.firmware.io)))
          refl
  ]

  module _ (still : IsStill b bus) where
    piece-Acts :
        (dev : b.drivers.Device) (t : Bool) (w : Flight b z) (p : Point)
        → DueAt bus P me t p w
        → ActsTo bus P me dev w (after_piece b z (piece b z p dev t w.firmware) w)
    unfolding piece attempt sample sleep pure
    piece-Acts dev t w at_toggle due =
        let same = same-Sees dev w _ (still.toggled me w.firmware.io) in
        elim (Bool-cases (is_negative (b.gpio_pin_toggle_dt w.firmware.io).0)) [
          | inl bad ↦ rw bad same
          | inr fine ↦ rw fine same
        ]
    piece-Acts dev true w at_imu due = stays refl refl
    piece-Acts dev false w at_imu due = imu_sample dev w due
    piece-Acts dev true w at_baro due = baro_sample dev w due
    piece-Acts dev false w at_baro due = baro_sample dev w due
    piece-Acts dev t w at_sleep due = same-Sees dev w _ (still.slept me 1000 w.firmware.io)

    advance-Acts :
        (dev : b.drivers.Device) (t : Bool) (w : Flight b z)
        → (w.looping ≡ true → DueAt bus P me t w.point w)
        → ActsTo bus P me dev w (advance b z dev t w)
    unfolding advance
    advance-Acts dev t w due = go w.looping refl
      where
        go :
            (r : Bool)
            → w.looping ≡ r
            → ActsTo bus P me dev w
                (if r then after_piece b z (piece b z w.point dev t w.firmware) w else w)
        go true e = piece-Acts dev t w w.point (due e)
        go false e = stays refl refl

    module _ (in_time : ReadsInTime z) where
      -- A wait that is over: the notification is the channel that is about to be read.
      wait-Acts :
          (dev : b.drivers.Device) (sub : Sub) (w : Flight b z)
          → w.reading sub ≡ none
          → ActsTo bus P me dev w (after_wait b z sub (z.zbus_sub_wait sub w.firmware.io) w)
      wait-Acts dev sub w idle = go (bus.look sub w.firmware.io).queue refl
        where
          waited :
              (c : Chan) (cs : List Chan) (s : b.drivers.State)
              → (bus.look sub w.firmware.io).queue ≡ c ∷ cs
              → bus.look sub s ≡ record (bus.look sub w.firmware.io) { queue = cs }
              → ((other : Sub) → other ≢ sub → bus.look other s ≡ bus.look other w.firmware.io)
              → front (held (change sub (some c) w.reading me)) (bus.look me s) ≡ seen bus P me w
          waited c cs s q own others = elim (Sub-discrete me sub) [
            | yes e ↦
                rw (e, change-same sub (some c) w.reading, own, idle)
                  (ap (λ l. record (bus.look sub w.firmware.io) { queue = l }) (sym q))
            | no d ↦ rw (change-other sub me (some c) w.reading d, others me d) refl
          ]

          go :
              (q : List Chan)
              → (bus.look sub w.firmware.io).queue ≡ q
              → ActsTo bus P me dev w (after_wait b z sub (z.zbus_sub_wait sub w.firmware.io) w)
          go [] e = rw (bus.wait_empty sub w.firmware.io e) (stays refl refl)
          go (c ∷ cs) e =
              let (s, over, own, others) = bus.wait_oldest sub w.firmware.io c cs e in
              rw over (stays (waited c cs s e own others) refl)

      read-Acts :
          (dev : b.drivers.Device) (sub : Sub) (w : Flight b z) (c : Chan)
          → w.reading sub ≡ some c
          → ActsTo bus P me dev w (has_had b z sub (read z c w.firmware.io) w)
      read-Acts dev sub w c busy = elim (Sub-discrete me sub) [
        | yes e ↦
            subst
              (λ v.
                w.reading v ≡ some c
                → ActsTo bus P me dev w (has_had b z v (read z c w.firmware.io) w))
              e own busy
        | no d ↦
            stays
              (rw (change-other sub me none w.reading d)
                (ap (front (held (w.reading me))) (read-quiet bus me c w.firmware.io)))
              (change-other sub me _ w.heard d)
      ]
        where
          own :
              w.reading me ≡ some c
              → ActsTo bus P me dev w (has_had b z me (read z c w.firmware.io) w)
          own e =
              heard_one c (bus.look me w.firmware.io).queue (rw e refl)
                (rw (change-same me none w.reading) (read-quiet bus me c w.firmware.io))
                (change-same me _ w.heard
                  ∙ ap (λ n. w.heard me ++ n ∷ [])
                      (read-notice bus in_time me c w.firmware.io
                        ∙ sym (notice_now c (bus.look me w.firmware.io) _)))

      listen-Acts :
          (dev : b.drivers.Device) (sub : Sub) (w : Flight b z)
          → ActsTo bus P me dev w (listen b z sub w)
      unfolding listen
      listen-Acts dev sub w =
          if-both (λ w'. ActsTo bus P me dev w w') (w.listening sub) _ _ (go (w.reading sub) refl)
            (stays refl refl)
        where
          go :
              (r : Option Chan)
              → w.reading sub ≡ r
              → ActsTo bus P me dev w (resume b z sub (w.reading sub) w)
          go none e = rw e (wait-Acts dev sub w e)
          go (some c) e = rw e (read-Acts dev sub w c e)

      pub step-Acts :
          (dev : b.drivers.Device) (using_trigger : Bool) (t : Turn) (w : Flight b z)
          → Due bus P me using_trigger t w
          → ActsTo bus P me dev w (step b z dev using_trigger t w)
      unfolding step handle_icm42688p_drdy sample sync_notify heartbeat_notify
      step-Acts dev u main_loop w due = advance-Acts dev u w due
      step-Acts dev u data_ready w due = imu_sample dev w due
      step-Acts dev u sync_timer w due = notify-Acts dev sync_chan w refl
      step-Acts dev u heartbeat_timer w due = notify-Acts dev heartbeat_chan w refl
      step-Acts dev u (wake sub) w due = listen-Acts dev sub w
