-- ===== src/App/Flight/Acts.antt =====
-- What a turn of the firmware is for one subscriber: nothing, a publication, a notification, or the
-- receipt of what has waited longest.
use efc.Common.{
  ℕ, ◌≡◌, ◌≢◌, refl, sym, append_assoc, Option, none, some, List, [], ◌∷◌, ◌++◌, Bool, true, false,
}
use efc.App.Logger.{Imu6dofData, BaroData}
use efc.App.Bus.{
  Chan, imu_chan, baro_chan, sync_chan, heartbeat_chan, Sub, logger_sub, telemetry_packer_sub, Zbus,
  Notice,
}
use efc.App.Bus.Laws.{Seen, imu_published, baro_published, notified, notice, IsZbus, HasRoom}
use efc.App.Sensors.Imu
use efc.App.Sensors.{process_imu}
use efc.App.Startup.{Board}
use efc.App.Flight.{Point, at_imu, at_baro, Turn, main_loop, data_ready, Flight, change, step}

-- The LED and a pause have nothing to do with the bus.
pub record IsStill (b : Board) {z : Zbus b.drivers} (bus : IsZbus z) : Type 0 where
  pub toggled :
      (sub : Sub) (s : b.drivers.State) → bus.look sub (b.gpio_pin_toggle_dt s).1 ≡ bus.look sub s
  pub slept :
      (sub : Sub) (ms : ℕ) (s : b.drivers.State) → bus.look sub (b.k_msleep ms s) ≡ bus.look sub s

-- The channels of the two timers.
abbrev pub is_timer : Chan → Bool
is_timer sync_chan = true
is_timer heartbeat_chan = true
is_timer _ = false

-- `P` is what a channel and the subscriber's queue fulfil where a sample is published, `M` what a
-- message of the IMU fulfils.
pub data Acts (P : Chan → List Chan → Type 0) (M : Imu6dofData → Type 0) (x : Seen)
    (h : List Notice) (y : Seen) (h' : List Notice) : Type 0 where
  stays : y ≡ x → h' ≡ h → Acts P M x h y h'
  imu_came :
      (m : Imu6dofData)
      → M m
      → P imu_chan x.queue
      → y ≡ imu_published m x
      → h' ≡ h
      → Acts P M x h y h'
  baro_came :
      (m : BaroData) → P baro_chan x.queue → y ≡ baro_published m x → h' ≡ h → Acts P M x h y h'
  told_of : (c : Chan) → is_timer c ≡ true → y ≡ notified c x → h' ≡ h → Acts P M x h y h'
  heard_one :
      (c : Chan) (cs : List Chan)
      → x.queue ≡ c ∷ cs
      → y ≡ record x { queue = cs }
      → h' ≡ h ++ notice c x ∷ []
      → Acts P M x h y h'

pub change-same : {A : Type 0} (sub : Sub) (v : A) (f : Sub → A) → change sub v f sub ≡ v
change-same logger_sub v f = refl
change-same telemetry_packer_sub v f = refl

pub change-other :
    {A : Type 0} (sub other : Sub) (v : A) (f : Sub → A)
    → other ≢ sub
    → change sub v f other ≡ f other
change-other logger_sub logger_sub v f d = absurd (d refl)
change-other logger_sub telemetry_packer_sub v f d = refl
change-other telemetry_packer_sub logger_sub v f d = refl
change-other telemetry_packer_sub telemetry_packer_sub v f d = absurd (d refl)

pub Sub-discrete : Discrete Sub
Sub-discrete = hlevel

-- What `x` is with notifications in front of those that wait.
abbrev pub front : List Chan → Seen → Seen
front cs x = record x { queue = cs ++ x.queue }

-- A channel that is about to be read.
abbrev pub held : Option Chan → List Chan
held none = []
held (some c) = c ∷ []

-- What comes behind is behind what is in front too.
pub front-behind :
    (hs : List Chan) (c : Chan) (x : Seen) → hs ++ (x.queue ++ c ∷ []) ≡ (hs ++ x.queue) ++ c ∷ []
front-behind hs c x = sym (append_assoc hs x.queue (c ∷ []))

-- A read does not see the queue.
pub notice_now :
    (c : Chan) (x : Seen) (cs : List Chan) → notice c (record x { queue = cs }) ≡ notice c x
notice_now imu_chan x cs = refl
notice_now baro_chan x cs = refl
notice_now sync_chan x cs = refl
notice_now heartbeat_chan x cs = refl

-- The notifications that a thread has yet to handle.
abbrev pub unread : {b : Board} {z : Zbus b.drivers} → IsZbus z → Sub → Flight b z → List Chan
unread bus me w = held (w.reading me) ++ (bus.look me w.firmware.io).queue

module _ {b : Board} {z : Zbus b.drivers} (bus : IsZbus z) (P : Chan → List Chan → Type 0)
    (me : Sub) where
  -- What the subscriber can see, with the channel that it is about to read in front of its queue.
  abbrev pub seen : Flight b z → Seen
  seen w = front (held (w.reading me)) (bus.look me w.firmware.io)

  -- Room in the queues where a sample may be published, and `P`.
  abbrev pub CanTake : Chan → Flight b z → Type 0
  CanTake c w = HasRoom bus w.firmware.io × P c (seen w).queue

  -- With the trigger main does not sample the IMU.
  abbrev pub DueAt : Bool → Point → Flight b z → Type 0
  DueAt false at_imu w = CanTake imu_chan w
  DueAt using_trigger at_baro w = CanTake baro_chan w
  DueAt _ _ w = Unit {0}

  abbrev pub Due : Bool → Turn → Flight b z → Type 0
  Due using_trigger main_loop w = w.looping ≡ true → DueAt using_trigger w.point w
  Due using_trigger data_ready w = CanTake imu_chan w
  Due _ _ w = Unit {0}

  abbrev pub AllDue : b.drivers.Device → Bool → List Turn → Flight b z → Type 0
  AllDue dev using_trigger [] w = Unit {0}
  AllDue dev using_trigger (t ∷ ts) w =
      Due using_trigger t w × AllDue dev using_trigger ts (step b z dev using_trigger t w)

  -- The message is that of the device, whose sample ends in `s`.
  abbrev pub Sampled : b.drivers.Device → Flight b z → b.drivers.State → Imu6dofData → Type 0
  Sampled dev w s m =
      (m ≡ Imu.imu_message b.drivers dev w.firmware.io)
      × (s ≡ (process_imu b.drivers dev w.firmware.io).1)

  abbrev pub ActsTo : b.drivers.Device → Flight b z → Flight b z → Type 0
  ActsTo dev w w' =
      Acts P (Sampled dev w w'.firmware.io) (seen w) (w.heard me) (seen w') (w'.heard me)

  -- Where the thread has done nothing.
  abbrev pub SeesAt : b.drivers.Device → Flight b z → b.drivers.State → Type 0
  SeesAt dev w s =
      Acts P (Sampled dev w s) (seen w) (w.heard me) (front (held (w.reading me)) (bus.look me s))
        (w.heard me)
