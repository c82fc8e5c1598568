-- ===== src/App/Flight/Rig.antt =====
-- A board in memory whose zbus has queues of sixteen notifications.
use efc.Common.{
  ℕ, ◌+◌, ◌≡◌, refl, ap, List, [], ◌∷◌, ◌++◌, Option, none, some, Bool, true, false, ◌&&◌, ltb,
  if-both, inl, inr, ◌⊎◌, ℤ, pos, negsuc, is_negative, arith, length, length-append, ◌≤◌,
  if◌then◌else◌,
}
use efc.App.Logger.{Imu6dofData, BaroData}
use efc.App.Sensors.{Drivers}
use efc.App.Bus.{
  Chan, imu_chan, baro_chan, sync_chan, heartbeat_chan, Sub, logger_sub, telemetry_packer_sub, Zbus,
}
use efc.App.Bus.Laws.{Seen, notified, queue_size, IsZbus, ReadsInTime}
use efc.App.Startup.{Board}
use efc.App.Flight.{change}
use efc.App.Flight.Acts.{IsStill, change-same, change-other}

pub record Desk : Type 0 where
  pub imus : List Imu6dofData
  pub imu_now : Imu6dofData
  pub baros : List BaroData
  pub baro_now : BaroData
  pub queue : Sub → List Chan

abbrev has_room : Desk → Bool
has_room s =
    ltb (length (s.queue logger_sub)) queue_size
    && ltb (length (s.queue telemetry_packer_sub)) queue_size

-- A publication that finds no room is refused.
abbrev offer : Bool → Desk → Desk → ℤ × Desk
offer true s s' = (pos 0, s')
offer false s s' = (negsuc 79, s)

abbrev told_all : Chan → Desk → Sub → List Chan
told_all c s sub = s.queue sub ++ c ∷ []

abbrev with_imu : Imu6dofData → Desk → Desk
with_imu m s = record s { imus = s.imus ++ m ∷ []; imu_now = m; queue = told_all imu_chan s }

abbrev with_baro : BaroData → Desk → Desk
with_baro m s = record s { baros = s.baros ++ m ∷ []; baro_now = m; queue = told_all baro_chan s }

abbrev observes : Chan → Sub → Bool
observes sync_chan telemetry_packer_sub = false
observes heartbeat_chan logger_sub = false
observes _ _ = true

abbrev tell : Chan → Desk → Sub → List Chan
tell c s sub =
    if observes c sub && ltb (length (s.queue sub)) queue_size
    then s.queue sub ++ c ∷ []
    else s.queue sub

abbrev oldest : Sub → Desk → List Chan → Option (ℤ × Chan × Desk)
oldest sub s [] = none
oldest sub s (c ∷ cs) = some (pos 0, c, record s { queue = change sub cs s.queue })

-- The clock is the number of samples.
abbrev pub drivers : Drivers
drivers = record {
  State = Desk;
  SensorValue = ℕ;
  Device = ℕ;
  sensor_sample_fetch = λ dev s. (pos 0, s);
  sensor_channel_get = λ dev c s. (pos 0, record { x = 1; y = 2; z = 3 }, s);
  sensor_value_to_float = λ v. v;
  k_uptime_get = λ s. length s.imus + length s.baros;
  imu_chan_pub = λ m s. offer (has_room s) s (with_imu m s);
  baro_chan_pub = λ m s. offer (has_room s) s (with_baro m s);
}

abbrev pub board : Board
board = record {
  drivers = drivers;
  usb_enable = λ s. (pos 0, s);
  sample_usbd_init_device = λ s. (true, s);
  usbd_enable = λ s. (pos 0, s);
  gpio_is_ready_dt = λ s. true;
  gpio_pin_configure_dt = λ s. (pos 0, s);
  gpio_pin_toggle_dt = λ s. (pos 0, s);
  sensor_trigger_set = λ dev s. (pos 0, s);
  device_is_ready = λ dev s. true;
  fs_mount = λ s. (pos 0, s);
  flash_get_page_info_by_offs = λ dev offset s. (pos 0, 4096, s);
  nvs_mount = λ fs s. (pos 0, s);
  nvs_read = λ id n old s. (negsuc 1, old);
  nvs_write = λ id bs s. (pos (length bs), s);
  k_pipe_init = λ s. s;
  k_thread_create = λ thread priority s. s;
  k_msleep = λ ms s. s;
  imu_node = λ choice. 7;
  bosch_bme280 = 8;
  spiflash_partition0 = 9;
  spiflash_partition0_offset = 0;
  k_lowest_application_thread_prio = 14;
}

abbrev pub zbus : Zbus drivers
zbus = record {
  zbus_sub_wait = λ sub s. oldest sub s (s.queue sub);
  imu_chan_read = λ s. (pos 0, s.imu_now, s);
  baro_chan_read = λ s. (pos 0, s.baro_now, s);
  zbus_chan_notify = λ c s. (pos 0, record s { queue = tell c s });
}

abbrev look : Sub → Desk → Seen
look sub s = record {
  imus = s.imus;
  imu_now = s.imu_now;
  baros = s.baros;
  baro_now = s.baro_now;
  queue = s.queue sub;
}

pub offer-refused :
    (r : Bool) (s s' : Desk) → is_negative (offer r s s').0 ≡ true → (offer r s s').1 ≡ s
offer-refused true s s' h = absurd (ground (arith, h))
offer-refused false s s' h = refl

pub offer-taken :
    (r : Bool) (s s' : Desk) → is_negative (offer r s s').0 ≡ false → (offer r s s').1 ≡ s'
offer-taken true s s' h = refl
offer-taken false s s' h = absurd (ground (arith, h))

tell-cases :
    (c : Chan) (s : Desk) (sub : Sub)
    → (tell c s sub ≡ s.queue sub) ⊎ (tell c s sub ≡ s.queue sub ++ c ∷ [])
tell-cases c s sub =
    if-both (λ q. (q ≡ s.queue sub) ⊎ (q ≡ s.queue sub ++ c ∷ [])) _ _ _ (inr refl) (inl refl)

pub told :
    (c : Chan) (s : Desk) (sub : Sub)
    → (look sub (record s { queue = tell c s }) ≡ look sub s)
      ⊎ (look sub (record s { queue = tell c s }) ≡ notified c (look sub s))
told c s sub = elim (tell-cases c s sub) [
  | inl e ↦ inl (ap (λ q. record (look sub s) { queue = q }) e)
  | inr e ↦ inr (ap (λ q. record (look sub s) { queue = q }) e)
]

abbrev pub bus : IsZbus zbus
bus = record {
  look = look;
  fetched = λ sub dev s. refl;
  got = λ sub dev c s. refl;
  imu_busy = λ sub m s room h. ap (look sub) (offer-refused (has_room s) s (with_imu m s) h);
  imu_taken = λ sub m s h. ap (look sub) (offer-taken (has_room s) s (with_imu m s) h);
  baro_busy = λ sub m s room h. ap (look sub) (offer-refused (has_room s) s (with_baro m s) h);
  baro_taken = λ sub m s h. ap (look sub) (offer-taken (has_room s) s (with_baro m s) h);
  notify = λ sub c s. told c s sub;
  wait_empty = λ sub s e. ap (oldest sub s) e;
  wait_oldest = λ sub s c cs e. (
    record s { queue = change sub cs s.queue },
    ap (oldest sub s) e,
    ap (λ q. record (look sub s) { queue = q }) (change-same sub cs s.queue),
    λ other d. ap (λ q. record (look other s) { queue = q }) (change-other sub other cs s.queue d),
  );
  imu_read = λ sub s h. refl;
  imu_read_quiet = λ sub s. refl;
  baro_read = λ sub s h. refl;
  baro_read_quiet = λ sub s. refl;
}

abbrev pub still : IsStill board bus
still = record { toggled = λ sub s. refl; slept = λ sub ms s. refl }

abbrev pub in_time : ReadsInTime zbus
in_time = record { imu_in_time = λ s. refl; baro_in_time = λ s. refl }

abbrev pub blank : Desk
blank = record {
  imus = [];
  imu_now = record {
    timestamp_us = 0;
    temperature_degc = 0;
    accel_x = 0;
    accel_y = 0;
    accel_z = 0;
    gyro_x = 0;
    gyro_y = 0;
    gyro_z = 0;
  };
  baros = [];
  baro_now = record { timestamp_us = 0; temperature_degc = 0; pressure_kpa = 0 };
  queue = λ sub. [];
}

-- The clock of the board.
abbrev ticks : Desk → ℕ
ticks s = length s.imus + length s.baros

offer-later : (r : Bool) (s s' : Desk) → ticks s ≤ ticks s' → ticks s ≤ ticks (offer r s s').1
offer-later true s s' h = h
offer-later false s s' h = omega arith

pub imu_later : (m : Imu6dofData) (s : Desk) → ticks s ≤ ticks (drivers.imu_chan_pub m s).1
imu_later m s =
    offer-later (has_room s) s (with_imu m s) (omega (arith, length-append s.imus (m ∷ [])))

pub baro_later : (m : BaroData) (s : Desk) → ticks s ≤ ticks (drivers.baro_chan_pub m s).1
baro_later m s =
    offer-later (has_room s) s (with_baro m s) (omega (arith, length-append s.baros (m ∷ [])))

abbrev ticks_after : Option (ℤ × Chan × Desk) → ℕ
ticks_after none = 0
ticks_after (some (ret, c, s)) = ticks s

pub wait_later :
    (sub : Sub) (s : Desk) (q : List Chan) (s' : Desk) (ret : ℤ) (c : Chan)
    → oldest sub s q ≡ some (ret, c, s')
    → ticks s ≤ ticks s'
wait_later sub s [] s' ret c e = absurd (ground (arith, e))
wait_later sub s (d ∷ q) s' ret c e = let same = ap ticks_after e in omega (arith, same)
