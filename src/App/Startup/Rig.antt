-- ===== src/App/Startup/Rig.antt =====
-- A board in memory, with all of Zephyr as `main` expects it.
use efc.Common.{
  ℕ, ◌≡◌, refl, List, [], ◌∷◌, ◌++◌, Option, none, some, true, false, ◌==◌, ℤ, pos, negsuc,
  is_negative, arith, length, take, take-length, if◌then◌else◌,
}
use efc.App.Boot.{IsNvs}
use efc.App.Boot.Counts.{NeverFails}
use efc.App.Logger.{Imu6dofData, BaroData, mpu6050}
use efc.App.Sensors.{Drivers}
use efc.App.Sensors.Stamps.{IsBus}
use efc.App.Sensors.Channels.{Works}
use efc.App.Startup.{Board, Config, storage}
use efc.App.Startup.Prepared.{IsApart}
use efc.App.Startup.Loop.{IsLoop}
use efc.App.Startup.Ready.{IsReady}

pub record Rig : Type 0 where
  pub items : ℕ → Option (List ℕ)
  pub imu : List Imu6dofData
  pub baro : List BaroData

abbrev pub drivers : Drivers
drivers = record {
  State = Rig;
  SensorValue = ℕ;
  Device = ℕ;
  sensor_sample_fetch = λ dev s. (pos 0, s);
  sensor_channel_get = λ dev c s. (pos 0, record { x = 1; y = 2; z = 3 }, s);
  sensor_value_to_float = λ v. v;
  k_uptime_get = λ s. length s.baro;
  imu_chan_pub = λ m s. (pos 0, record s { imu = s.imu ++ m ∷ [] });
  baro_chan_pub = λ m s. (pos 0, record s { baro = s.baro ++ m ∷ [] });
}

abbrev pub read_item : Option (List ℕ) → ℕ → List ℕ → ℤ × List ℕ
read_item none n old = (negsuc 1, old)
read_item (some bs) n old = (pos (length bs), take n bs)

abbrev pub board : Board
board = record {
  drivers = drivers;
  usb_enable = λ s. (pos 0, s);
  sample_usbd_init_device = λ s. (true, s);
  usbd_enable = λ s. (pos 0, s);
  gpio_is_ready_dt = λ s. true;
  gpio_pin_configure_dt = λ s. (pos 0, s);
  gpio_pin_toggle_dt = λ s. (pos 0, s);
  sensor_trigger_set = λ dev s. (pos 0, s);
  device_is_ready = λ dev s. true;
  fs_mount = λ s. (negsuc 4, s);
  flash_get_page_info_by_offs = λ dev offset s. (pos 0, 4096, s);
  nvs_mount = λ fs s. (pos 0, s);
  nvs_read = λ id n old s. read_item (s.items id) n old;
  nvs_write = λ id bs s.
      (pos (length bs), record s { items = λ id'. if id' == id then some bs else s.items id' });
  k_pipe_init = λ s. s;
  k_thread_create = λ thread priority s. s;
  k_msleep = λ ms s. s;
  imu_node = λ choice. 7;
  bosch_bme280 = 8;
  spiflash_partition0 = 9;
  spiflash_partition0_offset = 0;
  k_lowest_application_thread_prio = 14;
}

pub written : (id : ℕ) (bs : List ℕ) (s : Rig) → (board.nvs_write id bs s).1.items id ≡ some bs
written id bs s = ground arith

pub refused :
    (id : ℕ) (bs : List ℕ) (s : Rig)
    → is_negative (board.nvs_write id bs s).0 ≡ true
    → (board.nvs_write id bs s).1.items id ≡ s.items id
refused id bs s h = ground arith

pub found :
    (id : ℕ) (bs old : List ℕ) (s : Rig)
    → s.items id ≡ some bs
    → read_item (s.items id) (length bs) old ≡ (pos (length bs), bs)
found id bs old s e = rw (e, take-length bs) refl

pub missing :
    (id n : ℕ) (old : List ℕ) (s : Rig)
    → s.items id ≡ none
    → is_negative (read_item (s.items id) n old).0 ≡ true
missing id n old s e = rw e refl

abbrev pub flash : IsNvs (storage board)
flash = record {
  stored = λ s id. s.items id;
  write_stores = λ id bs s h. written id bs s;
  write_fails = refused;
  read_stored = found;
  read_missing = missing;
}

abbrev pub apart : IsApart board flash
apart = record {
  usb = λ s. refl;
  usbd_init = λ s. refl;
  usbd = λ s. refl;
  pin = λ s. refl;
  trigger = λ dev s. refl;
  card = λ s. refl;
  pages = λ dev offset s. refl;
  mount = λ fs s. refl;
  pipe = λ s. refl;
  thread = λ t priority s. refl;
}

abbrev pub reliable : NeverFails (storage board)
reliable = record { writes = λ id bs s. refl }

pub lost_never : is_negative (pos 0) ≡ true → ⊥
lost_never h = ground (arith, h)

abbrev pub bus : IsBus drivers
bus = record {
  imu = λ s. s.imu;
  baro = λ s. s.baro;
  fetch_quiet = λ dev s. (refl, refl);
  get_quiet = λ dev c s. (refl, refl);
  imu_taken = λ m s h. refl;
  imu_lost = λ m s h. absurd (lost_never h);
  baro_taken = λ m s h. refl;
  baro_lost = λ m s h. absurd (lost_never h);
  imu_elsewhere = λ m s. refl;
  baro_elsewhere = λ m s. refl;
}

abbrev pub loop : IsLoop board bus
loop = record {
  toggles = λ s. refl;
  toggle_quiet = λ s. (refl, refl);
  sleep_quiet = λ ms s. (refl, refl);
}

abbrev pub works : Works drivers
works = record {
  fetches = λ dev s. refl;
  gets = λ dev c s. refl;
  takes_imu = λ m s. refl;
  takes_baro = λ m s. refl;
}

abbrev pub ready : IsReady board
ready = record {
  usb = λ s. refl;
  usbd_init = λ s. refl;
  usbd = λ s. refl;
  pin = λ s. refl;
  configured = λ s. refl;
  trigger = λ dev s. refl;
  devices = λ dev s. refl;
  pages = λ dev offset s. refl;
  mounts = λ fs s. refl;
}

abbrev pub polled : Config
polled = record {
  console_is_cdc_acm = true;
  usb_device_stack_next = false;
  primary_imu = some mpu6050;
  icm4268x_trigger = true;
}

-- Without an IMU the boot stops.
abbrev pub headless : Config
headless = record polled { primary_imu = none }

abbrev pub blank : Rig
blank = record { items = λ id. none; imu = []; baro = [] }
