-- ===== src/App/Startup.antt =====
-- `main` of app/src/main.c: the checks of the devices, the storage, the start of the threads, and the
-- loop. Zephyr, the devices and their nodes in the device tree are parameters.
pub mod Prepared
pub mod Boots
pub mod Logs
pub mod Loop
pub mod Ready
pub mod Rig
mod Examples
use efc.Common.{
  ℕ, zero, suc, negsuc, leb, ◌-◌, ◌%◌, ◌^◌, ◌≡◌, List, [], ◌∷◌, ◌++◌, Option, none, some, Bool,
  true, false, not, ◌&&◌, ℤ, pos, is_negative, if◌then◌else◌,
}
use efc.Common.Exec.{Result, ok, err, Exec, pure, raise, ◌>>=◌, ◌>>◌}
use efc.App.Boot.{Nvs, Boot, update_boot_count}
use efc.App.Logger.{PrimaryImu, mpu6050, icm42688p}
use efc.App.Sensors.{Drivers, process_imu, process_baro}

-- The four threads.
pub data Thread : Type 0 where
  radio telemetry_sender telemetry_packer logger : Thread

-- `struct nvs_fs`, but for its own state
pub record NvsFs (Device : Type 0) : Type 0 where
  pub flash_device : Option Device
  pub offset : ℕ
  pub sector_size : ℕ
  pub sector_count : ℕ

pub record Board : Type 1 where
  pub drivers : Drivers
  pub usb_enable : drivers.State → ℤ × drivers.State
  -- false for NULL
  pub sample_usbd_init_device : drivers.State → Bool × drivers.State
  pub usbd_enable : drivers.State → ℤ × drivers.State
  pub gpio_is_ready_dt : drivers.State → Bool
  pub gpio_pin_configure_dt : drivers.State → ℤ × drivers.State
  pub gpio_pin_toggle_dt : drivers.State → ℤ × drivers.State
  pub sensor_trigger_set : drivers.Device → drivers.State → ℤ × drivers.State
  pub device_is_ready : drivers.Device → drivers.State → Bool
  pub fs_mount : drivers.State → ℤ × drivers.State
  -- the result and `nvs_info.size`
  pub flash_get_page_info_by_offs : drivers.Device → ℕ → drivers.State → ℤ × ℕ × drivers.State
  pub nvs_mount : NvsFs drivers.Device → drivers.State → ℤ × drivers.State
  pub nvs_read : ℕ → ℕ → List ℕ → drivers.State → ℤ × List ℕ
  pub nvs_write : ℕ → List ℕ → drivers.State → ℤ × drivers.State
  pub k_pipe_init : drivers.State → drivers.State
  pub k_thread_create : Thread → ℤ → drivers.State → drivers.State
  pub k_msleep : ℕ → drivers.State → drivers.State
  pub imu_node : PrimaryImu → drivers.Device
  pub bosch_bme280 : drivers.Device
  pub spiflash_partition0 : drivers.Device
  pub spiflash_partition0_offset : ℕ
  pub k_lowest_application_thread_prio : ℕ

-- The device tree's choice of a console, and the Kconfig options; no primary IMU may be selected.
pub record Config : Type 0 where
  pub console_is_cdc_acm : Bool
  pub usb_device_stack_next : Bool
  pub primary_imu : Option PrimaryImu
  pub icm4268x_trigger : Bool

-- Where `main` returns, by what it reports.
pub data Stop : Type 0 where
  usb_failed led_not_ready led_not_configured trigger_not_configured imu_not_selected : Stop
  imu_not_ready baro_not_ready flash_not_ready no_page_info nvs_failed led_not_toggled : Stop

-- A round of the loop, or an interrupt of the IMU.
pub data Turn : Type 0 where
  loop_round data_ready : Turn

-- `NVS_SECTOR_COUNT`
abbrev pub nvs_sector_count : ℕ
nvs_sector_count = 4

-- `if (ret < 0)` and `if (ret)`, for a call whose failure ends `main`
abbrev pub is_nonzero : ℤ → Bool
is_nonzero (pos ℕ.zero) = false
is_nonzero _ = true

-- `n - k`, which may be negative
infix 65 ◌less◌
abbrev pub ◌less◌ : ℕ → ℕ → ℤ
n less k = if leb k n then pos (n - k) else negsuc (k - n - 1)

module _ (b : Board) where
  open b use {drivers}

  -- The storage that `update_boot_count` works on.
  abbrev pub storage : Nvs
  storage = record { State = drivers.State; nvs_read = b.nvs_read; nvs_write = b.nvs_write }

  -- The globals of main.c: `boot_count`, `nvs`, and the thread objects that are in use with their
  -- priorities, in the order of their creation; and everything outside.
  pub record Firmware : Type 0 where
    pub boot_count : ℕ
    pub nvs : NvsFs drivers.Device
    pub threads : List (Thread × ℤ)
    pub io : drivers.State

  abbrev pub Main : Type 0 → Type 0
  Main A = Exec Firmware Stop A

  unfoldable pub require : Bool → Stop → Main Unit
  require test stop w = (if test then ok tt else err stop, w)

  -- A call that changes what is outside, and ends `main` if it fails.
  unfoldable pub attempt : (ℤ → Bool) → (drivers.State → ℤ × drivers.State) → Stop → Main Unit
  attempt fails call stop w =
      let (ret, io') = call w.io in (if fails ret then err stop else ok tt, record w { io = io' })

  -- `enable_usb_device_next`
  unfoldable pub enable_usb_device_next : Main Unit
  enable_usb_device_next w =
      let (found, io') = b.sample_usbd_init_device w.io in
      if found
      then attempt is_nonzero b.usbd_enable usb_failed (record w { io = io' })
      else (err usb_failed, record w { io = io' })

  unfoldable pub enable_usb : Config → Main Unit
  unfolding enable_usb_device_next attempt pure
  enable_usb cfg =
      if not cfg.console_is_cdc_acm
      then pure tt
      else if cfg.usb_device_stack_next
      then enable_usb_device_next
      else attempt is_nonzero b.usb_enable usb_failed

  unfoldable pub device_ready : drivers.Device → Stop → Main Unit
  unfolding require
  device_ready dev stop w = require (b.device_is_ready dev w.io) stop w

  unfoldable pub configure_led : Main Unit
  unfolding attempt require
  configure_led w =
      if b.gpio_is_ready_dt w.io
      then attempt is_negative b.gpio_pin_configure_dt led_not_configured w
      else (err led_not_ready, w)

  -- The IMU's device and `main_imu_using_trigger`.
  unfoldable pub select_imu : Config → Option PrimaryImu → Main (drivers.Device × Bool)
  unfolding attempt pure raise
  select_imu cfg none = raise imu_not_selected
  select_imu cfg (some mpu6050) = pure (b.imu_node mpu6050, false)
  select_imu cfg (some icm42688p) =
      if cfg.icm4268x_trigger
      then attempt is_negative (b.sensor_trigger_set (b.imu_node icm42688p)) trigger_not_configured
        >> pure (b.imu_node icm42688p, true)
      else pure (b.imu_node icm42688p, false)

  -- `fs_mount`, whose failure is only reported
  unfoldable pub mount_card : Main Unit
  mount_card w = (ok tt, record w { io = (b.fs_mount w.io).1 })

  -- `nvs.flash_device = ...; if (!device_is_ready(nvs.flash_device))`
  unfoldable pub find_flash : Main Unit
  unfolding device_ready
  find_flash w =
      device_ready b.spiflash_partition0 flash_not_ready
        (record w { nvs = record w.nvs { flash_device = some b.spiflash_partition0 } })

  -- `nvs.offset`, the information on the pages and `nvs.sector_size`, a `uint16_t`
  unfoldable pub size_sectors : ℕ → Main Unit
  size_sectors count w =
      let (ret, size, io') =
        b.flash_get_page_info_by_offs b.spiflash_partition0 b.spiflash_partition0_offset w.io in
      let nvs' = record w.nvs { offset = b.spiflash_partition0_offset } in
      if is_nonzero ret then (err no_page_info, record w { io = io'; nvs = nvs' }) else (
        ok tt,
        record w {
          io = io';
          nvs = record nvs' { sector_size = size % 2 ^ 16; sector_count = count };
        },
      )

  unfoldable pub mount_nvs : Main Unit
  unfolding attempt
  mount_nvs w = attempt is_nonzero (b.nvs_mount w.nvs) nvs_failed w

  -- All that may end `main` before its threads start.
  unfoldable pub prepare : Config → Main (drivers.Device × Bool)
  prepare cfg = do
    enable_usb cfg
    configure_led
    imu ← select_imu cfg cfg.primary_imu
    device_ready imu.0 imu_not_ready
    device_ready b.bosch_bme280 baro_not_ready
    mount_card
    find_flash
    size_sectors nvs_sector_count
    mount_nvs
    pure imu

  -- `update_boot_count(&nvs)`, whose failure is only reported
  unfoldable pub count_boot : Main Unit
  count_boot w =
      let counted =
        (update_boot_count storage (record { boot_count = w.boot_count; nvs = w.io })).1 in
      (ok tt, record w { boot_count = counted.boot_count; io = counted.nvs })

  unfoldable pub create_thread : Thread → ℤ → Main Unit
  create_thread thread priority w = (
    ok tt,
    record w {
      threads = w.threads ++ (thread, priority) ∷ [];
      io = b.k_thread_create thread priority w.io;
    },
  )

  unfoldable pub launch : Main Unit
  unfolding count_boot create_thread
  launch = do
    count_boot
    (λ w. (ok tt, record w { io = b.k_pipe_init w.io }))
    create_thread radio (pos 0)
    create_thread telemetry_sender (b.k_lowest_application_thread_prio less 2)
    create_thread telemetry_packer (b.k_lowest_application_thread_prio less 1)
    create_thread logger (b.k_lowest_application_thread_prio less 0)

  -- What is before the loop.
  unfoldable pub start : Config → Main (drivers.Device × Bool)
  start cfg = do imu ← prepare cfg; launch; pure imu

  -- A sample, whose failure is not looked at.
  unfoldable pub sample : Exec drivers.State ℤ Unit → Main Unit
  sample process w = (ok tt, record w { io = (process w.io).1 })

  unfoldable pub handle_icm42688p_drdy : drivers.Device → Main Unit
  unfolding sample
  handle_icm42688p_drdy dev = sample (process_imu drivers dev)

  unfoldable pub sleep : ℕ → Main Unit
  sleep ms w = (ok tt, record w { io = b.k_msleep ms w.io })

  -- The body of the loop.
  unfoldable pub round : drivers.Device → Bool → Main Unit
  unfolding attempt sample sleep
  round main_imu using_trigger = do
    attempt is_negative b.gpio_pin_toggle_dt led_not_toggled
    (if using_trigger then pure tt else sample (process_imu drivers main_imu))
    sample (process_baro drivers b.bosch_bme280)
    sleep 1000

  -- As many rounds of the endless loop as given.
  unfoldable pub rounds : ℕ → drivers.Device → Bool → Main Unit
  rounds zero main_imu using_trigger = pure tt
  rounds (suc n) main_imu using_trigger = do
    round main_imu using_trigger
    rounds n main_imu using_trigger

  -- The loop of an IMU with a trigger, and the handler that the driver calls, in any order.
  unfoldable pub turns : List Turn → drivers.Device → Main Unit
  turns [] main_imu = pure tt
  turns (loop_round ∷ ts) main_imu = do round main_imu true; turns ts main_imu
  turns (data_ready ∷ ts) main_imu = do handle_icm42688p_drdy main_imu; turns ts main_imu

  -- `main`, for that many rounds.
  unfoldable pub main : Config → ℕ → Main Unit
  main cfg n = do imu ← start cfg; rounds n imu.0 imu.1
