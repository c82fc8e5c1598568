-- ===== src/App/Startup/Ready.antt =====
-- `main` when every device is there and every call succeeds.
use mathlib.Core.Path.{subst}
use efc.Common.{sym, ℕ, ◌+◌, ◌≡◌, refl, some, Bool, true, false, is_negative, arith, length, ℤ}
use efc.Common.Exec.{ok, pure, ◌>>=◌, >>=-ok}
use efc.App.Logger.{PrimaryImu, mpu6050, icm42688p}
use efc.App.Sensors.Stamps.{IsBus}
use efc.App.Sensors.Channels.{Works}
use efc.App.Startup.{
  Board, NvsFs, Config, Stop, is_nonzero, led_not_configured, Firmware, Main, require, attempt,
  enable_usb_device_next, enable_usb, device_ready, configure_led, select_imu, mount_card,
  find_flash, size_sectors, mount_nvs, prepare, count_boot, create_thread, launch, start, main,
}
use efc.App.Startup.Loop.{IsLoop, imu_rounds, rounds_publish}

pub record IsReady (b : Board) : Type 0 where
  pub usb : (s : b.drivers.State) → is_nonzero (b.usb_enable s).0 ≡ false
  pub usbd_init : (s : b.drivers.State) → (b.sample_usbd_init_device s).0 ≡ true
  pub usbd : (s : b.drivers.State) → is_nonzero (b.usbd_enable s).0 ≡ false
  pub pin : (s : b.drivers.State) → b.gpio_is_ready_dt s ≡ true
  pub configured : (s : b.drivers.State) → is_negative (b.gpio_pin_configure_dt s).0 ≡ false
  pub trigger :
      (dev : b.drivers.Device) (s : b.drivers.State)
      → is_negative (b.sensor_trigger_set dev s).0 ≡ false
  pub devices : (dev : b.drivers.Device) (s : b.drivers.State) → b.device_is_ready dev s ≡ true
  pub pages :
      (dev : b.drivers.Device) (offset : ℕ) (s : b.drivers.State)
      → is_nonzero (b.flash_get_page_info_by_offs dev offset s).0 ≡ false
  pub mounts :
      (fs : NvsFs b.drivers.Device) (s : b.drivers.State) → is_nonzero (b.nvs_mount fs s).0 ≡ false

-- `main_imu_using_trigger` by the configuration
unfoldable pub uses_trigger : Config → PrimaryImu → Bool
uses_trigger cfg mpu6050 = false
uses_trigger cfg icm42688p = cfg.icm4268x_trigger

module _ {b : Board} (ready : IsReady b) where
  abbrev Gives : {A : Type 0} → Main b A → A → Type 0
  Gives m a = (w : Firmware b) → (m w).0 ≡ ok a

  >>=-Gives :
      {A B : Type 0} (m : Main b A) (f : A → Main b B) (a : A) (c : B)
      → Gives m a
      → Gives (f a) c
      → Gives (m >>= f) c
  >>=-Gives m f a c h k w = rw (>>=-ok m f w (h w)) (k (m w).1)

  attempt-Gives :
      (fails : ℤ → Bool) (call : b.drivers.State → ℤ × b.drivers.State) (stop : Stop)
      → ((s : b.drivers.State) → fails (call s).0 ≡ false)
      → Gives (attempt b fails call stop) tt
  unfolding attempt
  attempt-Gives fails call stop h w = rw (h w.io) refl

  usb-Gives : (cfg : Config) → Gives (enable_usb b cfg) tt
  unfolding enable_usb enable_usb_device_next attempt pure
  usb-Gives cfg w =
      ground
        (arith, ready.usb w.io, ready.usbd_init w.io, ready.usbd (b.sample_usbd_init_device w.io).1)

  led-Gives : Gives (configure_led b) tt
  unfolding configure_led
  led-Gives w =
      rw (ready.pin w.io)
        (attempt-Gives is_negative b.gpio_pin_configure_dt led_not_configured ready.configured w)

  imu-Gives :
      (cfg : Config) (choice : PrimaryImu)
      → Gives (select_imu b cfg (some choice)) (b.imu_node choice, uses_trigger cfg choice)
  unfolding select_imu uses_trigger pure attempt ◌>>=◌
  imu-Gives cfg mpu6050 w = refl
  imu-Gives cfg icm42688p w = ground (arith, ready.trigger (b.imu_node icm42688p) w.io)

  ready-Gives : (dev : b.drivers.Device) (stop : Stop) → Gives (device_ready b dev stop) tt
  unfolding device_ready require
  ready-Gives dev stop w = rw (ready.devices dev w.io) refl

  card-Gives : Gives (mount_card b) tt
  unfolding mount_card
  card-Gives w = refl

  flash-Gives : Gives (find_flash b) tt
  unfolding find_flash device_ready require
  flash-Gives w = rw (ready.devices b.spiflash_partition0 w.io) refl

  sectors-Gives : (count : ℕ) → Gives (size_sectors b count) tt
  unfolding size_sectors
  sectors-Gives count w =
      rw (ready.pages b.spiflash_partition0 b.spiflash_partition0_offset w.io) refl

  nvs-Gives : Gives (mount_nvs b) tt
  unfolding mount_nvs
  nvs-Gives w = attempt-Gives is_nonzero (b.nvs_mount w.nvs) _ (ready.mounts w.nvs) w

  prepare-Gives :
      (cfg : Config) (choice : PrimaryImu)
      → cfg.primary_imu ≡ some choice
      → Gives (prepare b cfg) (b.imu_node choice, uses_trigger cfg choice)
  unfolding prepare pure
  prepare-Gives cfg choice e = >>=-Gives _ _ tt _ (usb-Gives cfg) (
      >>=-Gives _ _ tt _ led-Gives (
        >>=-Gives _ _ _ _
          (subst (λ o. Gives (select_imu b cfg o) (b.imu_node choice, uses_trigger cfg choice))
            (sym e) (imu-Gives cfg choice))
          (>>=-Gives _ _ tt _ (ready-Gives (b.imu_node choice) _) (
            >>=-Gives _ _ tt _ (ready-Gives b.bosch_bme280 _) (
              >>=-Gives _ _ tt _ card-Gives (
                >>=-Gives _ _ tt _ flash-Gives (
                  >>=-Gives _ _ tt _ (sectors-Gives _)
                    (>>=-Gives _ _ tt _ nvs-Gives (λ w. refl)))))))))

  launch-Gives : Gives (launch b) tt
  unfolding launch count_boot create_thread ◌>>=◌
  launch-Gives w = refl

  start-Gives :
      (cfg : Config) (choice : PrimaryImu)
      → cfg.primary_imu ≡ some choice
      → Gives (start b cfg) (b.imu_node choice, uses_trigger cfg choice)
  unfolding start pure
  start-Gives cfg choice e =
      >>=-Gives _ _ _ _ (prepare-Gives cfg choice e) (>>=-Gives _ _ tt _ launch-Gives (λ w. refl))

  -- When every device is ready and every call of the start, the LED, the drivers and the
  -- channels succeeds, and an IMU is selected: main gets to its loop, which after any number n
  -- of rounds has not ended, has published exactly n messages of the barometer, and n of the
  -- IMU, or none if it is read by its trigger.
  pub main_lem :
      (bus : IsBus b.drivers) (cfg : Config) (choice : PrimaryImu) (n : ℕ) (w : Firmware b)
      → IsLoop b bus
      → Works b.drivers
      → cfg.primary_imu ≡ some choice
      → let begin = (start b cfg w).1.io in
        let out = main b cfg n w in
        (out.0 ≡ ok tt)
        × (length (bus.baro out.1.io) ≡ length (bus.baro begin) + n)
        × (length (bus.imu out.1.io)
            ≡ length (bus.imu begin) + imu_rounds (uses_trigger cfg choice) n)
  unfolding main
  main_lem bus cfg choice n w loop works e =
      rw (>>=-ok (start b cfg) _ w (start-Gives cfg choice e w)) (
        rounds_publish bus loop (b.imu_node choice) n (uses_trigger cfg choice) (start b cfg w).1
          works)
