-- ===== src/App/Startup/Prepared.antt =====
-- What the part of `main` before the threads may change.
use efc.Common.{
  ℕ, ◌≡◌, refl, ◌∙◌, Option, none, some, Bool, not, ℤ, is_negative, Bool-cases, inl, inr,
}
use efc.Common.Exec.{Result, ok, err, pure, raise, ◌>>=◌, >>=-ok, >>=-err}
use efc.App.Boot.{IsNvs, nvs_boot_count_id}
use efc.App.Logger.{PrimaryImu, mpu6050, icm42688p}
use efc.App.Startup.{
  Board, NvsFs, Config, Stop, Thread, is_nonzero, storage, led_not_configured, Firmware, Main,
  require, attempt, enable_usb_device_next, enable_usb, device_ready, configure_led, select_imu,
  mount_card, find_flash, size_sectors, mount_nvs, prepare,
}

-- No call but those of the storage itself touches the item of the boot count.
pub record IsApart (b : Board) (flash : IsNvs (storage b)) : Type 0 where
  pub usb :
      (s : b.drivers.State)
      → flash.stored (b.usb_enable s).1 nvs_boot_count_id ≡ flash.stored s nvs_boot_count_id
  pub usbd_init :
      (s : b.drivers.State)
      → flash.stored (b.sample_usbd_init_device s).1 nvs_boot_count_id
        ≡ flash.stored s nvs_boot_count_id
  pub usbd :
      (s : b.drivers.State)
      → flash.stored (b.usbd_enable s).1 nvs_boot_count_id ≡ flash.stored s nvs_boot_count_id
  pub pin :
      (s : b.drivers.State)
      → flash.stored (b.gpio_pin_configure_dt s).1 nvs_boot_count_id
        ≡ flash.stored s nvs_boot_count_id
  pub trigger :
      (dev : b.drivers.Device) (s : b.drivers.State)
      → flash.stored (b.sensor_trigger_set dev s).1 nvs_boot_count_id
        ≡ flash.stored s nvs_boot_count_id
  pub card :
      (s : b.drivers.State)
      → flash.stored (b.fs_mount s).1 nvs_boot_count_id ≡ flash.stored s nvs_boot_count_id
  pub pages :
      (dev : b.drivers.Device) (offset : ℕ) (s : b.drivers.State)
      → flash.stored (b.flash_get_page_info_by_offs dev offset s).2 nvs_boot_count_id
        ≡ flash.stored s nvs_boot_count_id
  pub mount :
      (fs : NvsFs b.drivers.Device) (s : b.drivers.State)
      → flash.stored (b.nvs_mount fs s).1 nvs_boot_count_id ≡ flash.stored s nvs_boot_count_id
  pub pipe :
      (s : b.drivers.State)
      → flash.stored (b.k_pipe_init s) nvs_boot_count_id ≡ flash.stored s nvs_boot_count_id
  pub thread :
      (t : Thread) (priority : ℤ) (s : b.drivers.State)
      → flash.stored (b.k_thread_create t priority s) nvs_boot_count_id
        ≡ flash.stored s nvs_boot_count_id

module _ {b : Board} (flash : IsNvs (storage b)) where
  -- Neither a thread nor the count of boots is different.
  pub record Unstarted (w w' : Firmware b) : Type 0 where
    pub threads : w'.threads ≡ w.threads
    pub boot_count : w'.boot_count ≡ w.boot_count
    pub item : flash.stored w'.io nvs_boot_count_id ≡ flash.stored w.io nvs_boot_count_id

  pub record Keeps {A : Type 0} (m : Main b A) : Type 0 where
    pub keeps : (w : Firmware b) → Unstarted w (m w).1

  Unstarted-trans : {u v w : Firmware b} → Unstarted u v → Unstarted v w → Unstarted u w
  Unstarted-trans p q = record {
    threads = q.threads ∙ p.threads;
    boot_count = q.boot_count ∙ p.boot_count;
    item = q.item ∙ p.item;
  }

  bind-Keeps :
      {A B : Type 0} (m : Main b A) (f : A → Main b B)
      → Keeps m
      → ((a : A) → Keeps (f a))
      → (w : Firmware b) (r : Result Stop A) → (m w).0 ≡ r
      → Unstarted w ((m >>= f) w).1
  bind-Keeps m f k h w (ok a) e =
      rw (>>=-ok m f w e) (Unstarted-trans (k.keeps w) ((h a).keeps (m w).1))
  bind-Keeps m f k h w (err stop) e = rw (>>=-err m f w e) (k.keeps w)

  pub >>=-Keeps :
      {A B : Type 0} (m : Main b A) (f : A → Main b B)
      → Keeps m
      → ((a : A) → Keeps (f a))
      → Keeps (m >>= f)
  >>=-Keeps m f k h = record { keeps = λ w. bind-Keeps m f k h w (m w).0 refl }

  pure-Keeps : {A : Type 0} (a : A) → Keeps (pure a)
  unfolding pure
  pure-Keeps a = record { keeps = λ w. record { threads = refl; boot_count = refl; item = refl } }

  module _ (apart : IsApart b flash) where
    require-Keeps : (test : Bool) (stop : Stop) → Keeps (require b test stop)
    unfolding require
    require-Keeps test stop = record {
      keeps = λ w. record { threads = refl; boot_count = refl; item = refl };
    }

    attempt-Keeps :
        (fails : ℤ → Bool) (call : b.drivers.State → ℤ × b.drivers.State) (stop : Stop)
        → ((s : b.drivers.State)
            → flash.stored (call s).1 nvs_boot_count_id ≡ flash.stored s nvs_boot_count_id)
        → Keeps (attempt b fails call stop)
    unfolding attempt
    attempt-Keeps fails call stop h = record {
      keeps = λ w. record { threads = refl; boot_count = refl; item = h w.io };
    }

    enable_usb_device_next-Keeps : Keeps (enable_usb_device_next b)
    unfolding enable_usb_device_next attempt
    enable_usb_device_next-Keeps = record {
      keeps = λ w. elim (Bool-cases (b.sample_usbd_init_device w.io).0) [
        | inl e ↦ rw e (record {
          threads = refl;
          boot_count = refl;
          item = apart.usbd (b.sample_usbd_init_device w.io).1 ∙ apart.usbd_init w.io;
        })
        | inr e ↦ rw e (record { threads = refl; boot_count = refl; item = apart.usbd_init w.io })
      ];
    }

    pub usb-Keeps : (cfg : Config) → Keeps (enable_usb b cfg)
    unfolding enable_usb
    usb-Keeps cfg = elim (Bool-cases (not cfg.console_is_cdc_acm)) [
      | inl e ↦ rw e (pure-Keeps tt)
      | inr e ↦ rw e (elim (Bool-cases cfg.usb_device_stack_next) [
        | inl n ↦ rw n enable_usb_device_next-Keeps
        | inr n ↦ rw n (attempt-Keeps is_nonzero b.usb_enable _ apart.usb)
      ])
    ]

    led-Keeps : Keeps (configure_led b)
    unfolding configure_led
    led-Keeps = record {
      keeps = λ w. elim (Bool-cases (b.gpio_is_ready_dt w.io)) [
        | inl e ↦ rw e (
            (attempt-Keeps is_negative b.gpio_pin_configure_dt led_not_configured apart.pin).keeps
              w)
        | inr e ↦ rw e (record { threads = refl; boot_count = refl; item = refl })
      ];
    }

    imu-Keeps : (cfg : Config) (choice : Option PrimaryImu) → Keeps (select_imu b cfg choice)
    unfolding select_imu raise
    imu-Keeps cfg none = record {
      keeps = λ w. record { threads = refl; boot_count = refl; item = refl };
    }
    imu-Keeps cfg (some mpu6050) = pure-Keeps _
    imu-Keeps cfg (some icm42688p) = elim (Bool-cases cfg.icm4268x_trigger) [
      | inl e ↦
          rw e
            (>>=-Keeps _ _ (attempt-Keeps is_negative _ _ (apart.trigger _)) (λ done. pure-Keeps _))
      | inr e ↦ rw e (pure-Keeps _)
    ]

    ready-Keeps : (dev : b.drivers.Device) (stop : Stop) → Keeps (device_ready b dev stop)
    unfolding device_ready
    ready-Keeps dev stop = record {
      keeps = λ w. (require-Keeps (b.device_is_ready dev w.io) stop).keeps w;
    }

    card-Keeps : Keeps (mount_card b)
    unfolding mount_card
    card-Keeps = record {
      keeps = λ w. record { threads = refl; boot_count = refl; item = apart.card w.io };
    }

    pub flash-Keeps : Keeps (find_flash b)
    unfolding find_flash device_ready require
    flash-Keeps = record { keeps = λ w. record { threads = refl; boot_count = refl; item = refl } }

    pub sectors-Keeps : (count : ℕ) → Keeps (size_sectors b count)
    unfolding size_sectors
    sectors-Keeps count = record {
      keeps = λ w.
          let pages = apart.pages b.spiflash_partition0 b.spiflash_partition0_offset w.io in
          elim (Bool-cases (
            is_nonzero
              (b.flash_get_page_info_by_offs b.spiflash_partition0 b.spiflash_partition0_offset
                w.io).0)) [
                  | inl e ↦ rw e (record { threads = refl; boot_count = refl; item = pages })
                  | inr e ↦ rw e (record { threads = refl; boot_count = refl; item = pages })
                ];
    }

    pub nvs-Keeps : Keeps (mount_nvs b)
    unfolding mount_nvs attempt
    nvs-Keeps = record {
      keeps = λ w. record { threads = refl; boot_count = refl; item = apart.mount w.nvs w.io };
    }

    -- Neither the threads nor the count of boots, in memory or stored, is changed before the
    -- threads are started.
    pub prepare-Keeps : (cfg : Config) → Keeps (prepare b cfg)
    unfolding prepare
    prepare-Keeps cfg = >>=-Keeps _ _ (usb-Keeps cfg) (λ enabled. >>=-Keeps _ _ led-Keeps (λ lit.
        >>=-Keeps _ _ (imu-Keeps cfg cfg.primary_imu) (λ imu.
          >>=-Keeps _ _ (ready-Keeps imu.0 _) (λ imu_is_ready.
            >>=-Keeps _ _ (ready-Keeps b.bosch_bme280 _) (λ baro_is_ready.
              >>=-Keeps _ _ card-Keeps (λ card_done. >>=-Keeps _ _ flash-Keeps (λ flash_found.
                >>=-Keeps _ _ (sectors-Keeps _)
                  (λ sized. >>=-Keeps _ _ nvs-Keeps (λ mounted. pure-Keeps imu)))))))))
