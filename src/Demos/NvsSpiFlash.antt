-- ===== src/Demos/NvsSpiFlash.antt =====
-- demos/nvs-spi-flash/src/main.c: a counter of boots in the storage of the firmware. USB and the flash
-- are prepared by the same code as in app/src/main.c.
pub mod Counts
mod Examples
use efc.Common.{
  ℕ, zero, suc, ◌+◌, ◌%◌, ◌^◌, Bool, true, false, ℤ, pos, negsuc, le_bytes, of_le, if◌then◌else◌,
}
use efc.Common.Exec.{ok, Exec, pure, ◌>>=◌, ◌>>◌}
use efc.App.Boot.{Nvs}
use efc.App.Startup.{
  Board, Config, Firmware, Main, storage, enable_usb, find_flash, size_sectors, mount_nvs, sleep,
}

-- `BOOT_COUNT_ID`
abbrev pub boot_count_id : ℕ
boot_count_id = 1

-- `NVS_SECTOR_COUNT`
abbrev pub sector_count : ℕ
sector_count = 3

-- `DEMO_SLEEP_TIME_MS`
abbrev pub demo_sleep_time_ms : ℕ
demo_sleep_time_ms = 100

-- `ret > 0`
abbrev pub is_positive : ℤ → Bool
is_positive (pos zero) = false
is_positive (pos (suc n)) = true
is_positive (negsuc n) = false

-- `if (ret > 0) boot_cnt++;`, an `int32_t` kept as its bit pattern
abbrev pub counted : ℤ → ℕ → ℕ
counted ret boot_cnt = if is_positive ret then (boot_cnt + 1) % 2 ^ 32 else boot_cnt

-- A failed write is only reported.
unfoldable pub nvs_update_boot_count : (os : Nvs) → os.State → os.State
nvs_update_boot_count os nvs =
    let (ret, buffer) = os.nvs_read boot_count_id 4 (le_bytes 4 0) nvs in
    (os.nvs_write boot_count_id (le_bytes 4 (counted ret (of_le buffer))) nvs).1

module _ (b : Board) where
  unfoldable pub count_boot : Main b Unit
  count_boot w = (ok tt, record w { io = nvs_update_boot_count (storage b) w.io })

  -- As many rounds of the endless loop as given.
  unfoldable pub sleeps : ℕ → Main b Unit
  sleeps zero = pure tt
  sleeps (suc n) = do sleep b demo_sleep_time_ms; sleeps n

  -- All that may end `main`.
  unfoldable pub prepare : Config → Main b Unit
  prepare cfg = do enable_usb b cfg; find_flash b; size_sectors b sector_count; mount_nvs b

  -- `main`, for that many rounds of its loop.
  unfoldable pub main : Config → ℕ → Main b Unit
  main cfg n = do prepare cfg; count_boot; sleeps n
