-- ===== src/Demos/NvsSpiFlash/Counts.antt =====
-- The demo counts as the firmware does.
use efc.Common.{
  ℕ, zero, suc, ◌+◌, ◌%◌, ◌^◌, ◌≡◌, refl, ap, sym, ◌∙◌, List, Option, none, some, true, false, ℤ,
  pos, negsuc, is_negative, le_bytes, of_le, of_le-le_bytes, arith,
}
use efc.App.Boot.{Nvs, IsNvs, Boot, nvs_boot_count_id, update_boot_count}
use efc.App.Boot.Counts.{NeverFails, Stores}
use efc.Common.Exec.{Result, ok, err, pure, ◌>>=◌, >>=-ok, >>=-err}
use efc.App.Startup.{Board, Config, Stop, Firmware, storage, sleep}
use efc.App.Startup.Prepared.{
  IsApart, Keeps, >>=-Keeps, usb-Keeps, flash-Keeps, sectors-Keeps, nvs-Keeps,
}
use efc.App.Startup.Boots.{keeps_item, next_count, IsBelow, update_boot_count_lem}
use efc.Demos.NvsSpiFlash.{
  boot_count_id, sector_count, demo_sleep_time_ms, counted, is_positive, nvs_update_boot_count,
  count_boot, sleeps, prepare, main,
}

-- A failed read leaves the buffer as it was.
pub record LeavesBuffer (os : Nvs) : Type 0 where
  pub leaves :
      (id n : ℕ) (old : List ℕ) (s : os.State)
      → is_negative (os.nvs_read id n old s).0 ≡ true
      → (os.nvs_read id n old s).1 ≡ old

not_positive : (r : ℤ) → is_negative r ≡ true → is_positive r ≡ false
not_positive (pos zero) h = refl
not_positive (pos (suc n)) h = ground (arith, h)
not_positive (negsuc n) h = refl

module _ {os : Nvs} (flash : IsNvs os) (reliable : NeverFails os) (leaves : LeavesBuffer os) where
  -- What the demo reads, and the count that it writes.
  abbrev read : os.State → ℤ × List ℕ
  read s = os.nvs_read boot_count_id 4 (le_bytes 4 0) s

  counted_lem :
      (found : Option ℕ) (s : os.State)
      → IsBelow (2 ^ 31) found
      → Stores flash s found
      → counted (read s).0 (of_le (read s).1) ≡ next_count found
  unfolding next_count
  counted_lem none s h stored =
      let missing = flash.read_missing boot_count_id 4 (le_bytes 4 0) s stored in
      rw (not_positive (read s).0 missing, leaves.leaves boot_count_id 4 (le_bytes 4 0) s missing)
        refl
  counted_lem (some k) s h stored =
      let value : of_le (le_bytes 4 k) ≡ k = of_le-le_bytes 4 k (omega arith) in
      ap (λ r. counted r.0 (of_le r.1))
        (flash.read_stored boot_count_id (le_bytes 4 k) (le_bytes 4 0) s stored)
      ∙ ap (λ c. (c + 1) % 2 ^ 32) value
      ∙ omega arith

  -- The demo counts like update_boot_count.
  pub demo_counts :
      (found : Option ℕ) (s : os.State)
      → IsBelow (2 ^ 31) found
      → Stores flash s found
      → Stores flash (nvs_update_boot_count os s) (some (next_count found))
  unfolding nvs_update_boot_count
  demo_counts found s h stored =
      flash.write_stores boot_count_id (le_bytes 4 (counted (read s).0 (of_le (read s).1))) s
        (reliable.writes _ _ _)
      ∙ ap (λ c. some (le_bytes 4 c)) (counted_lem found s h stored)

  -- On storage as IsNvs describes it, that never refuses a write and where a failed read leaves
  -- its buffer, with the stored count missing or below 2 ^ 31 - 1: nvs_update_boot_count of the
  -- demo and update_boot_count of the firmware leave the same item in the storage.
  pub demo_is_firmware :
      (found : Option ℕ) (boot : Boot os)
      → IsBelow (2 ^ 31) found
      → Stores flash boot.nvs found
      → flash.stored (nvs_update_boot_count os boot.nvs) boot_count_id
        ≡ flash.stored (update_boot_count os boot).1.nvs nvs_boot_count_id
  demo_is_firmware found boot h stored =
      demo_counts found boot.nvs h stored
      ∙ sym (update_boot_count_lem flash reliable found boot h stored).1

-- The item after `main`: counted once if it got to its loop.
abbrev pub Counted : {os : Nvs} → IsNvs os → Result Stop Unit → Option ℕ → os.State → Type 0
Counted flash (ok done) found s = Stores flash s (some (next_count found))
Counted flash (err stop) found s = Stores flash s found

module _ {b : Board} (flash : IsNvs (storage b)) (apart : IsApart b flash)
    (reliable : NeverFails (storage b)) where
  prepare-Keeps : (cfg : Config) → Keeps flash (prepare b cfg)
  unfolding prepare
  prepare-Keeps cfg = >>=-Keeps flash _ _ (usb-Keeps flash apart cfg) (λ enabled.
      >>=-Keeps flash _ _ (flash-Keeps flash apart) (λ found.
        >>=-Keeps flash _ _ (sectors-Keeps flash apart sector_count)
          (λ sized. nvs-Keeps flash apart)))

  module _ (leaves : LeavesBuffer (storage b))
      (sleep_quiet : (ms : ℕ) (s : b.drivers.State)
        → flash.stored (b.k_msleep ms s) boot_count_id ≡ flash.stored s boot_count_id) where
    slept :
        (n : ℕ) (w : Firmware b) (k : ℕ)
        → Stores flash w.io (some k)
        → ((sleeps b n w).0 ≡ ok tt) × Stores flash (sleeps b n w).1.io (some k)
    unfolding sleeps sleep pure ◌>>=◌
    slept zero w k stored = (refl, stored)
    slept (suc n) w k stored =
        slept n (record w { io = b.k_msleep demo_sleep_time_ms w.io }) k
          (sleep_quiet demo_sleep_time_ms w.io ∙ stored)

    run_main :
        (cfg : Config) (n : ℕ) (found : Option ℕ) (w : Firmware b) (r : Result Stop Unit)
        → (prepare b cfg w).0 ≡ r
        → IsBelow (2 ^ 31) found
        → Stores flash w.io found
        → Counted flash (main b cfg n w).0 found (main b cfg n w).1.io
    unfolding main count_boot ◌>>=◌
    run_main cfg n found w (err stop) e h stored =
        rw (>>=-err (prepare b cfg) _ w e)
          (keeps_item flash found _ _ ((prepare-Keeps cfg).keeps w).item stored)
    run_main cfg n found w (ok done) e h stored =
        let before = keeps_item flash found _ _ ((prepare-Keeps cfg).keeps w).item stored in
        let counted_once = demo_counts flash reliable leaves found _ h before in
        let end =
          slept n
            (record (prepare b cfg w).1 {
              io = nvs_update_boot_count (storage b) (prepare b cfg w).1.io;
            })
            (next_count found) counted_once in
        rw (>>=-ok (prepare b cfg) _ w e, end.0) end.1

    -- On a board whose storage is as IsNvs describes it, never refuses a write and keeps the
    -- buffer of a failed read, and where nothing but the counter touches the stored count,
    -- which is missing or below 2 ^ 31 - 1: if main of the demo returns, the stored count is
    -- as it was; if it gets to its loop, then after any number of rounds the storage holds
    -- the next count.
    pub demo_main_lem :
        (cfg : Config) (n : ℕ) (found : Option ℕ) (w : Firmware b)
        → IsBelow (2 ^ 31) found
        → Stores flash w.io found
        → Counted flash (main b cfg n w).0 found (main b cfg n w).1.io
    demo_main_lem cfg n found w h stored = run_main cfg n found w (prepare b cfg w).0 refl h stored
