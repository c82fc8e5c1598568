-- ===== src/Demos/NvsSpiFlash/Examples.antt =====
-- The demo after two boots of the firmware, and on a board.
use efc.Common.{ℕ, ◌≡◌, refl, List, Option, none, some, is_negative, true, le_bytes, arith}
use efc.App.Boot.{Boot, initial_boot_count, update_boot_count}
use efc.App.Startup.{storage}
use efc.App.Startup.Boots.{reset}
use efc.App.Startup.Rig.{board, flash, apart, reliable, polled, blank, read_item, lost_never}
use efc.Demos.NvsSpiFlash.{nvs_update_boot_count, main}
use efc.Demos.NvsSpiFlash.Counts.{LeavesBuffer, Counted, demo_is_firmware, demo_main_lem}

leaves_old :
    (item : Option (List ℕ)) (n : ℕ) (old : List ℕ)
    → is_negative (read_item item n old).0 ≡ true
    → (read_item item n old).1 ≡ old
leaves_old none n old h = refl
leaves_old (some bs) n old h = absurd (lost_never h)

abbrev leaves : LeavesBuffer (storage board)
leaves = record { leaves = λ id n old s h. leaves_old (s.items id) n old h }

abbrev boot : Boot (storage board)
boot = record {
  boot_count = initial_boot_count;
  nvs = record blank { items = λ id. some (le_bytes 4 1) };
}

demo_is_firmware_example :
    (nvs_update_boot_count (storage board) boot.nvs).items 1
    ≡ (update_boot_count (storage board) boot).1.nvs.items 1
demo_is_firmware_example = demo_is_firmware flash reliable leaves (some 1) boot (omega arith) refl

demo_main_lem_example :
    let out = main board polled 2 (reset board blank) in Counted flash out.0 none out.1.io
demo_main_lem_example =
    demo_main_lem flash apart reliable leaves (λ ms s. refl) polled 2 none (reset board blank)
      (omega arith) refl
