-- ===== src/App/Startup/Logs.antt =====
-- The log files of the boots that get to the loop of `main`: their logger threads take the names from
-- the counts.
use mathlib.Core.Path.{subst}
use efc.Common.{
  from, ℕ, zero, suc, ◌+◌, ◌≤◌, ◌<◌, ◌^◌, ◌≡◌, ◌≢◌, sym, List, [], ◌∷◌, none, arith, length,
  length-append, map, All,
}
use efc.Common.Exec.{Result, ok, err}
use efc.App.Boot.{IsNvs, nvs_boot_count_id}
use efc.App.Boot.Counts.{NeverFails}
use efc.App.LogName.{filename}
use efc.App.LogName.Distinct.{filename-injective}
use efc.App.Startup.{Board, Stop, Firmware, storage, start}
use efc.App.Startup.Prepared.{IsApart}
use efc.App.Startup.Boots.{
  PowerOn, reset, count_if_started, boot_counts, IsQuiet, started_boots_are_counted,
}

-- No two of them are the same.
abbrev pub AllDifferent : List (List ℕ) → Type 0
AllDifferent [] = Unit {0}
AllDifferent (x ∷ xs) = All (λ y. x ≢ y) xs × AllDifferent xs

count_if_started-length :
    (b : Board) {A : Type 0} (r : Result Stop A) (w : Firmware b)
    → length (count_if_started b r w) ≤ 1
count_if_started-length b (ok a) w = omega arith
count_if_started-length b (err stop) w = omega arith

boot_counts-length :
    (b : Board) (ons : List (PowerOn b)) (s : b.drivers.State)
    → length (boot_counts b ons s) ≤ length ons
unfolding boot_counts
boot_counts-length b [] s = omega arith
boot_counts-length b (on ∷ rest) s =
    let (r, w) = start b on.cfg (reset b s) in
    let one = count_if_started-length b r w in
    let others = boot_counts-length b rest (on.run w.io) in
    let sum = length-append (count_if_started b r w) (boot_counts b rest (on.run w.io)) in
    omega (arith, one, others, sum)

module _ (lfs_name_max : ℕ) (room : 25 ≤ lfs_name_max) where
  new_name :
      (k m n : ℕ)
      → k < m
      → m + n < 2 ^ 31
      → All (λ y. filename lfs_name_max k ≢ y) (map (λ c. filename lfs_name_max c) (from m n))
  new_name k m zero lt small = tt
  new_name k m (suc n) lt small = (
    λ e.
        let same = filename-injective lfs_name_max k m room (omega arith) (omega arith) e in
        omega (arith, same),
    new_name k (m + 1) n (omega arith) (omega arith),
  )

  names_differ :
      (m n : ℕ) → m + n < 2 ^ 31 → AllDifferent (map (λ c. filename lfs_name_max c) (from m n))
  names_differ m zero small = tt
  names_differ m (suc n) small =
      (new_name m (m + 1) n (omega arith) (omega arith), names_differ (m + 1) n (omega arith))

-- Over a sequence of fewer than 2 ^ 31 power-ons with any configurations, on a board whose
-- storage is as IsNvs describes it, never refuses a write and holds no count at first, and where
-- nothing but update_boot_count touches the stored count, with a buffer of at least 25 bytes for
-- the name: no two boots that get to the loop of main give their log files the same name.
pub log_names_differ :
    {b : Board} (flash : IsNvs (storage b)) (apart : IsApart b flash)
    (reliable : NeverFails (storage b)) (lfs_name_max : ℕ) (ons : List (PowerOn b))
    (s : b.drivers.State)
    → 25 ≤ lfs_name_max
    → All (IsQuiet flash apart reliable) ons
    → length ons < 2 ^ 31
    → flash.stored s nvs_boot_count_id ≡ none
    → AllDifferent (map (λ count. filename lfs_name_max count) (boot_counts b ons s))
log_names_differ {b} flash apart reliable lfs_name_max ons s room quiet small empty =
    let bound = boot_counts-length b ons s in
    subst (λ counts. AllDifferent (map (λ count. filename lfs_name_max count) counts))
      (sym (started_boots_are_counted flash apart reliable ons s quiet small empty))
      (names_differ lfs_name_max room 0 (length (boot_counts b ons s))
        (omega (arith, bound, small)))
