-- ===== src/App/Startup/Boots.antt =====
-- What `main` has done when its loop begins, and the counts of the boots that get there.
use efc.Common.{
  from, ℕ, suc, ◌+◌, ◌<◌, ◌^◌, ◌≡◌, refl, ap, ◌∙◌, List, [], ◌∷◌, ◌++◌, Option, none, some, Bool, ℤ,
  pos, arith, length, All, append_assoc,
}
use efc.Common.Exec.{Result, ok, err, ◌>>=◌, >>=-ok, >>=-err}
use efc.App.Boot.{Nvs, IsNvs, Boot, nvs_boot_count_id, initial_boot_count, update_boot_count}
use efc.App.Boot.Counts.{
  NeverFails, Stores, update_boot_count-missing, update_boot_count-found, accepted,
}
use efc.App.Startup.{
  Board, Config, Stop, Thread, radio, telemetry_sender, telemetry_packer, logger, ◌less◌, storage,
  Firmware, prepare, count_boot, create_thread, launch, start,
}
use efc.App.Startup.Prepared.{IsApart, Unstarted, prepare-Keeps}

-- The count of a boot, by the one that the storage holds.
unfoldable pub next_count : Option ℕ → ℕ
next_count none = 0
next_count (some k) = k + 1

abbrev pub IsBelow : ℕ → Option ℕ → Type 0
IsBelow n none = 0 < n
IsBelow n (some k) = k + 1 < n

-- The threads in the order of their creation; the lowest priority is the greatest number.
abbrev pub all_threads : ℕ → List (Thread × ℤ)
all_threads lowest =
    (radio, pos 0)
    ∷ (telemetry_sender, lowest less 2)
    ∷ (telemetry_packer, lowest less 1)
    ∷ (logger, lowest less 0)
    ∷ []

-- A boot counts one more than the storage holds.
pub update_boot_count_lem :
    {os : Nvs} (flash : IsNvs os) (reliable : NeverFails os) (found : Option ℕ) (boot : Boot os)
    → IsBelow (2 ^ 31) found
    → Stores flash boot.nvs found
    → let out = (update_boot_count os boot).1 in
      (out.boot_count ≡ next_count found) × Stores flash out.nvs (some (next_count found))
unfolding next_count
update_boot_count_lem flash reliable none boot h stored =
    update_boot_count-missing flash reliable boot stored
update_boot_count_lem flash reliable (some k) boot h stored =
    let now = update_boot_count-found flash boot k (omega arith) stored in
    (now.0, now.1 (accepted flash reliable boot k (omega arith) stored))

pub keeps_item :
    {os : Nvs} (flash : IsNvs os) (found : Option ℕ) (s s' : os.State)
    → flash.stored s' nvs_boot_count_id ≡ flash.stored s nvs_boot_count_id
    → Stores flash s found
    → Stores flash s' found
keeps_item flash none s s' e h = e ∙ h
keeps_item flash (some k) s s' e h = e ∙ h

module _ {b : Board} (flash : IsNvs (storage b)) where
  -- One more boot than the storage had counted.
  pub record Started (found : Option ℕ) (w w' : Firmware b) : Type 0 where
    pub threads : w'.threads ≡ w.threads ++ all_threads b.k_lowest_application_thread_prio
    pub boot_count : w'.boot_count ≡ next_count found
    pub item : Stores flash w'.io (some (next_count found))

  abbrev pub Outcome : {A : Type 0} → Result Stop A → Option ℕ → Firmware b → Firmware b → Type 0
  Outcome (ok a) found w w' = Started found w w'
  Outcome (err stop) found w w' = Unstarted flash w w'

  module _ (apart : IsApart b flash) (reliable : NeverFails (storage b)) where
    launched :
        (found : Option ℕ) (w : Firmware b)
        → IsBelow (2 ^ 31) found
        → Stores flash w.io found
        → Started found w (launch b w).1
    unfolding launch count_boot create_thread ◌>>=◌
    launched found w h stored =
        let count =
          update_boot_count_lem flash reliable found
            (record { boot_count = w.boot_count; nvs = w.io }) h stored in
        record {
          threads = (simp append_assoc);
          boot_count = count.0;
          item =
              apart.thread _ _ _
              ∙ apart.thread _ _ _
              ∙ apart.thread _ _ _
              ∙ apart.thread _ _ _
              ∙ apart.pipe _
              ∙ count.1;
        }

    started :
        (cfg : Config) (found : Option ℕ) (w : Firmware b)
        (r : Result Stop (b.drivers.Device × Bool))
        → (prepare b cfg w).0 ≡ r
        → IsBelow (2 ^ 31) found
        → Stores flash w.io found
        → Outcome (start b cfg w).0 found w (start b cfg w).1
    unfolding start launch count_boot create_thread ◌>>=◌
    started cfg found w (err stop) e h stored =
        rw (>>=-err (prepare b cfg) _ w e) ((prepare-Keeps flash apart cfg).keeps w)
    started cfg found w (ok imu) e h stored =
        let before = (prepare-Keeps flash apart cfg).keeps w in
        let after =
          launched found (prepare b cfg w).1 h (keeps_item flash found _ _ before.item stored) in
        rw (>>=-ok (prepare b cfg) _ w e) (record {
          threads =
              after.threads
              ∙ ap (λ ts. ts ++ all_threads b.k_lowest_application_thread_prio) before.threads;
          boot_count = after.boot_count;
          item = after.item;
        })

    -- Of main until its loop, on a board whose storage is as IsNvs describes it and never
    -- refuses a write, and where nothing but update_boot_count touches the stored count,
    -- which is below 2 ^ 31 - 1 or missing: it stops with no thread started and the count as
    -- it was, in memory and in storage; or the four threads have been started in their order
    -- and with their priorities, and the count, in memory and in storage, is the next one.
    pub start_lem :
        (cfg : Config) (found : Option ℕ) (w : Firmware b)
        → IsBelow (2 ^ 31) found
        → Stores flash w.io found
        → Outcome (start b cfg w).0 found w (start b cfg w).1
    start_lem cfg found w h stored = started cfg found w (prepare b cfg w).0 refl h stored

-- A power-on: its configuration, and all that happens from the loop's begin until the next one.
pub record PowerOn (b : Board) : Type 0 where
  pub cfg : Config
  pub run : b.drivers.State → b.drivers.State

module _ (b : Board) where
  -- The globals as the program starts.
  abbrev pub reset : b.drivers.State → Firmware b
  reset s = record {
    boot_count = initial_boot_count;
    nvs = record { flash_device = none; offset = 0; sector_size = 0; sector_count = 0 };
    threads = [];
    io = s;
  }

  -- The count that a boot works with, if it gets to the loop.
  abbrev pub count_if_started : {A : Type 0} → Result Stop A → Firmware b → List ℕ
  count_if_started (ok a) w = w.boot_count ∷ []
  count_if_started (err stop) w = []

  -- The counts of the boots that get to the loop.
  unfoldable pub boot_counts : List (PowerOn b) → b.drivers.State → List ℕ
  boot_counts [] s = []
  boot_counts (on ∷ rest) s =
      let (result, w) = start b on.cfg (reset s) in
      count_if_started result w ++ boot_counts rest (on.run w.io)

module _ {b : Board} (flash : IsNvs (storage b)) (apart : IsApart b flash)
    (reliable : NeverFails (storage b)) where
  abbrev pub IsQuiet : PowerOn b → Type 0
  IsQuiet on =
      (s : b.drivers.State)
      → flash.stored (on.run s) nvs_boot_count_id ≡ flash.stored s nvs_boot_count_id

  -- The counts of the boots of `rest`, whatever the storage holds before them.
  abbrev CountsFrom : List (PowerOn b) → Type 0
  CountsFrom rest =
      (found : Option ℕ) (s : b.drivers.State)
      → next_count found + length rest < 2 ^ 31
      → Stores flash s found
      → boot_counts b rest s ≡ from (next_count found) (length (boot_counts b rest s))

  below : (found : Option ℕ) (n : ℕ) → next_count found + suc n < 2 ^ 31 → IsBelow (2 ^ 31) found
  unfolding next_count
  below none n h = omega arith
  below (some k) n h = omega arith

  one_more :
      (on : PowerOn b) (rest : List (PowerOn b)) (found : Option ℕ) (s : b.drivers.State)
      (w : Firmware b) (r : Result Stop (b.drivers.Device × Bool))
      → IsQuiet on
      → CountsFrom rest
      → next_count found + suc (length rest) < 2 ^ 31
      → Stores flash s found
      → Outcome flash r found (reset b s) w
      → let counts = count_if_started b r w ++ boot_counts b rest (on.run w.io) in
        counts ≡ from (next_count found) (length counts)
  unfolding next_count
  one_more on rest found s w (err stop) quiet others h stored out =
      others found (on.run w.io) (omega arith)
        (keeps_item flash found _ _ (quiet w.io ∙ out.item) stored)
  one_more on rest found s w (ok imu) quiet others h stored out =
      let next =
        others (some (next_count found)) (on.run w.io) (omega arith)
          (keeps_item flash (some (next_count found)) _ _ (quiet w.io) out.item) in
      ap (λ k. k ∷ boot_counts b rest (on.run w.io)) out.boot_count
      ∙ ap (λ ks. next_count found ∷ ks) next

  counts_from : (ons : List (PowerOn b)) → All IsQuiet ons → CountsFrom ons
  unfolding boot_counts
  counts_from [] quiet found s h stored = refl
  counts_from (on ∷ rest) quiet found s h stored =
      one_more on rest found s (start b on.cfg (reset b s)).1 (start b on.cfg (reset b s)).0 quiet.0
        (counts_from rest quiet.1) h stored
        (start_lem flash apart reliable on.cfg found (reset b s) (below found (length rest) h)
          stored)

  -- Over a sequence of fewer than 2 ^ 31 power-ons with any configurations, on a board whose
  -- storage is as IsNvs describes it, never refuses a write and holds no count at first, and
  -- where nothing but update_boot_count touches the stored count: the boots that get to the
  -- loop of main have the boot counts 0, 1, 2 and so on in their order, and a boot that stops
  -- earlier takes no count.
  pub started_boots_are_counted :
      (ons : List (PowerOn b)) (s : b.drivers.State)
      → All IsQuiet ons
      → length ons < 2 ^ 31
      → flash.stored s nvs_boot_count_id ≡ none
      → boot_counts b ons s ≡ from 0 (length (boot_counts b ons s))
  unfolding next_count
  started_boots_are_counted ons s quiet h empty = counts_from ons quiet none s (omega arith) empty
