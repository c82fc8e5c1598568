-- ===== src/App/Boot.antt =====
-- `update_boot_count` of app/src/main.c: the counter of boots in non-volatile storage.
pub mod Counts
use efc.Common.{
  ℕ, zero, suc, ◌+◌, ◌-◌, ◌%◌, ◌^◌, ◌≡◌, List, [], ◌∷◌, Option, none, some, Bool, true, false, ◌&&◌,
  ◌==◌, ltb, ℤ, pos, negsuc, is_negative, le_bytes, of_le, length, if◌then◌else◌,
}

-- Zephyr's non-volatile storage. A read is given the buffer that it overwrites.
pub record Nvs : Type 1 where
  pub State : Type 0
  -- id, length, buffer
  pub nvs_read : ℕ → ℕ → List ℕ → State → ℤ × List ℕ
  pub nvs_write : ℕ → List ℕ → State → ℤ × State

-- Its documented behaviour: a write that returns no error has stored its bytes, one that fails has
-- stored nothing; a read of an item as long as asked for returns it, one of a missing item fails.
pub record IsNvs (os : Nvs) : Type 0 where
  pub stored : os.State → ℕ → Option (List ℕ)
  pub write_stores :
      (id : ℕ) (bs : List ℕ) (s : os.State)
      → is_negative (os.nvs_write id bs s).0 ≡ false
      → stored (os.nvs_write id bs s).1 id ≡ some bs
  pub write_fails :
      (id : ℕ) (bs : List ℕ) (s : os.State)
      → is_negative (os.nvs_write id bs s).0 ≡ true
      → stored (os.nvs_write id bs s).1 id ≡ stored s id
  pub read_stored :
      (id : ℕ) (bs old : List ℕ) (s : os.State)
      → stored s id ≡ some bs
      → os.nvs_read id (length bs) old s ≡ (pos (length bs), bs)
  pub read_missing :
      (id n : ℕ) (old : List ℕ) (s : os.State)
      → stored s id ≡ none
      → is_negative (os.nvs_read id n old s).0 ≡ true

-- `NVS_BOOT_COUNT_ID`
abbrev pub nvs_boot_count_id : ℕ
nvs_boot_count_id = 1

-- `ret == sizeof(boot_count)`
abbrev pub is_four : ℤ → Bool
is_four (pos n) = n == 4
is_four (negsuc n) = false

-- `boot_count` is an `int32_t`, kept as its bit pattern; -1 is all ones.
abbrev pub initial_boot_count : ℕ
initial_boot_count = 2 ^ 32 - 1

-- `boot_count >= 0`
abbrev pub is_nonneg : ℕ → Bool
is_nonneg count = ltb count (2 ^ 31)

module _ (os : Nvs) where
  -- The globals `boot_count` and `nvs`.
  pub record Boot : Type 0 where
    pub boot_count : ℕ
    pub nvs : os.State

  -- The last `nvs_write` of `update_boot_count`.
  unfoldable pub save_count : Boot → ℤ × Boot
  save_count b =
      let (ret, nvs') = os.nvs_write nvs_boot_count_id (le_bytes 4 b.boot_count) b.nvs in
      (ret, record b { nvs = nvs' })

  -- The read that checks the first write.
  unfoldable pub check_initial : Boot → ℤ × Boot
  check_initial b =
      let (ret, buffer) = os.nvs_read nvs_boot_count_id 4 (le_bytes 4 b.boot_count) b.nvs in
      let b' : Boot = record b { boot_count = of_le buffer } in
      if is_four ret && of_le buffer == 0 then save_count b' else (ret, b')

  -- Try to initialize `boot_count` if it is the first write.
  unfoldable pub initialize : Boot → ℤ × Boot
  initialize b =
      let (ret, nvs') = os.nvs_write nvs_boot_count_id (le_bytes 4 0) b.nvs in
      let b' : Boot = record { boot_count = 0; nvs = nvs' } in
      if is_negative ret then (ret, b') else check_initial b'

  unfoldable pub update_boot_count : Boot → ℤ × Boot
  update_boot_count b =
      let (ret, buffer) = os.nvs_read nvs_boot_count_id 4 (le_bytes 4 b.boot_count) b.nvs in
      let count = of_le buffer in
      if is_four ret && is_nonneg count
      then save_count (record b { boot_count = (count + 1) % 2 ^ 32 })
      else initialize (record b { boot_count = count })

  -- The storage after `n` boots, each of which starts with the initial value of the global.
  unfoldable pub after_boots : ℕ → os.State → os.State
  after_boots zero s = s
  after_boots (suc n) s =
      (update_boot_count (record { boot_count = initial_boot_count; nvs = after_boots n s })).1.nvs

  -- The count that the boot after `n` others works with.
  unfoldable pub count_of_boot : ℕ → os.State → ℕ
  count_of_boot n s =
      (update_boot_count
        (record { boot_count = initial_boot_count; nvs = after_boots n s })).1.boot_count
