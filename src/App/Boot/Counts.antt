-- ===== src/App/Boot/Counts.antt =====
-- The boots are counted from 0, one by one.
use efc.Common.{
  ℕ, zero, suc, ◌+◌, ◌%◌, ◌^◌, ◌<◌, ◌≡◌, refl, ap, ◌∙◌, List, Option, none, some, true, false, pos,
  is_negative, le_bytes, of_le, of_le-le_bytes, arith,
}
use efc.App.Boot.{
  Nvs, IsNvs, Boot, nvs_boot_count_id, initial_boot_count, update_boot_count, after_boots,
  count_of_boot, initialize, check_initial, save_count,
}

-- No write fails.
pub record NeverFails (os : Nvs) : Type 0 where
  pub writes : (id : ℕ) (bs : List ℕ) (s : os.State) → is_negative (os.nvs_write id bs s).0 ≡ false

module _ {os : Nvs} (flash : IsNvs os) where
  abbrev pub Stores : os.State → Option ℕ → Type 0
  Stores s none = flash.stored s nvs_boot_count_id ≡ none
  Stores s (some k) = flash.stored s nvs_boot_count_id ≡ some (le_bytes 4 k)

  read_count :
      (s : os.State) (k : ℕ) (old : List ℕ)
      → Stores s (some k)
      → os.nvs_read nvs_boot_count_id 4 old s ≡ (pos 4, le_bytes 4 k)
  read_count s k old h = flash.read_stored nvs_boot_count_id (le_bytes 4 k) old s h

  -- The branch of an item that was found.
  step_found :
      (b : Boot os) (buffer : List ℕ)
      → os.nvs_read nvs_boot_count_id 4 (le_bytes 4 b.boot_count) b.nvs ≡ (pos 4, buffer)
      → of_le buffer < 2 ^ 31
      → update_boot_count os b
        ≡ save_count os (record b { boot_count = (of_le buffer + 1) % 2 ^ 32 })
  unfolding update_boot_count
  step_found b buffer e h = ground (arith, ap (λ o. o.0) e, ap (λ o. o.1) e)

  found :
      (b : Boot os) (k : ℕ)
      → k < 2 ^ 31
      → Stores b.nvs (some k)
      → update_boot_count os b ≡ save_count os (record b { boot_count = k + 1 })
  found b k h s =
      let value : of_le (le_bytes 4 k) ≡ k = of_le-le_bytes 4 k (omega arith) in
      step_found b (le_bytes 4 k) (read_count b.nvs k (le_bytes 4 b.boot_count) s) (omega arith)
      ∙ ap (λ c. save_count os (record b { boot_count = c })) (omega arith)

  -- On storage as IsNvs describes it, a boot that finds the count k below 2 ^ 31 works with k +
  -- 1; if its write is accepted, the storage holds k + 1 then, and if it is refused, it still
  -- holds k.
  pub update_boot_count-found :
      (b : Boot os) (k : ℕ)
      → k < 2 ^ 31
      → Stores b.nvs (some k)
      → let out = update_boot_count os b in
        (out.1.boot_count ≡ k + 1)
        × (is_negative out.0 ≡ false → Stores out.1.nvs (some (k + 1)))
        × (is_negative out.0 ≡ true → Stores out.1.nvs (some k))
  update_boot_count-found b k h s = rw (found b k h s) (
      unfold save_count in
      (
        refl,
        λ accepted. flash.write_stores nvs_boot_count_id (le_bytes 4 (k + 1)) b.nvs accepted,
        λ refused. flash.write_fails nvs_boot_count_id (le_bytes 4 (k + 1)) b.nvs refused ∙ s,
      ))

  step_missing :
      (b : Boot os)
      → is_negative (os.nvs_read nvs_boot_count_id 4 (le_bytes 4 b.boot_count) b.nvs).0 ≡ true
      → update_boot_count os b
        ≡ initialize os (record b {
          boot_count = of_le (os.nvs_read nvs_boot_count_id 4 (le_bytes 4 b.boot_count) b.nvs).1;
        })
  unfolding update_boot_count
  step_missing b h = ground arith

  checked :
      (b : Boot os)
      → Stores b.nvs (some 0)
      → check_initial os b ≡ save_count os (record b { boot_count = 0 })
  unfolding check_initial
  checked b h =
      let e = read_count b.nvs 0 (le_bytes 4 b.boot_count) h in
      ground (arith, ap (λ o. o.0) e, ap (λ o. o.1) e)

  module _ (reliable : NeverFails os) where
    initialized :
        (b : Boot os)
        → initialize os b
          ≡ check_initial os (record {
            boot_count = 0;
            nvs = (os.nvs_write nvs_boot_count_id (le_bytes 4 0) b.nvs).1;
          })
    unfolding initialize
    initialized b = ground (arith, reliable.writes nvs_boot_count_id (le_bytes 4 0) b.nvs)

    -- Without an item the count starts at 0, which is stored.
    pub update_boot_count-missing :
        (b : Boot os)
        → Stores b.nvs none
        → let out = update_boot_count os b in (out.1.boot_count ≡ 0) × Stores out.1.nvs (some 0)
    update_boot_count-missing b h =
        let first =
          flash.write_stores nvs_boot_count_id (le_bytes 4 0) b.nvs
            (reliable.writes nvs_boot_count_id (le_bytes 4 0) b.nvs) in
        rw
          (
            step_missing b
                (flash.read_missing nvs_boot_count_id 4 (le_bytes 4 b.boot_count) b.nvs h),
            initialized,
            checked
                (record {
                  boot_count = 0;
                  nvs = (os.nvs_write nvs_boot_count_id (le_bytes 4 0) b.nvs).1;
                })
                first,
          )
          (unfold save_count in
            (
              refl,
              flash.write_stores nvs_boot_count_id (le_bytes 4 0) _
                  (reliable.writes nvs_boot_count_id (le_bytes 4 0) _),
            ))

    pub accepted :
        (b : Boot os) (k : ℕ)
        → k < 2 ^ 31
        → Stores b.nvs (some k)
        → is_negative (update_boot_count os b).0 ≡ false
    accepted b k h e =
        rw (found b k h e)
          (unfold save_count in reliable.writes nvs_boot_count_id (le_bytes 4 (k + 1)) b.nvs)

    boot-Stores :
        (n : ℕ) (s : os.State)
        → n < 2 ^ 31
        → Stores s none
        → (count_of_boot os n s ≡ n) × Stores (after_boots os (suc n) s) (some n)
    unfolding count_of_boot after_boots
    boot-Stores zero s h e =
        update_boot_count-missing (record { boot_count = initial_boot_count; nvs = s }) e
    boot-Stores (suc n) s h e =
        let before = boot-Stores n s (omega arith) e in
        let b : Boot os = record {
          boot_count = initial_boot_count;
          nvs = after_boots os (suc n) s;
        } in
        let now = update_boot_count-found b n (omega arith) before.1 in
        let next : n + 1 ≡ suc n = omega arith in
        (now.0 ∙ next, rw next at (now.1 (accepted b n (omega arith) before.1)))

    -- On storage as IsNvs describes it, that starts without a count and never refuses a
    -- write: the boot after n others has the boot count n, for n below 2 ^ 31.
    pub boots_are_counted :
        (n : ℕ) (s : os.State)
        → n < 2 ^ 31
        → flash.stored s nvs_boot_count_id ≡ none
        → count_of_boot os n s ≡ n
    boots_are_counted n s h e = (boot-Stores n s h e).0
