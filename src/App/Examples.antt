-- ===== src/App/Examples.antt =====
-- Concrete runs of the boot counter and of the log file name, and the counter's theorems at such runs.
use efc.Common.{
  ℕ, ◌≡◌, refl, List, Option, none, some, true, ◌==◌, ℤ, pos, negsuc, is_negative, arith, length,
  take, take-length, codes, if◌then◌else◌,
}
use efc.App.Boot.{Nvs, IsNvs, count_of_boot}
use efc.App.Boot.Counts.{NeverFails, boots_are_counted}
use efc.App.LogName.{decimal, filename}

-- Storage in memory: an item for each id, -ENOENT for a missing one.
abbrev read_item : Option (List ℕ) → ℕ → List ℕ → ℤ × List ℕ
read_item none n old = (negsuc 1, old)
read_item (some bs) n old = (pos (length bs), take n bs)

abbrev memory : Nvs
memory = record {
  State = ℕ → Option (List ℕ);
  nvs_read = λ id n old s. read_item (s id) n old;
  nvs_write = λ id bs s. (pos (length bs), λ id'. if id' == id then some bs else s id');
}

memory_stores :
    (id : ℕ) (bs : List ℕ) (s : ℕ → Option (List ℕ)) → (memory.nvs_write id bs s).1 id ≡ some bs
memory_stores id bs s = ground arith

memory_refuses :
    (id : ℕ) (bs : List ℕ) (s : ℕ → Option (List ℕ))
    → is_negative (memory.nvs_write id bs s).0 ≡ true
    → (memory.nvs_write id bs s).1 id ≡ s id
memory_refuses id bs s h = ground arith

memory_reads :
    (id : ℕ) (bs old : List ℕ) (s : ℕ → Option (List ℕ))
    → s id ≡ some bs
    → read_item (s id) (length bs) old ≡ (pos (length bs), bs)
memory_reads id bs old s e = rw (e, take-length bs) refl

memory_misses :
    (id n : ℕ) (old : List ℕ) (s : ℕ → Option (List ℕ))
    → s id ≡ none
    → is_negative (read_item (s id) n old).0 ≡ true
memory_misses id n old s e = rw e refl

abbrev memory_flash : IsNvs memory
memory_flash = record {
  stored = λ s id. s id;
  write_stores = λ id bs s h. memory_stores id bs s;
  write_fails = λ id bs s h. memory_refuses id bs s h;
  read_stored = memory_reads;
  read_missing = memory_misses;
}

abbrev memory_reliable : NeverFails memory
memory_reliable = record { writes = λ id bs s. refl }

abbrev empty : ℕ → Option (List ℕ)
empty id = none

boots_are_counted_example : count_of_boot memory 3 empty ≡ 3
boots_are_counted_example =
    boots_are_counted memory_flash memory_reliable 3 empty (omega arith) refl

name_of_log : filename 256 41 ≡ codes "/SD:/log_41.ulg"
unfolding filename decimal
name_of_log = refl
