-- ===== src/Ulog/Memory.antt =====
-- A file system in memory, as a platform that meets the assumptions: a file of limited size, of
-- which a write that does not fit writes nothing and returns -ENOSPC, and a clock that moves on with
-- every write.
use efc.Common.{
  ℕ, ◌+◌, ◌≤◌, ◌≡◌, refl, List, [], ◌++◌, ℤ, pos, negsuc, is_negative, true, leb, if◌then◌else◌,
  length, take, drop, take-length, arith,
}
use efc.Ulog.Platform.{Platform, IsFile, NeverShort}

pub record Memory : Type 0 where
  pub bytes : List ℕ
  pub behind : List ℕ
  pub room : ℕ
  pub clock : ℕ

abbrev pub memory_write : List ℕ → Memory → ℤ × Memory
memory_write bs s =
    if leb (length s.bytes + length bs) s.room
    then (
      pos (length bs),
      record s { bytes = s.bytes ++ bs; behind = drop (length bs) s.behind; clock = s.clock + 1 },
    )
    else (negsuc 27, s)

abbrev pub memory : Platform
memory = record {
  State = Memory;
  fs_file_t_init = λ s. s;
  fs_open = λ name flags s. (pos 0, record s { bytes = []; behind = s.bytes ++ s.behind });
  fs_write = memory_write;
  fs_sync = λ s. (pos 0, s);
  fs_close = λ s. (pos 0, s);
  k_uptime_get = λ s. s.clock;
}

pub memory_refused :
    (bs : List ℕ) (s : Memory)
    → is_negative (memory_write bs s).0 ≡ true
    → (memory_write bs s).1.bytes ≡ s.bytes
memory_refused bs s h = ground arith

pub memory_counted :
    (bs : List ℕ) (s : Memory) (n : ℕ)
    → (memory_write bs s).0 ≡ pos n
    → (n ≤ length bs) × ((memory_write bs s).1.bytes ≡ s.bytes ++ take n bs)
memory_counted bs s n h = ground (arith, take-length bs)

pub memory_refused_behind :
    (bs : List ℕ) (s : Memory)
    → is_negative (memory_write bs s).0 ≡ true
    → (memory_write bs s).1.behind ≡ s.behind
memory_refused_behind bs s h = ground arith

pub memory_counted_behind :
    (bs : List ℕ) (s : Memory) (n : ℕ)
    → (memory_write bs s).0 ≡ pos n
    → (memory_write bs s).1.behind ≡ drop n s.behind
memory_counted_behind bs s n h = ground arith

pub memory_forward : (bs : List ℕ) (s : Memory) → s.clock ≤ (memory_write bs s).1.clock
memory_forward bs s = ground arith

memory_whole : (bs : List ℕ) (s : Memory) (n : ℕ) → (memory_write bs s).0 ≡ pos n → n ≡ length bs
memory_whole bs s n h = ground arith

abbrev pub memory_disk : IsFile memory
memory_disk = record {
  written = λ s. s.bytes;
  behind = λ s. s.behind;
  opened = λ name flags s h. refl;
  refused = memory_refused;
  refused_behind = memory_refused_behind;
  counted = memory_counted;
  counted_behind = memory_counted_behind;
  synced = λ s. refl;
  synced_behind = λ s. refl;
  closed = λ s. refl;
  closed_behind = λ s. refl;
  opening_forward = λ name flags s. omega arith;
  sync_forward = λ s. omega arith;
  clock_forward = memory_forward;
}

pub memory_full : NeverShort memory
memory_full = record { whole = memory_whole }
