-- ===== src/Ulog/ShortDisk.antt =====
-- A disk that fills up: of a write that does not fit it takes the beginning, and returns the count.
use efc.Common.{
  ℕ, ◌+◌, ◌-◌, ◌≤◌, ◌≡◌, refl, sym, ap, ◌∙◌, List, [], ◌++◌, ℤ, pos, is_negative, true, length,
  take, drop, take-length-take, length-take_le, length-append, arith,
}
use efc.Ulog.Platform.{Platform, IsFile}
use efc.Ulog.Memory.{Memory}
use efc.Ulog.FullDisk.{IsFull}

abbrev pub room_left : Memory → ℕ
room_left s = s.room - length s.bytes

abbrev pub short_write : List ℕ → Memory → ℤ × Memory
short_write bs s =
    let part = take (room_left s) bs in
    (
      pos (length part),
      record s {
        bytes = s.bytes ++ part;
        behind = drop (length part) s.behind;
        clock = s.clock + 1;
      },
    )

abbrev pub short : Platform
short = record {
  State = Memory;
  fs_file_t_init = λ s. s;
  fs_open = λ name flags s. (pos 0, record s { bytes = []; behind = s.bytes ++ s.behind });
  fs_write = short_write;
  fs_sync = λ s. (pos 0, s);
  fs_close = λ s. (pos 0, s);
  k_uptime_get = λ s. s.clock;
}

pub never_refused : (n : ℕ) → is_negative (pos n) ≡ true → ⊥
never_refused n h = ground (arith, h)

pos-injective : (m n : ℕ) → pos m ≡ pos n → m ≡ n
pos-injective m n h = ground (arith, h)

pub short_counted :
    (bs : List ℕ) (s : Memory) (n : ℕ)
    → (short_write bs s).0 ≡ pos n
    → (n ≤ length bs) × ((short_write bs s).1.bytes ≡ s.bytes ++ take n bs)
short_counted bs s n h =
    let count = pos-injective (length (take (room_left s) bs)) n h in
    let fewer = length-take_le (room_left s) bs in
    (
      omega (arith, count, fewer),
      ap (λ l. s.bytes ++ l) (sym (take-length-take (room_left s) bs) ∙ ap (λ k. take k bs) count),
    )

pub short_counted_behind :
    (bs : List ℕ) (s : Memory) (n : ℕ)
    → (short_write bs s).0 ≡ pos n
    → (short_write bs s).1.behind ≡ drop n s.behind
short_counted_behind bs s n h =
    ap (λ k. drop k s.behind) (pos-injective (length (take (room_left s) bs)) n h)

abbrev pub short_disk : IsFile short
short_disk = record {
  written = λ s. s.bytes;
  behind = λ s. s.behind;
  opened = λ name flags s h. refl;
  refused = λ bs s h. absurd (never_refused (length (take (room_left s) bs)) h);
  refused_behind = λ bs s h. absurd (never_refused (length (take (room_left s) bs)) h);
  counted = short_counted;
  counted_behind = short_counted_behind;
  synced = λ s. refl;
  synced_behind = λ s. refl;
  closed = λ s. refl;
  closed_behind = λ s. refl;
  opening_forward = λ name flags s. omega arith;
  sync_forward = λ s. omega arith;
  clock_forward = λ bs s. omega arith;
}

pub nothing_fits : (bs : List ℕ) (s : Memory) → room_left s ≡ 0 → (short_write bs s).0 ≡ pos 0
nothing_fits bs s h = rw h refl

pub still_full : (bs : List ℕ) (s : Memory) → room_left s ≡ 0 → room_left (short_write bs s).1 ≡ 0
still_full bs s h =
    let grown = length-append s.bytes (take (room_left s) bs) in omega (arith, h, grown)

abbrev pub short_full : IsFull short
short_full = record {
  Full = λ s. room_left s ≡ 0;
  nothing = nothing_fits;
  flushed = λ s h. refl;
  write_stays = still_full;
  sync_stays = λ s h. h;
}
