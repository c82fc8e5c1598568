-- ===== src/Ulog/Platform.antt =====
-- What libs/logging/ulog/ulog.c calls of Zephyr: the file system and the clock. Neither is part of
-- the repository, so they are parameters of the model.
use efc.Common.{
  ℕ, ◌≤◌, ◌≡◌, List, [], ◌∷◌, ◌++◌, ℤ, pos, is_negative, false, true, length, take, drop,
}

pub data OpenFlag : Type 0 where
  fs_o_create fs_o_write : OpenFlag

-- `State` is the open file together with everything behind it: disk, driver and clock.
pub record Platform : Type 1 where
  pub State : Type 0
  pub fs_file_t_init : State → State
  pub fs_open : List ℕ → List OpenFlag → State → ℤ × State
  pub fs_write : List ℕ → State → ℤ × State
  pub fs_sync : State → ℤ × State
  pub fs_close : State → ℤ × State
  -- milliseconds since boot
  pub k_uptime_get : State → ℕ

-- The documented behaviour of one file open for writing. `written` is what the file holds from its
-- start up to the position of the handle, `behind` what it holds from there on; without FS_O_TRUNC a
-- file that was opened has all that it held before behind the handle, and a write replaces it.
pub record IsFile (os : Platform) : Type 0 where
  pub written : os.State → List ℕ
  pub behind : os.State → List ℕ
  pub opened :
      (name : List ℕ) (flags : List OpenFlag) (s : os.State)
      → is_negative (os.fs_open name flags s).0 ≡ false
      → written (os.fs_open name flags s).1 ≡ []
  -- a negative code: the position has not moved
  pub refused :
      (bs : List ℕ) (s : os.State)
      → is_negative (os.fs_write bs s).0 ≡ true
      → written (os.fs_write bs s).1 ≡ written s
  pub refused_behind :
      (bs : List ℕ) (s : os.State)
      → is_negative (os.fs_write bs s).0 ≡ true
      → behind (os.fs_write bs s).1 ≡ behind s
  -- a count: that many of the bytes, from the first on, stand in the file
  pub counted :
      (bs : List ℕ) (s : os.State) (n : ℕ)
      → (os.fs_write bs s).0 ≡ pos n
      → (n ≤ length bs) × (written (os.fs_write bs s).1 ≡ written s ++ take n bs)
  pub counted_behind :
      (bs : List ℕ) (s : os.State) (n : ℕ)
      → (os.fs_write bs s).0 ≡ pos n
      → behind (os.fs_write bs s).1 ≡ drop n (behind s)
  pub synced : (s : os.State) → written (os.fs_sync s).1 ≡ written s
  pub synced_behind : (s : os.State) → behind (os.fs_sync s).1 ≡ behind s
  pub closed : (s : os.State) → written (os.fs_close s).1 ≡ written s
  pub closed_behind : (s : os.State) → behind (os.fs_close s).1 ≡ behind s
  -- the clock does not run backwards
  pub opening_forward :
      (name : List ℕ) (flags : List OpenFlag) (s : os.State)
      → os.k_uptime_get s ≤ os.k_uptime_get (os.fs_open name flags (os.fs_file_t_init s)).1
  pub sync_forward : (s : os.State) → os.k_uptime_get s ≤ os.k_uptime_get (os.fs_sync s).1
  pub clock_forward :
      (bs : List ℕ) (s : os.State) → os.k_uptime_get s ≤ os.k_uptime_get (os.fs_write bs s).1

-- The whole file, and what a file of that name held before it is opened for the log.
abbrev pub content : {os : Platform} → IsFile os → os.State → List ℕ
content disk s = disk.written s ++ disk.behind s

abbrev pub old_file : {os : Platform} → IsFile os → List ℕ → os.State → List ℕ
old_file {os} disk name s =
    disk.behind (os.fs_open name (fs_o_create ∷ fs_o_write ∷ []) (os.fs_file_t_init s)).1

-- The disk never fills up in the middle of a write: a count is the count asked for.
pub record NeverShort (os : Platform) : Type 0 where
  pub whole : (bs : List ℕ) (s : os.State) (n : ℕ) → (os.fs_write bs s).0 ≡ pos n → n ≡ length bs
