-- ===== src/App/LogName.antt =====
-- The name of the log file, from the beginning of `logger` in app/src/logger.c.
pub mod Distinct
use efc.Common.{
  ℕ, zero, suc, ◌+◌, ◌-◌, ◌/◌, ◌%◌, List, [], ◌∷◌, ◌++◌, ltb, codes, take, if◌then◌else◌,
}
use efc.App.Boot.{is_nonneg}

-- `%d` of a number that is not negative, with as many digits as fuel at most.
unfoldable pub decimal : ℕ → ℕ → List ℕ
decimal zero n = []
decimal (suc fuel) n =
    let front = decimal fuel (n / 10) in
    if ltb n 10 then (b'0' + n) ∷ [] else front ++ (b'0' + n % 10) ∷ []

-- `mnt_point` of `main_fs_mount`
abbrev pub mnt_point : List ℕ
mnt_point = codes "/SD:"

-- `snprintf` into a buffer of `lfs_name_max` bytes keeps all but the terminator. A count that is not
-- negative has ten digits at most. Without a count the name is that of the temporary log.
unfoldable pub filename : ℕ → ℕ → List ℕ
filename lfs_name_max boot_count = take (lfs_name_max - 1) (
    if is_nonneg boot_count
    then mnt_point ++ (codes "/log_" ++ (decimal 10 boot_count ++ codes ".ulg"))
    else mnt_point ++ codes "/log_tmp.ulg")
