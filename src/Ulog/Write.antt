-- ===== src/Ulog/Write.antt =====
-- The static writers of libs/logging/ulog/ulog.c. A function that returns a negative `int` early
-- raises that code.
use efc.Common.{
  ℕ, ◌+◌, ◌*◌, ◌%◌, ◌^◌, List, [], ◌∷◌, ◌++◌, Bool, true, false, ℤ, is_negative, le_bytes,
  if◌then◌else◌,
}
use efc.Common.Exec.{ok, err, Exec, gets, ◌>>=◌, ◌>>◌}
use efc.Ulog.Platform.{Platform}
use efc.Ulog.Types.{Inst}

-- `Message_Header_Type`, packed: `uint16_t msg_size; uint8_t msg_type`.
abbrev pub message_header : ℕ → ℕ → List ℕ
message_header msg_type msg_size = le_bytes 2 (msg_size % 2 ^ 16) ++ (msg_type ∷ [])

-- `ULOG_PROTOCOL_VERSION`
abbrev pub protocol_version : ℕ
protocol_version = 1

abbrev pub magic : List ℕ
magic = 0x55 ∷ 0x4c ∷ 0x6f ∷ 0x67 ∷ 0x01 ∷ 0x12 ∷ 0x35 ∷ []

abbrev pub sync_magic : List ℕ
sync_magic = 0x2f ∷ 0x73 ∷ 0x13 ∷ 0x20 ∷ 0x25 ∷ 0x0c ∷ 0xbb ∷ 0x12 ∷ []

abbrev pub bit : Bool → ℕ
bit true = 1
bit false = 0

-- A `uint64_t[3]` in memory.
abbrev pub u64_bytes : List ℕ → List ℕ
u64_bytes [] = []
u64_bytes (v ∷ vs) = le_bytes 8 v ++ u64_bytes vs

-- An array of eight bytes that is zero but for its first.
abbrev pub flag_bytes : ℕ → List ℕ
flag_bytes b = b ∷ 0 ∷ 0 ∷ 0 ∷ 0 ∷ 0 ∷ 0 ∷ 0 ∷ []

module _ (os : Platform) where
  -- `ret = fs_write(file_h, p, n); if (ret < 0) return ret;`
  unfoldable pub try_write : List ℕ → Exec (Inst os) ℤ Unit
  try_write bytes l =
      let (ret, file') = os.fs_write bytes l.file in
      (if is_negative ret then err ret else ok tt, record l { file = file' })

  -- `k_uptime_get() * 1000` as a `uint64_t`
  unfoldable pub uptime_us : {E : Type 0} → Exec (Inst os) E ℕ
  uptime_us = gets (λ l. os.k_uptime_get l.file * 1000 % 2 ^ 64)

  unfoldable pub write_header : Exec (Inst os) ℤ Unit
  write_header = do
    try_write magic
    try_write (protocol_version ∷ [])
    us ← uptime_us
    try_write (le_bytes 8 us)

  unfoldable pub write_flag_bits : Bool → Bool → List ℕ → Exec (Inst os) ℤ Unit
  write_flag_bits has_default_params has_appended_data appended_offsets = do
    try_write (message_header b'B' (8 + 8 + 8 * 3))
    try_write (flag_bytes (bit has_default_params))
    try_write (flag_bytes (bit has_appended_data))
    try_write (u64_bytes appended_offsets)

  unfoldable pub write_sync : Exec (Inst os) ℤ Unit
  write_sync = do try_write (message_header b'S' 8); try_write sync_magic
