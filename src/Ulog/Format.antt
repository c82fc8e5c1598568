-- ===== src/Ulog/Format.antt =====
-- A reader of the ULog file format: what a log file means to the tools that open it. It is written
-- from the format's description, not from the writer.
pub mod Laws
use efc.Common.{
  ℕ, zero, suc, ◌+◌, ◌*◌, List, [], ◌∷◌, Option, none, some, Bool, true, false, ◌&&◌, leb, ◌==◌,
  length, take, drop, of_le, le_bytes, ◌++◌, if◌then◌else◌,
}

-- A message: its type and the bytes behind its header.
pub record Frame : Type 0 where
  pub kind : ℕ
  pub payload : List ℕ

-- The first message of the bytes and what follows it; `none` if the bytes end inside it.
pub next_frame : List ℕ → Option (Frame × List ℕ)
next_frame (lo ∷ hi ∷ kind ∷ rest) =
    let size = lo + 256 * hi in
    if leb size (length rest)
    then some (record { kind = kind; payload = take size rest }, drop size rest)
    else none
next_frame _ = none

pub read_frames : ℕ → List ℕ → List Frame × List ℕ
read_frames zero bytes = ([], bytes)
read_frames (suc fuel) bytes = elim (next_frame bytes) [
  | none ↦ ([], bytes)
  | some (f, rest) ↦ (let (fs, tail) = read_frames fuel rest in (f ∷ fs, tail))
]

-- All messages, and the bytes of an unfinished last one. A message has three bytes at least.
unfoldable pub frames : List ℕ → List Frame × List ℕ
unfolding read_frames next_frame
frames bytes = read_frames (length bytes) bytes

abbrev file_magic : List ℕ
file_magic = 0x55 ∷ 0x4c ∷ 0x6f ∷ 0x67 ∷ 0x01 ∷ 0x12 ∷ 0x35 ∷ []

-- Equality of byte lists.
abbrev pub same_bytes : List ℕ → List ℕ → Bool
same_bytes [] [] = true
same_bytes (x ∷ xs) (y ∷ ys) = x == y && same_bytes xs ys
same_bytes _ _ = false

-- What a reader finds in a file: the start time of the log, its messages, and the bytes of an
-- unfinished last message.
pub record Contents : Type 0 where
  pub start_us : ℕ
  pub messages : List Frame
  pub tail : List ℕ

-- The file header is 16 bytes: the magic, the version and the start time.
unfoldable pub read_log : List ℕ → Option Contents
read_log bytes =
    if leb 16 (length bytes)
      && same_bytes (take 7 bytes) file_magic
      && same_bytes (take 1 (drop 7 bytes)) (1 ∷ [])
    then some (record {
      start_us = of_le (take 8 (drop 8 bytes));
      messages = (frames (drop 16 bytes)).0;
      tail = (frames (drop 16 bytes)).1;
    })
    else none

-- The bytes that the format prescribes for a message.
abbrev pub frame_bytes : Frame → List ℕ
frame_bytes f = le_bytes 2 (length f.payload) ++ f.kind ∷ f.payload
