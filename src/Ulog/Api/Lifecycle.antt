-- ===== src/Ulog/Api/Lifecycle.antt =====
-- How a log begins: `ULOG_Init`.
use efc.Common.{
  ℕ, ◌+◌, ◌*◌, ◌^◌, ◌≤◌, ◌<◌, ◌≡◌, refl, sym, ap, ◌∙◌, length, drop, List, [], ◌∷◌, ◌++◌, arith,
  some, true, false, le_bytes, of_le-le_bytes, Bool-cases, inl, inr, is_negative,
}
use efc.Common.Exec.{Result, ok, err, Exec, ◌>>=◌, ◌>>◌, or_return, continue}
use efc.Ulog.Platform.{Platform, fs_o_create, fs_o_write, IsFile, NeverShort, old_file}
use efc.Ulog.Types.{ErrorType, filesystem_error, phase_definitions, Inst, log}
use efc.Ulog.Format.{frames, read_log, frame_bytes}
use efc.Ulog.Format.Laws.{frames-frame_bytes, read_log-append}
use efc.Ulog.Message.{Message, flag_bits, encode}
use efc.Ulog.Write.{
  message_header, magic, protocol_version, try_write, write_header, write_flag_bits, flag_bytes,
  u64_bytes,
}
use efc.Ulog.Outcome.{
  Added, whole, part, IsCode, IsRefusal, try_write-Added, >>-Added, or_return-Added, Timed,
  >>-Timed, uptime-Timed, or_return-Timed, Timed->>,
}
use efc.Ulog.Recorded.{Holds}
use efc.Ulog.Appends.{
  Over, Appends, >>=-Appends, or_return-Appends, write_header-Appends, write_flag_bits-Appends,
}
use efc.Ulog.Api.{enter_definitions, init}
use efc.Ulog.Api.Strings.{micros}

-- The file header that the format prescribes.
abbrev header_bytes : ℕ → List ℕ
header_bytes us = magic ++ protocol_version ∷ le_bytes 8 us

abbrev pub no_flags : Message
no_flags = flag_bits (flag_bytes 0) (flag_bytes 0) (u64_bytes (0 ∷ 0 ∷ 0 ∷ []))

read_log-header :
    (us : ℕ)
    → us < 2 ^ 64
    → read_log (header_bytes us) ≡ some (record { start_us = us; messages = []; tail = [] })
unfolding read_log frames
read_log-header us h =
    ap (λ v. some (record { start_us = v; messages = []; tail = [] })) (of_le-le_bytes 8 us h)

read_log-preamble :
    (us : ℕ)
    → us < 2 ^ 64
    → read_log (header_bytes us ++ frame_bytes (encode no_flags))
      ≡ some (record { start_us = us; messages = encode no_flags ∷ []; tail = [] })
read_log-preamble us h = rw (
  read_log-append (header_bytes us) (frame_bytes (encode no_flags)) us [] (read_log-header us h),
  frames-frame_bytes (encode no_flags) (unfold encode in omega arith),
)

module _ {os : Platform} (disk : IsFile os) (full : NeverShort os) where
  header-Timed :
      (l : Inst os)
      → Timed disk (IsCode disk) l (λ now. header_bytes (micros now)) (write_header os l)
  unfolding write_header
  header-Timed l = >>-Timed disk (try_write os magic) _ (try_write-Added disk full l magic) λ l'.
      >>-Timed disk (try_write os (protocol_version ∷ [])) _
        (try_write-Added disk full l' (protocol_version ∷ []))
        λ l''.
          uptime-Timed disk (λ us. try_write os (le_bytes 8 us))
            λ now. try_write-Added disk full l'' (le_bytes 8 (micros now))

  flag_bits-Added :
      (l : Inst os)
      → Added disk
          (IsCode disk)
          l
          (frame_bytes (encode no_flags))
          (write_flag_bits os false false (0 ∷ 0 ∷ 0 ∷ []) l)
  unfolding write_flag_bits encode
  flag_bits-Added l =
      >>-Added disk (try_write os (message_header b'B' (8 + 8 + 8 * 3))) _
        (try_write-Added disk full l _)
        λ l'.
          >>-Added disk (try_write os (flag_bytes 0)) _
            (try_write-Added disk full l' (flag_bytes 0))
            λ l''.
              >>-Added disk (try_write os (flag_bytes 0)) _
                (try_write-Added disk full l'' (flag_bytes 0))
                λ l'''. try_write-Added disk full l''' (u64_bytes (0 ∷ 0 ∷ 0 ∷ []))

  -- What `ULOG_Init` has done when it returns.
  pub data Started (l : Inst os) (name : List ℕ) (out : Result ErrorType Unit × Inst os)
      : Type 0 where
    started :
        (now : ℕ)
        → out.0 ≡ ok tt
        → os.k_uptime_get l.file ≤ now
        → now ≤ os.k_uptime_get out.1.file
        → out.1.phase ≡ phase_definitions
        → out.1.next_msg_id ≡ 0
        → Holds disk out.1 (micros now) (no_flags ∷ [])
        → disk.behind out.1.file
          ≡ drop (length (disk.written out.1.file)) (old_file disk name l.file)
        → Started l name out
    not_started :
        out.0 ≡ err filesystem_error
        → out.1.phase ≡ l.phase
        → out.1.next_msg_id ≡ l.next_msg_id
        → Started l name out

  abbrev opened : Inst os → List ℕ → Inst os
  opened l name = record l {
    file = (os.fs_open name (fs_o_create ∷ fs_o_write ∷ []) (os.fs_file_t_init l.file)).1;
  }

  -- The two writers of `ULOG_Init`, one after the other.
  preamble : Exec (Inst os) ErrorType Unit
  preamble =
      or_return (write_header os) filesystem_error
      >> or_return (write_flag_bits os false false (0 ∷ 0 ∷ 0 ∷ [])) filesystem_error

  preamble-Timed :
      (l : Inst os)
      → Timed disk
          (IsRefusal disk)
          l
          (λ now. header_bytes (micros now) ++ frame_bytes (encode no_flags))
          (preamble l)
  unfolding preamble
  preamble-Timed l =
      Timed->> disk (or_return (write_header os) filesystem_error)
        (or_return (write_flag_bits os false false (0 ∷ 0 ∷ 0 ∷ [])) filesystem_error)
        (or_return-Timed disk (write_header os) (header-Timed l))
        λ l'.
          or_return-Added disk (write_flag_bits os false false (0 ∷ 0 ∷ 0 ∷ []))
            (flag_bits-Added l')

  preamble-Appends : Appends disk preamble
  unfolding preamble
  preamble-Appends =
      >>=-Appends disk _ _
        (or_return-Appends disk (write_header os) filesystem_error (write_header-Appends disk))
        (λ header.
          or_return-Appends disk (write_flag_bits os false false (0 ∷ 0 ∷ 0 ∷ [])) filesystem_error
            (write_flag_bits-Appends disk _ _ _))

  -- Behind what was written since the file was opened is the rest of the old file.
  what_remains :
      (l l' : Inst os) (name : List ℕ)
      → is_negative (os.fs_open name (fs_o_create ∷ fs_o_write ∷ []) (os.fs_file_t_init l.file)).0
        ≡ false
      → Over disk (opened l name).file l'.file
      → disk.behind l'.file ≡ drop (length (disk.written l'.file)) (old_file disk name l.file)
  what_remains l l' name e o =
      let start = disk.opened name (fs_o_create ∷ fs_o_write ∷ []) (os.fs_file_t_init l.file) e in
      let all : disk.written l'.file ≡ o.bytes = o.eq ∙ ap (λ w. w ++ o.bytes) start in
      o.rest ∙ ap (λ w. drop (length w) (old_file disk name l.file)) (sym all)

  init-opened :
      (l : Inst os) (name : List ℕ)
      → is_negative (os.fs_open name (fs_o_create ∷ fs_o_write ∷ []) (os.fs_file_t_init l.file)).0
        ≡ false
      → init os log (some name) l ≡ (preamble >> enter_definitions os) (opened l name)
  unfolding init ◌>>=◌ preamble
  init-opened l name e = ground arith

  init-refused :
      (l : Inst os) (name : List ℕ)
      → is_negative (os.fs_open name (fs_o_create ∷ fs_o_write ∷ []) (os.fs_file_t_init l.file)).0
        ≡ true
      → init os log (some name) l ≡ (err filesystem_error, opened l name)
  unfolding init ◌>>=◌
  init-refused l name e = ground arith

  -- ULOG_Init with a log and a file name, on a file system as IsFile and NeverShort describe
  -- it: it returns success, and the file up to the writer's position is a log with the flag
  -- message as its only one and a start time at which the clock stood during the call, in the
  -- definitions phase with the next message id 0, and behind the position is what a file of
  -- that name held from there on, since it is not truncated; or it returns
  -- ULOG_FILESYSTEM_ERROR and leaves phase and next message id as they were.
  pub init_lem : (l : Inst os) (name : List ℕ) → Started l name (init os log (some name) l)
  init_lem l name =
      elim (Bool-cases (
        is_negative
          (os.fs_open name (fs_o_create ∷ fs_o_write ∷ []) (os.fs_file_t_init l.file)).0)) [
            | inl refused ↦ rw (init-refused l name refused) (not_started refl refl refl)
            | inr e ↦
                let ready = preamble-Timed (opened l name) in
                rw (init-opened l name e) (go e ready.ms ready.after ready.before ready.added)
          ]
    where
      go :
          is_negative (os.fs_open name (fs_o_create ∷ fs_o_write ∷ []) (os.fs_file_t_init l.file)).0
            ≡ false
          → (now : ℕ) → os.k_uptime_get (opened l name).file ≤ now
          → now ≤ os.k_uptime_get (preamble (opened l name)).1.file
          → Added disk
              (IsRefusal disk)
              (opened l name)
              (header_bytes (micros now) ++ frame_bytes (encode no_flags))
              (preamble (opened l name))
          → Started l name ((preamble >> enter_definitions os) (opened l name))
      go e now a b (whole r t s) =
          unfold ◌>>=◌ enter_definitions in
          rw (r, continue)
            (started now refl
              (omega (arith, disk.opening_forward name (fs_o_create ∷ fs_o_write ∷ []) l.file)) b
              refl refl
              (rw (t, disk.opened name (fs_o_create ∷ fs_o_write ∷ []) (os.fs_file_t_init l.file) e)
                (read_log-preamble (micros now) (omega arith)))
              (what_remains l (preamble (opened l name)).1 name e
                (preamble-Appends (opened l name))))
      go e now a b (part x p q r bad c t s) =
          unfold ◌>>=◌ in rw (r, continue) (not_started (ap err bad) s.phase s.next_msg_id)
