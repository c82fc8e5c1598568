-- ===== src/Ulog/FullDisk.antt =====
-- What the writer does on a disk that is full: `fs_write` returns the count 0, and no operation looks
-- at a count.
use efc.Common.{ℕ, ◌≡◌, refl, ◌∙◌, List, append-nil, pos}
use efc.Common.Exec.{Result, ok, Exec, pure, ◌>>=◌, ◌>>◌, >>=-ok, or_return}
use efc.Ulog.Platform.{Platform, IsFile}
use efc.Ulog.Types.{ErrorType, filesystem_error, Inst}
use efc.Ulog.Write.{try_write, uptime_us, write_sync}
use efc.Ulog.Api.{save}

-- A full disk: it takes nothing, which is no error, and stays full; what it has is flushed.
pub record IsFull (os : Platform) : Type 1 where
  pub Full : os.State → Type 0
  pub nothing : (bs : List ℕ) (s : os.State) → Full s → (os.fs_write bs s).0 ≡ pos 0
  pub flushed : (s : os.State) → Full s → (os.fs_sync s).0 ≡ pos 0
  pub write_stays : (bs : List ℕ) (s : os.State) → Full s → Full (os.fs_write bs s).1
  pub sync_stays : (s : os.State) → Full s → Full (os.fs_sync s).1

module _ {os : Platform} (disk : IsFile os) (brim : IsFull os) where
  -- A success that leaves the file and the phase as they were in `l`.
  pub record Vain {E A : Type 0} (l : Inst os) (next : ℕ) (a : A) (out : Result E A × Inst os)
      : Type 0 where
    pub result : out.0 ≡ ok a
    pub phase : out.1.phase ≡ l.phase
    pub next_msg_id : out.1.next_msg_id ≡ next
    pub same : disk.written out.1.file ≡ disk.written l.file
    pub full : brim.Full out.1.file

  -- On a full disk `m` takes the next message id from `n` to `n'`, returns `a` and does nothing else.
  abbrev pub Leads : {E A : Type 0} → ℕ → ℕ → Exec (Inst os) E A → A → Type 0
  Leads n n' m a = (l : Inst os) → brim.Full l.file → l.next_msg_id ≡ n → Vain l n' a (m l)

  pub >>=-Leads :
      {E A B : Type 0} {n n' n'' : ℕ} {a : A} {b : B} (m : Exec (Inst os) E A)
      (f : A → Exec (Inst os) E B)
      → Leads n n' m a
      → Leads n' n'' (f a) b
      → Leads n n'' (m >>= f) b
  >>=-Leads {a = a} m f h k l full e =
      let first = h l full e in
      let rest = k (m l).1 first.full first.next_msg_id in
      rw (>>=-ok m f l first.result) (record {
        result = rest.result;
        phase = rest.phase ∙ first.phase;
        next_msg_id = rest.next_msg_id;
        same = rest.same ∙ first.same;
        full = rest.full;
      })

  pub or_return-Leads :
      {E F A : Type 0} {n n' : ℕ} {a : A} (m : Exec (Inst os) E A) (code : F)
      → Leads n n' m a
      → Leads n n' (or_return m code) a
  unfolding or_return
  or_return-Leads m code h l full e =
      let v = h l full e in
      record {
        result = rw v.result refl;
        phase = v.phase;
        next_msg_id = v.next_msg_id;
        same = v.same;
        full = v.full;
      }

  pub try_write-Leads : {n : ℕ} (bs : List ℕ) → Leads n n (try_write os bs) tt
  unfolding try_write
  try_write-Leads bs l full e =
      let none = brim.nothing bs l.file full in
      record {
        result = rw none refl;
        phase = refl;
        next_msg_id = e;
        same = (disk.counted bs l.file 0 none).1 ∙ append-nil _;
        full = brim.write_stays bs l.file full;
      }

  pub save-Leads : {n : ℕ} (bs : List ℕ) → Leads n n (save os bs) tt
  unfolding save
  save-Leads bs = or_return-Leads _ filesystem_error (try_write-Leads bs)

  pub save->> :
      {A : Type 0} {n n' : ℕ} {a : A} (bs : List ℕ) (m : Exec (Inst os) ErrorType A)
      → Leads n n' m a
      → Leads n n' (save os bs >> m) a
  save->> bs m h = >>=-Leads _ _ (save-Leads bs) h

  pub pure-Leads : {E A : Type 0} {n : ℕ} (a : A) → Leads {E = E} n n (pure a) a
  unfolding pure
  pure-Leads a l full e = record {
    result = refl;
    phase = refl;
    next_msg_id = e;
    same = refl;
    full = full;
  }

  -- Whatever the time is.
  pub uptime_us-Leads :
      {E B : Type 0} {n n' : ℕ} {b : B} (f : ℕ → Exec (Inst os) E B)
      → ((us : ℕ) → Leads n n' (f us) b)
      → Leads n n' (uptime_us os >>= f) b
  unfolding uptime_us ◌>>=◌
  uptime_us-Leads f h l full e = h _ l full e

  pub write_sync-Leads : {n : ℕ} → Leads n n (write_sync os) tt
  unfolding write_sync
  write_sync-Leads = >>=-Leads _ _ (try_write-Leads _) (try_write-Leads _)
