-- ===== src/Ulog/Appends.antt =====
-- What writes at the position of the log file and nowhere else.
use efc.Common.{
  Bool, ℕ, ◌≡◌, refl, sym, ap, ◌∙◌, List, [], ◌++◌, append-nil, append_assoc, take, drop, length,
  length-take, drop-drop, ℤ, pos, negsuc, is_negative, arith,
}
use efc.Common.Exec.{Result, ok, err, Exec, pure, raise, gets, ◌>>=◌, >>=-ok, >>=-err, or_return}
use efc.Ulog.Platform.{Platform, IsFile}
use efc.Ulog.Types.{filesystem_error, Phase, Inst}
use efc.Ulog.Write.{try_write, uptime_us, write_header, write_flag_bits}
use efc.Ulog.Api.{save, require_phase}

module _ {os : Platform} (disk : IsFile os) where
  -- From `s` to `t` some bytes were written, over as many of those that were there before.
  pub record Over (s t : os.State) : Type 0 where
    pub bytes : List ℕ
    pub eq : disk.written t ≡ disk.written s ++ bytes
    pub rest : disk.behind t ≡ drop (length bytes) (disk.behind s)

  pub same-Over :
      (s t : os.State) → disk.written t ≡ disk.written s → disk.behind t ≡ disk.behind s → Over s t
  same-Over s t e f = record { bytes = []; eq = e ∙ sym (append-nil _); rest = f }

  pub Over-trans : (s t u : os.State) → Over s t → Over t u → Over s u
  Over-trans s t u a b = record {
    bytes = a.bytes ++ b.bytes;
    eq = b.eq ∙ ap (λ l. l ++ b.bytes) a.eq ∙ append_assoc (disk.written s) a.bytes b.bytes;
    rest =
        b.rest
        ∙ ap (drop (length b.bytes)) a.rest
        ∙ sym (drop-drop a.bytes b.bytes (disk.behind s));
  }

  -- What remains of an old file, from where the position is.
  pub Over-behind :
      (old : List ℕ) (s t : os.State)
      → Over s t
      → disk.behind s ≡ drop (length (disk.written s)) old
      → disk.behind t ≡ drop (length (disk.written t)) old
  Over-behind old s t o e =
      o.rest
      ∙ ap (drop (length o.bytes)) e
      ∙ sym (drop-drop (disk.written s) o.bytes old)
      ∙ ap (λ w. drop (length w) old) (sym o.eq)

  abbrev pub Appends : {E A : Type 0} → Exec (Inst os) E A → Type 0
  Appends m = (l : Inst os) → Over l.file (m l).1.file

  pub >>=-Appends :
      {E A B : Type 0} (m : Exec (Inst os) E A) (f : A → Exec (Inst os) E B)
      → Appends m
      → ((a : A) → Appends (f a))
      → Appends (m >>= f)
  >>=-Appends {E} {A} m f h k l = go (m l).0 refl
    where
      go : (r : Result E A) → (m l).0 ≡ r → Over l.file ((m >>= f) l).1.file
      go (ok a) e = rw (>>=-ok m f l e) (Over-trans _ _ _ (h l) (k a (m l).1))
      go (err x) e = rw (>>=-err m f l e) (h l)

  pub or_return-Appends :
      {E F A : Type 0} (m : Exec (Inst os) E A) (code : F) → Appends m → Appends (or_return m code)
  unfolding or_return
  or_return-Appends m code h l = h l

  pub try_write-Appends : (bs : List ℕ) → Appends (try_write os bs)
  unfolding try_write
  try_write-Appends bs l = go (os.fs_write bs l.file).0 refl
    where
      go : (r : ℤ) → (os.fs_write bs l.file).0 ≡ r → Over l.file (os.fs_write bs l.file).1
      go (pos n) e =
          let (few, eq) = disk.counted bs l.file n e in
          record {
            bytes = take n bs;
            eq = eq;
            rest = disk.counted_behind bs l.file n e ∙ rw (length-take n bs few) refl;
          }
      go (negsuc n) e =
          same-Over _ _ (disk.refused bs l.file (ap is_negative e))
            (disk.refused_behind bs l.file (ap is_negative e))

  pub save-Appends : (bs : List ℕ) → Appends (save os bs)
  unfolding save
  save-Appends bs = or_return-Appends _ filesystem_error (try_write-Appends bs)

  pub pure-Appends : (E : Type 0) {A : Type 0} (a : A) → Appends {E = E} (pure a)
  unfolding pure
  pure-Appends E a l = same-Over _ _ refl refl

  pub raise-Appends : {E : Type 0} (A : Type 0) (e : E) → Appends {A = A} (raise e)
  unfolding raise
  raise-Appends A e l = same-Over _ _ refl refl

  require_phase-same : (p : Phase) (l : Inst os) → (require_phase os p l).1 ≡ l
  unfolding require_phase
  require_phase-same p l = ground arith

  pub require_phase-Appends : (p : Phase) → Appends (require_phase os p)
  require_phase-Appends p l =
      same-Over _ _ (ap (λ k. disk.written k.file) (require_phase-same p l))
        (ap (λ k. disk.behind k.file) (require_phase-same p l))

  pub uptime_us-Appends : (E : Type 0) → Appends {E = E} (uptime_us os)
  unfolding uptime_us gets
  uptime_us-Appends E l = same-Over _ _ refl refl

  pub write_header-Appends : Appends (write_header os)
  unfolding write_header
  write_header-Appends = >>=-Appends _ _ (try_write-Appends _) (λ magic.
      >>=-Appends _ _ (try_write-Appends _)
        (λ version. >>=-Appends _ _ (uptime_us-Appends ℤ) (λ us. try_write-Appends _)))

  pub write_flag_bits-Appends :
      (has_default_params has_appended_data : Bool) (appended_offsets : List ℕ)
      → Appends (write_flag_bits os has_default_params has_appended_data appended_offsets)
  unfolding write_flag_bits
  write_flag_bits-Appends has_default_params has_appended_data appended_offsets =
      >>=-Appends _ _ (try_write-Appends _) (λ header.
        >>=-Appends _ _ (try_write-Appends _)
          (λ compat. >>=-Appends _ _ (try_write-Appends _) (λ incompat. try_write-Appends _)))
