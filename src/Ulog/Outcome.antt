-- ===== src/Ulog/Outcome.antt =====
-- What an operation that only writes has done when it returns, whether or not the file system
-- refused a part of it.
use efc.Common.{
  ℕ, ◌*◌, ◌%◌, ◌^◌, ◌≤◌, ◌≡◌, refl, sym, ◌∙◌, List, [], ◌++◌, append-nil, append_assoc, arith, ℤ,
  pos, negsuc, is_negative, true, take-length,
}
use efc.Common.Exec.{Result, ok, err, Exec, continue, ◌>>=◌, ◌>>◌, or_return}
use efc.Ulog.Platform.{Platform, IsFile, NeverShort}
use efc.Ulog.Types.{ErrorType, filesystem_error, Inst}
use efc.Ulog.Write.{try_write, uptime_us}
use efc.Ulog.Api.{save}

module _ {os : Platform} (disk : IsFile os) where
  abbrev pub text : Inst os → List ℕ
  text l = disk.written l.file

  -- The other fields of the instance.
  pub record IsSame (l l' : Inst os) : Type 0 where
    pub phase : l'.phase ≡ l.phase
    pub next_msg_id : l'.next_msg_id ≡ l.next_msg_id
    pub clock : os.k_uptime_get l.file ≤ os.k_uptime_get l'.file

  pub IsSame-refl : (l : Inst os) → IsSame l l
  IsSame-refl l = record { phase = refl; next_msg_id = refl; clock = omega arith }

  pub IsSame-trans : {l m n : Inst os} → IsSame l m → IsSame m n → IsSame l n
  IsSame-trans a b = record {
    phase = b.phase ∙ a.phase;
    next_msg_id = b.next_msg_id ∙ a.next_msg_id;
    clock = omega arith;
  }

  -- From `l` the bytes `bs` were written, or, with an error that satisfies `Bad`, a beginning of them.
  pub data Added {E : Type 0} (Bad : E → Type 0) (l : Inst os) (bs : List ℕ)
      (out : Result E Unit × Inst os) : Type 0 where
    whole : out.0 ≡ ok tt → text out.1 ≡ text l ++ bs → IsSame l out.1 → Added Bad l bs out
    part :
        (e : E) (p q : List ℕ)
        → out.0 ≡ err e
        → Bad e
        → p ++ q ≡ bs
        → text out.1 ≡ text l ++ p
        → IsSame l out.1
        → Added Bad l bs out

  abbrev pub IsRefusal : ErrorType → Type 0
  IsRefusal e = e ≡ filesystem_error

  abbrev pub IsCode : ℤ → Type 0
  IsCode ret = is_negative ret ≡ true

  pub or_return-Added :
      {E : Type 0} {Bad : E → Type 0} {l : Inst os} {bs : List ℕ} (m : Exec (Inst os) E Unit)
      → Added Bad l bs (m l)
      → Added IsRefusal l bs (or_return m filesystem_error l)
  unfolding or_return
  or_return-Added m (whole r t s) = whole (rw r) t s
  or_return-Added m (part e p q r b c t s) = part filesystem_error p q (rw r) refl c t s

  -- What comes behind bytes that were all written.
  extend :
      {E : Type 0} {Bad : E → Type 0} {l l' : Inst os} (bs : List ℕ) {cs : List ℕ}
      {out : Result E Unit × Inst os}
      → text l' ≡ text l ++ bs
      → IsSame l l'
      → Added Bad l' cs out
      → Added Bad l (bs ++ cs) out
  extend bs e s (whole r t s') = whole r (t ∙ rw (e, append_assoc)) (IsSame-trans s s')
  extend bs e s (part x p q r b c t s') =
      part x (bs ++ p) q r b (rw (append_assoc, c)) (t ∙ rw (e, append_assoc)) (IsSame-trans s s')

  pub >>-Added_same :
      {E : Type 0} {Bad : E → Type 0} {l : Inst os} {bs cs : List ℕ} (m n : Exec (Inst os) E Unit)
      → Added Bad l bs (m l)
      → ((l' : Inst os) → IsSame l l' → Added Bad l' cs (n l'))
      → Added Bad l (bs ++ cs) ((m >> n) l)
  unfolding ◌>>=◌
  >>-Added_same {l} {bs} {cs} m n (whole r t s) k = rw (r, continue) (extend bs t s (k (m l).1 s))
  >>-Added_same {l} {bs} {cs} m n (part e p q r b c t s) k =
      rw (r, continue) (part e p (q ++ cs) refl b (rw (← append_assoc, c)) t s)

  pub >>-Added :
      {E : Type 0} {Bad : E → Type 0} {l : Inst os} {bs cs : List ℕ} (m n : Exec (Inst os) E Unit)
      → Added Bad l bs (m l)
      → ((l' : Inst os) → Added Bad l' cs (n l'))
      → Added Bad l (bs ++ cs) ((m >> n) l)
  >>-Added m n a k = >>-Added_same m n a (λ l' _. k l')

  -- The same for bytes with a time in them, in milliseconds: it was read during the operation.
  pub record Timed {E : Type 0} (Bad : E → Type 0) (l : Inst os) (bytes : ℕ → List ℕ)
      (out : Result E Unit × Inst os) : Type 0 where
    pub ms : ℕ
    pub after : os.k_uptime_get l.file ≤ ms
    pub before : ms ≤ os.k_uptime_get out.1.file
    pub added : Added Bad l (bytes ms) out

  Added-clock :
      {E : Type 0} {Bad : E → Type 0} {l : Inst os} {bs : List ℕ} {out : Result E Unit × Inst os}
      → Added Bad l bs out
      → os.k_uptime_get l.file ≤ os.k_uptime_get out.1.file
  Added-clock (whole r t s) = s.clock
  Added-clock (part e p q r b c t s) = s.clock

  pub >>-Timed :
      {E : Type 0} {Bad : E → Type 0} {l : Inst os} {bs : List ℕ} {bytes : ℕ → List ℕ}
      (m n : Exec (Inst os) E Unit)
      → Added Bad l bs (m l)
      → ((l' : Inst os) → Timed Bad l' bytes (n l'))
      → Timed Bad l (λ ms. bs ++ bytes ms) ((m >> n) l)
  unfolding ◌>>=◌
  >>-Timed {l} {bs} m n (whole r t s) k =
      let rest = k (m l).1 in
      rw (r, continue)
        (record {
          ms = rest.ms;
          after = omega (arith, rest.after, s.clock);
          before = rest.before;
          added = extend bs t s rest.added;
        })
  >>-Timed {l} {bytes = bytes} m n (part e p q r b c t s) k =
      rw (r, continue)
        (record {
          ms = os.k_uptime_get l.file;
          after = omega arith;
          before = s.clock;
          added =
              part e p (q ++ bytes (os.k_uptime_get l.file)) refl b (rw (← append_assoc, c)) t s;
        })

  -- Bytes behind those with the time.
  pub Timed->> :
      {E : Type 0} {Bad : E → Type 0} {l : Inst os} {bytes : ℕ → List ℕ} {cs : List ℕ}
      (m n : Exec (Inst os) E Unit)
      → Timed Bad l bytes (m l)
      → ((l' : Inst os) → Added Bad l' cs (n l'))
      → Timed Bad l (λ now. bytes now ++ cs) ((m >> n) l)
  Timed->> {E} {Bad} {l} {bytes} m n h k = record {
    ms = h.ms;
    after = h.after;
    before = go h.added;
    added = >>-Added m n h.added k;
  }
    where
      go : Added Bad l (bytes h.ms) (m l) → h.ms ≤ os.k_uptime_get ((m >> n) l).1.file
      go (whole r t s) =
          unfold ◌>>=◌ in rw (r, continue) (omega (arith, h.before, Added-clock (k (m l).1)))
      go (part e p q r b c t s) = unfold ◌>>=◌ in rw (r, continue) h.before

  pub uptime-Timed :
      {E : Type 0} {Bad : E → Type 0} {l : Inst os} {bytes : ℕ → List ℕ}
      (f : ℕ → Exec (Inst os) E Unit)
      → ((ms : ℕ) → Added Bad l (bytes ms) (f (ms * 1000 % 2 ^ 64) l))
      → Timed Bad l bytes ((uptime_us os >>= f) l)
  unfolding ◌>>=◌ uptime_us
  uptime-Timed {l} f k = record {
    ms = os.k_uptime_get l.file;
    after = omega arith;
    before = Added-clock (k (os.k_uptime_get l.file));
    added = k (os.k_uptime_get l.file);
  }

  pub or_return-Timed :
      {E : Type 0} {Bad : E → Type 0} {l : Inst os} {bytes : ℕ → List ℕ} (m : Exec (Inst os) E Unit)
      → Timed Bad l bytes (m l)
      → Timed IsRefusal l bytes (or_return m filesystem_error l)
  unfolding or_return
  or_return-Timed m h = record {
    ms = h.ms;
    after = h.after;
    before = h.before;
    added = or_return-Added m h.added;
  }

  module _ (full : NeverShort os) where
    pub try_write-Added : (l : Inst os) (bs : List ℕ) → Added IsCode l bs (try_write os bs l)
    unfolding try_write
    try_write-Added l bs = go (os.fs_write bs l.file).0 refl
      where
        go : (ret : ℤ) → (os.fs_write bs l.file).0 ≡ ret → Added IsCode l bs (try_write os bs l)
        go (pos n) e =
            whole (rw e)
              ((disk.counted bs l.file n e).1 ∙ rw (full.whole bs l.file n e, take-length))
              (record { phase = refl; next_msg_id = refl; clock = disk.clock_forward bs l.file })
        go (negsuc n) e =
            part (negsuc n) [] bs (rw e) refl refl
              (disk.refused bs l.file (rw e) ∙ sym (append-nil _))
              (record { phase = refl; next_msg_id = refl; clock = disk.clock_forward bs l.file })

    pub save-Added : (l : Inst os) (bs : List ℕ) → Added IsRefusal l bs (save os bs l)
    unfolding save
    save-Added l bs = or_return-Added (try_write os bs) (try_write-Added l bs)
