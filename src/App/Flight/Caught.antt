-- ===== src/App/Flight/Caught.antt =====
-- A thread that has had the last sample of a sensor before the next one comes has every sample once.
pub mod Imu
pub mod Baro
use efc.Common.{
  ℕ, ◌+◌, ◌≡◌, refl, ap, ap₂, ◌∙◌, sym, List, [], ◌∷◌, ◌++◌, append_assoc, append-nil, Bool, true,
  false, if◌then◌else◌, arith,
}
use efc.App.Logger.{Imu6dofData, BaroData}
use efc.App.Bus.{
  Chan, imu_chan, baro_chan, sync_chan, heartbeat_chan, Notice, imu, baro, told, failed,
}
use efc.App.Bus.Laws.{Seen, imu_published, baro_published, notified, notice}
use efc.App.Flight.Acts.{Acts, stays, imu_came, baro_came, told_of, heard_one, is_timer}

abbrev pub same_chan : Chan → Chan → Bool
same_chan imu_chan imu_chan = true
same_chan baro_chan baro_chan = true
same_chan sync_chan sync_chan = true
same_chan heartbeat_chan heartbeat_chan = true
same_chan _ _ = false

-- How often a channel is in a queue.
abbrev pub count : Chan → List Chan → ℕ
count c [] = 0
count c (d ∷ q) = if same_chan c d then count c q + 1 else count c q

-- Nothing new of the channel waits.
abbrev pub IsRead : Chan → List Chan → Type 0
IsRead c q = count c q ≡ 0

-- The samples that a thread has had.
abbrev pub imus : List Notice → List Imu6dofData
imus [] = []
imus (imu m ∷ ns) = m ∷ imus ns
imus (_ ∷ ns) = imus ns

abbrev pub baros : List Notice → List BaroData
baros [] = []
baros (baro m ∷ ns) = m ∷ baros ns
baros (_ ∷ ns) = baros ns

pub imus-append : (ns ms : List Notice) → imus (ns ++ ms) ≡ imus ns ++ imus ms
imus-append [] ms = refl
imus-append (imu m ∷ ns) ms = ap (λ l. m ∷ l) (imus-append ns ms)
imus-append (baro m ∷ ns) ms = imus-append ns ms
imus-append (told c ∷ ns) ms = imus-append ns ms
imus-append (failed ∷ ns) ms = imus-append ns ms

pub baros-append : (ns ms : List Notice) → baros (ns ++ ms) ≡ baros ns ++ baros ms
baros-append [] ms = refl
baros-append (baro m ∷ ns) ms = ap (λ l. m ∷ l) (baros-append ns ms)
baros-append (imu m ∷ ns) ms = baros-append ns ms
baros-append (told c ∷ ns) ms = baros-append ns ms
baros-append (failed ∷ ns) ms = baros-append ns ms

pub count-last :
    (c d : Chan) (q : List Chan)
    → count c (q ++ d ∷ []) ≡ count c q + (if same_chan c d then 1 else 0)
count-last c d [] = ground arith
count-last c d (e ∷ q) = ground (arith, count-last c d q)

-- One sensor: all its samples, the last one, what a thread has had of it, and how often its channel
-- waits.
pub record Topic (A : Type 0) : Type 0 where
  pub all : List A
  pub now : A
  pub got : List A
  pub waits : ℕ

abbrev pub imu_topic : Seen → List Notice → Topic Imu6dofData
imu_topic x h = record {
  all = x.imus;
  now = x.imu_now;
  got = imus h;
  waits = count imu_chan x.queue;
}

abbrev pub baro_topic : Seen → List Notice → Topic BaroData
baro_topic x h = record {
  all = x.baros;
  now = x.baro_now;
  got = baros h;
  waits = count baro_chan x.queue;
}

-- What an act is for one sensor; `Q` holds of a sample that comes.
pub data Moves {A : Type 0} (Q : A → Type 0) (s t : Topic A) : Type 0 where
  elsewhere : t ≡ s → Moves Q s t
  came :
      (m : A)
      → Q m
      → t ≡ record s { all = s.all ++ m ∷ []; now = m; waits = s.waits + 1 }
      → Moves Q s t
  had :
      (n : ℕ)
      → s.waits ≡ n + 1
      → t ≡ record s { got = s.got ++ s.now ∷ []; waits = n }
      → Moves Q s t

-- A notification of another channel is nothing to the sensor.
pub other_last :
    (c d : Chan) (q : List Chan) → same_chan c d ≡ false → count c (q ++ d ∷ []) ≡ count c q
other_last c d q e = ground (arith, count-last c d q)

pub own_last :
    (c d : Chan) (q : List Chan) → same_chan c d ≡ true → count c (q ++ d ∷ []) ≡ count c q + 1
own_last c d q e = ground (arith, count-last c d q)

-- A thread that has had all samples since `before`, or all but the last, which still waits.
pub data Caught {A : Type 0} (before : List A) (s : Topic A) : Type 0 where
  level : s.waits ≡ 0 → s.all ≡ before ++ s.got → Caught before s
  behind : s.waits ≡ 1 → s.all ≡ (before ++ s.got) ++ s.now ∷ [] → Caught before s

pub Moves-Caught :
    {A : Type 0} {Q : A → Type 0} (before : List A) (s t : Topic A)
    → ((m : A) → Q m → s.waits ≡ 0)
    → Moves Q s t
    → Caught before s
    → Caught before t
Moves-Caught before s t read (elsewhere e) c = rw e c
Moves-Caught before s t read (came m q e) (level w all) =
    rw e (behind (omega (arith, w)) (ap (λ l. l ++ m ∷ []) all))
Moves-Caught before s t read (came m q e) (behind w all) =
    let none = read m q in absurd (omega (arith, none, w))
Moves-Caught before s t read (had n p e) (level w all) = absurd (omega (arith, p, w))
Moves-Caught before s t read (had n p e) (behind w all) =
    rw e (level (omega (arith, p, w)) (all ∙ append_assoc before s.got (s.now ∷ [])))

-- Where nothing waits the thread has had all.
pub Caught-all :
    {A : Type 0} (before : List A) (s : Topic A)
    → Caught before s
    → s.waits ≡ 0
    → s.all ≡ before ++ s.got
Caught-all before s (level w all) n = all
Caught-all before s (behind w all) n = absurd (omega (arith, w, n))
