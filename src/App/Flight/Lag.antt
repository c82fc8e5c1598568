-- ===== src/App/Flight/Lag.antt =====
-- A thread that is slower than the sensors.
use efc.Common.{
  ℕ, zero, suc, ◌<◌, ◌≡◌, refl, ap, ◌∙◌, sym, List, [], ◌∷◌, ◌++◌, append_assoc, append-nil, Bool,
  arith,
}
use efc.App.Logger.{Imu6dofData, BaroData}
use efc.App.Bus.{Chan, imu_chan, baro_chan, Sub, Zbus}
use efc.App.Bus.Laws.{IsZbus, ReadsInTime}
use efc.App.Startup.{Board}
use efc.App.Flight.{Turn, Flight, step, run}
use efc.App.Flight.Acts.{IsStill, seen, unread, AllDue}
use efc.App.Flight.Steps.{step-Acts}
use efc.App.Flight.Caught.{
  count, imus, baros, Topic, imu_topic, baro_topic, Moves, elsewhere, came, had,
}
use efc.App.Flight.Caught.Imu.{imu-Moves}
use efc.App.Flight.Caught.Baro.{baro-Moves}

abbrev pub times {ℓ} : {A : Type ℓ} → ℕ → A → List A
times zero x = []
times (suc n) x = x ∷ times n x

-- The second list has the items of the first in their order, each some number of times or not at all.
abbrev pub IsReplay : {A : Type 0} → List A → List A → Type 0
IsReplay [] ys = ys ≡ []
IsReplay {A} (x ∷ xs) ys = (n : ℕ) × (rest : List A) × (ys ≡ times n x ++ rest) × IsReplay xs rest

IsReplay-left_out :
    {A : Type 0} (xs ys : List A) (x : A) → IsReplay xs ys → IsReplay (xs ++ x ∷ []) ys
IsReplay-left_out [] ys x h = (0, [], h, refl)
IsReplay-left_out (a ∷ xs) ys x (n, rest, e, h) = (n, rest, e, IsReplay-left_out xs rest x h)

times-last : {A : Type 0} (n : ℕ) (x : A) → times n x ++ x ∷ [] ≡ times (suc n) x
times-last zero x = refl
times-last (suc n) x = ap (λ l. x ∷ l) (times-last n x)

IsReplay-again :
    {A : Type 0} (xs ys : List A) (x : A)
    → IsReplay (xs ++ x ∷ []) ys
    → IsReplay (xs ++ x ∷ []) (ys ++ x ∷ [])
IsReplay-again [] ys x (n, rest, e, h) = (
  suc n,
  [],
  ap (λ l. l ++ x ∷ []) (e ∙ ap (λ l. times n x ++ l) h ∙ append-nil (times n x))
      ∙ times-last n x
      ∙ sym (append-nil (times (suc n) x)),
  refl,
)
IsReplay-again (a ∷ xs) ys x (n, rest, e, h) = (
  n,
  rest ++ x ∷ [],
  ap (λ l. l ++ x ∷ []) e ∙ append_assoc (times n a) rest (x ∷ []),
  IsReplay-again xs rest x h,
)

-- One sensor: the samples since `before`, of which the thread has had a replay; what waits is the
-- last of them.
record Replays {A : Type 0} (before : List A) (s : Topic A) : Type 0 where
  since : List A
  all : s.all ≡ before ++ since
  replay : IsReplay since s.got
  newest : 0 < s.waits → (older : List A) × (since ≡ older ++ s.now ∷ [])

Moves-Replays :
    {A : Type 0} {Q : A → Type 0} (before : List A) (s t : Topic A)
    → Moves Q s t
    → Replays before s
    → Replays before t
Moves-Replays before s t (elsewhere e) r = rw e r
Moves-Replays before s t (came m q e) r = rw e (record {
  since = r.since ++ m ∷ [];
  all = ap (λ l. l ++ m ∷ []) r.all ∙ append_assoc before r.since (m ∷ []);
  replay = IsReplay-left_out r.since s.got m r.replay;
  newest = λ h. (r.since, refl);
})
Moves-Replays before s t (had n p e) r =
    let (older, last) = r.newest (omega (arith, p)) in
    rw e (record {
      since = r.since;
      all = r.all;
      replay = rw last (IsReplay-again older s.got s.now (rw last at r.replay));
      newest = λ h. (older, last);
    })

-- Nothing is asked of the queue but room.
abbrev pub Anything : Chan → List Chan → Type 0
Anything c q = Unit {0}

module _ {b : Board} {z : Zbus b.drivers} (bus : IsZbus z) (me : Sub) (dev : b.drivers.Device)
    (using_trigger : Bool) (still : IsStill b bus) (in_time : ReadsInTime z) where
  record Lags (start w : Flight b z) : Type 0 where
    imu :
        Replays (seen bus Anything me start).imus (imu_topic (seen bus Anything me w) (w.heard me))
    baro :
        Replays
          (seen bus Anything me start).baros
          (baro_topic (seen bus Anything me w) (w.heard me))

  run-Lags :
      (start w : Flight b z) (ts : List Turn)
      → AllDue bus Anything me dev using_trigger ts w
      → Lags start w
      → Lags start (run b z dev using_trigger ts w)
  unfolding run
  run-Lags start w [] due r = r
  run-Lags start w (t ∷ ts) (due, rest) r =
      let acts = step-Acts bus Anything me still in_time dev using_trigger t w due in
      run-Lags start (step b z dev using_trigger t w) ts rest (record {
        imu = Moves-Replays _ _ _ (imu-Moves Anything _ _ _ _ _ acts) r.imu;
        baro = Moves-Replays _ _ _ (baro-Moves Anything _ _ _ _ _ acts) r.baro;
      })

  none_waits : (c : Chan) (q : List Chan) → q ≡ [] → 0 < count c q → ⊥
  none_waits c q e h = let n = ap (count c) e in omega (arith, n)

  at_start : (w : Flight b z) → w.heard me ≡ [] → unread bus me w ≡ [] → Lags w w
  at_start w h q = record {
    imu = record {
      since = [];
      all = sym (append-nil _);
      replay = ap imus h;
      newest = λ p. absurd (none_waits imu_chan _ q p);
    };
    baro = record {
      since = [];
      all = sym (append-nil _);
      replay = ap baros h;
      newest = λ p. absurd (none_waits baro_chan _ q p);
    };
  }

  -- With zbus as IsZbus describes it, where the LED and a pause leave it alone and no read of a
  -- channel fails: however main, the interrupt, the timers, and the waits and reads of the
  -- threads take turns, and however late a thread is, if the queues have room whenever the
  -- interrupt or the running main samples a sensor, then what a thread has had that has heard
  -- nothing yet and starts with nothing waiting and nothing about to be read are the samples
  -- published meanwhile in their order, each some number of times or not at all.
  pub late_thread_repeats :
      (ts : List Turn) (w : Flight b z)
      → let w' = run b z dev using_trigger ts w in
        let before = bus.look me w.firmware.io in
        let after = bus.look me w'.firmware.io in
        w.heard me ≡ []
        → unread bus me w ≡ []
        → AllDue bus Anything me dev using_trigger ts w
        → (is : List Imu6dofData) × (bs : List BaroData) × (after.imus ≡ before.imus ++ is)
          × (after.baros ≡ before.baros ++ bs)
          × IsReplay is (imus (w'.heard me))
          × IsReplay bs (baros (w'.heard me))
  late_thread_repeats ts w h q due =
      let r = run-Lags w w ts due (at_start w h q) in
      (r.imu.since, r.baro.since, r.imu.all, r.baro.all, r.imu.replay, r.baro.replay)
