-- ===== src/App/Flight/Ascending.antt =====
-- The time stamps of the IMU.
use mathlib.Core.Path.{subst}
use mathlib.Core.List.{append_cancel_left}
use efc.Common.{
  ℕ, zero, suc, ◌*◌, ◌^◌, ◌≤◌, ◌<◌, ◌≡◌, ap, ◌∙◌, sym, List, [], ◌∷◌, ◌++◌, append_assoc,
  append-nil, Bool, All, All-append, arith,
}
use efc.App.Logger.{Imu6dofData}
use efc.App.Bus.{Sub, Zbus}
use efc.App.Bus.Laws.{IsZbus, ReadsInTime}
use efc.App.Startup.{Board}
use efc.App.Flight.{Turn, Flight, step, run}
use efc.App.Flight.Acts.{IsStill, seen, unread, AllDue, Sampled}
use efc.App.Flight.Steps.{step-Acts}
use efc.App.Flight.Caught.{imus, imu_topic, Moves, elsewhere, came, had}
use efc.App.Flight.Caught.Imu.{imu-Moves}
use efc.App.Flight.Clock.{IsClock, uptime, process_imu-clock, step-later, run-later}
use efc.App.Flight.Lag.{times, Anything, IsReplay, late_thread_repeats}

-- No sample has an earlier time than one before it.
abbrev pub IsAscending : List Imu6dofData → Type 0
IsAscending [] = Unit {0}
IsAscending (m ∷ ms) = All (λ n. m.timestamp_us ≤ n.timestamp_us) ms × IsAscending ms

IsAscending-last :
    (ms : List Imu6dofData) (m : Imu6dofData)
    → IsAscending ms
    → All (λ n. n.timestamp_us ≤ m.timestamp_us) ms
    → IsAscending (ms ++ m ∷ [])
IsAscending-last [] m h past = (tt, tt)
IsAscending-last (n ∷ ms) m (hn, h) (pn, past) = (
  All-append (λ k. n.timestamp_us ≤ k.timestamp_us) ms (m ∷ []) hn (pn, tt),
  IsAscending-last ms m h past,
)

All-map :
    {P Q : Imu6dofData → Type 0} (ms : List Imu6dofData)
    → ((m : Imu6dofData) → P m → Q m)
    → All P ms
    → All Q ms
All-map [] f h = tt
All-map (m ∷ ms) f (hm, h) = (f m hm, All-map ms f h)

All-times :
    (P : Imu6dofData → Type 0) (n : ℕ) (m : Imu6dofData) (rest : List Imu6dofData)
    → P m
    → All P rest
    → All P (times n m ++ rest)
All-times P zero m rest h hs = hs
All-times P (suc n) m rest h hs = (h, All-times P n m rest h hs)

All-replay :
    (P : Imu6dofData → Type 0) (ms ns : List Imu6dofData) → IsReplay ms ns → All P ms → All P ns
All-replay P [] ns e h = rw e tt
All-replay P (m ∷ ms) ns (n, rest, e, r) (h, hs) =
    rw e (All-times P n m rest h (All-replay P ms rest r hs))

IsAscending-times :
    (n : ℕ) (m : Imu6dofData) (rest : List Imu6dofData)
    → All (λ k. m.timestamp_us ≤ k.timestamp_us) rest
    → IsAscending rest
    → IsAscending (times n m ++ rest)
IsAscending-times zero m rest h a = a
IsAscending-times (suc n) m rest h a = (
  All-times (λ k. m.timestamp_us ≤ k.timestamp_us) n m rest (omega arith) h,
  IsAscending-times n m rest h a,
)

-- A replay of ascending samples is ascending.
IsAscending-replay : (ms ns : List Imu6dofData) → IsReplay ms ns → IsAscending ms → IsAscending ns
IsAscending-replay [] ns e a = rw e tt
IsAscending-replay (m ∷ ms) ns (n, rest, e, r) (h, a) = rw e (
    IsAscending-times n m rest (All-replay (λ k. m.timestamp_us ≤ k.timestamp_us) ms rest r h)
      (IsAscending-replay ms rest r a))

module _ {b : Board} {z : Zbus b.drivers} (bus : IsZbus z) (time : IsClock b z) (me : Sub)
    (dev : b.drivers.Device) (using_trigger : Bool) (still : IsStill b bus)
    (in_time : ReadsInTime z) where
  -- The samples since `start`, none of them later than now.
  record Stamped (start w : Flight b z) : Type 0 where
    since : List Imu6dofData
    all : (seen bus Anything me w).imus ≡ (seen bus Anything me start).imus ++ since
    ascending : IsAscending since
    past : All (λ m. m.timestamp_us ≤ uptime time w * 1000) since

  stamp :
      (w w' : Flight b z) (m : Imu6dofData)
      → Sampled bus Anything me dev w w'.firmware.io m
      → uptime time w' * 1000 < 2 ^ 64
      → (uptime time w * 1000 ≤ m.timestamp_us) × (m.timestamp_us ≤ uptime time w' * 1000)
  stamp w w' m (made, ends) bound =
      let stamped = ap (λ k. k.timestamp_us) made in
      let first = time.fetched dev w.firmware.io in
      let last = process_imu-clock time dev w.firmware.io in
      let same = ap (λ s. b.drivers.k_uptime_get s) ends in
      (omega (arith, stamped, first, last, same), omega (arith, stamped, first, last, same))

  Moves-Stamped :
      (start w w' : Flight b z)
      → uptime time w ≤ uptime time w'
      → uptime time w' * 1000 < 2 ^ 64
      → Moves
          (λ m. Sampled bus Anything me dev w w'.firmware.io m × Unit {0})
          (imu_topic (seen bus Anything me w) (w.heard me))
          (imu_topic (seen bus Anything me w') (w'.heard me))
      → Stamped start w
      → Stamped start w'
  Moves-Stamped start w w' later bound (elsewhere e) r = record {
    since = r.since;
    all = ap (λ t. t.all) e ∙ r.all;
    ascending = r.ascending;
    past = All-map r.since (λ m h. omega (arith, h, later)) r.past;
  }
  Moves-Stamped start w w' later bound (had n p e) r = record {
    since = r.since;
    all = ap (λ t. t.all) e ∙ r.all;
    ascending = r.ascending;
    past = All-map r.since (λ m h. omega (arith, h, later)) r.past;
  }
  Moves-Stamped start w w' later bound (came m (made, p) e) r =
      let (low, high) = stamp w w' m made bound in
      record {
        since = r.since ++ m ∷ [];
        all =
            ap (λ t. t.all) e
            ∙ ap (λ l. l ++ m ∷ []) r.all
            ∙ append_assoc (seen bus Anything me start).imus r.since (m ∷ []);
        ascending =
            IsAscending-last r.since m r.ascending
              (All-map r.since (λ n h. omega (arith, h, low)) r.past);
        past =
            All-append (λ n. n.timestamp_us ≤ uptime time w' * 1000) r.since (m ∷ [])
              (All-map r.since (λ n h. omega (arith, h, later)) r.past) (high, tt);
      }

  run-Stamped :
      (start w : Flight b z) (ts : List Turn)
      → AllDue bus Anything me dev using_trigger ts w
      → uptime time (run b z dev using_trigger ts w) * 1000 < 2 ^ 64
      → Stamped start w
      → Stamped start (run b z dev using_trigger ts w)
  unfolding run
  run-Stamped start w [] due bound r = r
  run-Stamped start w (t ∷ ts) (due, rest) bound r =
      let w' = step b z dev using_trigger t w in
      let acts = step-Acts bus Anything me still in_time dev using_trigger t w due in
      let later = step-later time dev using_trigger t w in
      let end = run-later time dev using_trigger ts w' in
      run-Stamped start w' ts rest bound (
        Moves-Stamped start w w' later (omega (arith, end, bound))
          (imu-Moves Anything _ _ _ _ _ acts) r)

  -- With zbus as IsZbus describes it, where the LED and a pause leave it alone, no read of a
  -- channel fails and the uptime does not go back: however main, the interrupt, the timers, and
  -- the waits and reads of the threads take turns, and however late a thread is, if the queues
  -- have room whenever the interrupt or the running main samples a sensor and the uptime at the
  -- end is below 2 ^ 64 microseconds, then the time stamps of the IMU's samples that a thread
  -- has had never go back, if it had heard nothing, nothing waited and nothing was about to be
  -- read at the start.
  pub heard_stamps_ascend :
      (ts : List Turn) (w : Flight b z)
      → let w' = run b z dev using_trigger ts w in
        w.heard me ≡ []
        → unread bus me w ≡ []
        → AllDue bus Anything me dev using_trigger ts w
        → uptime time w' * 1000 < 2 ^ 64
        → IsAscending (imus (w'.heard me))
  heard_stamps_ascend ts w h q due bound =
      let w' = run b z dev using_trigger ts w in
      let r =
        run-Stamped w w ts due bound
          (record { since = []; all = sym (append-nil _); ascending = tt; past = tt }) in
      let (is, bs, all, baros, replay, replays) =
        late_thread_repeats bus me dev using_trigger still in_time ts w h q due in
      IsAscending-replay is (imus (w'.heard me)) replay (
        subst IsAscending
          (append_cancel_left (seen bus Anything me w).imus r.since is (sym r.all ∙ all))
          r.ascending)
