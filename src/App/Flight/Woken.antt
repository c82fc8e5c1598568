-- ===== src/App/Flight/Woken.antt =====
-- A thread that has time for a wait and a read.
use efc.Common.{◌≡◌, ◌≢◌, refl, ap, ◌∙◌, List, [], ◌∷◌, true, arith, none, some}
use efc.App.Logger.{Imu6dofData}
use efc.App.Bus.{read, Notice, Chan, Sub, Zbus}
use efc.App.Bus.Laws.{Seen, IsZbus, ReadsInTime, read-quiet, read-notice}
use efc.App.Startup.{Board}
use efc.App.Flight.{Flight, goes_on, after_wait, has_had, listen, change}
use efc.App.Flight.Acts.{
  Acts, stays, imu_came, baro_came, told_of, heard_one, unread, change-same, change-other,
  Sub-discrete,
}
use efc.App.Flight.Heard.{notice-goes_on}

pub data AtMostOne : List Chan → Type 0 where
  nothing : AtMostOne []
  one : (c : Chan) → AtMostOne (c ∷ [])

-- From an empty queue a turn puts in one notification at most.
pub Acts-AtMostOne :
    {P : Chan → List Chan → Type 0} {M : Imu6dofData → Type 0} (x y : Seen) (h h' : List Notice)
    → Acts P M x h y h'
    → x.queue ≡ []
    → AtMostOne y.queue
Acts-AtMostOne x y h h' (stays e f) q = rw (e, q) nothing
Acts-AtMostOne x y h h' (imu_came m made p e f) q = rw (e, q) (one _)
Acts-AtMostOne x y h h' (baro_came m p e f) q = rw (e, q) (one _)
Acts-AtMostOne x y h h' (told_of c t e f) q = rw (e, q) (one c)
Acts-AtMostOne x y h h' (heard_one c cs o e f) q = absurd (ground (arith, o, q))

module _ {b : Board} {z : Zbus b.drivers} (bus : IsZbus z) where
  abbrev pub queue : Sub → Flight b z → List Chan
  queue sub w = (bus.look sub w.firmware.io).queue

  -- Both threads run and wait.
  pub record IsIdle (w : Flight b z) : Type 0 where
    pub awake : (sub : Sub) → w.listening sub ≡ true
    pub waits : (sub : Sub) → w.reading sub ≡ none

  abbrev pub twice : Sub → Flight b z → Flight b z
  twice sub w = listen b z sub (listen b z sub w)

  -- Both threads run and have nothing to do.
  pub record Calm (w : Flight b z) : Type 0 where
    pub awake : (sub : Sub) → w.listening sub ≡ true
    pub waits : (sub : Sub) → w.reading sub ≡ none
    pub quiet : (sub : Sub) → (bus.look sub w.firmware.io).queue ≡ []

  pub Calm-IsIdle : (w : Flight b z) → Calm w → IsIdle w
  Calm-IsIdle w c = record { awake = c.awake; waits = c.waits }

  pub Calm-unread : (w : Flight b z) (sub : Sub) → Calm w → unread bus sub w ≡ []
  Calm-unread w sub c = rw (c.waits sub, c.quiet sub) refl

  module _ (in_time : ReadsInTime z) where
    -- After the wait and the read of thread `sub`, for which one notification waited at most.
    pub record Woken (sub : Sub) (w w' : Flight b z) : Type 0 where
      pub idle : IsIdle w'
      pub own : queue sub w' ≡ []
      pub others : (other : Sub) → other ≢ sub → queue other w' ≡ queue other w

    listen-wait :
        (sub : Sub) (w : Flight b z)
        → w.listening sub ≡ true
        → w.reading sub ≡ none
        → listen b z sub w ≡ after_wait b z sub (z.zbus_sub_wait sub w.firmware.io) w
    unfolding listen
    listen-wait sub w a r = rw (a, r) refl

    listen-read :
        (sub : Sub) (w : Flight b z) (c : Chan)
        → w.listening sub ≡ true
        → w.reading sub ≡ some c
        → listen b z sub w ≡ has_had b z sub (read z c w.firmware.io) w
    unfolding listen
    listen-read sub w c a r = rw (a, r) refl

    pub listen-nothing :
        (sub : Sub) (w : Flight b z) → IsIdle w → queue sub w ≡ [] → listen b z sub w ≡ w
    listen-nothing sub w a e =
        listen-wait sub w (a.awake sub) (a.waits sub)
        ∙ ap (λ r. after_wait b z sub r w) (bus.wait_empty sub w.firmware.io e)

    had-awake :
        (sub : Sub) (c : Chan) (w : Flight b z) (n : Notice) (s : Sub)
        → goes_on n ≡ true
        → w.listening s ≡ true
        → change sub (goes_on n) w.listening s ≡ true
    had-awake sub c w n s g a = elim (Sub-discrete s sub) [
      | yes e ↦ rw e (change-same sub _ w.listening ∙ g)
      | no d ↦ change-other sub s _ w.listening d ∙ a
    ]

    had-waits :
        (sub : Sub) (c : Chan) (w : Flight b z) (s : Sub)
        → w.reading s ≡ none
        → change sub none (change sub (some c) w.reading) s ≡ none
    had-waits sub c w s a = elim (Sub-discrete s sub) [
      | yes e ↦ rw e (change-same sub _ _)
      | no d ↦ change-other sub s _ _ d ∙ change-other sub s _ w.reading d ∙ a
    ]

    -- The wait and the read of the only notification.
    handled :
        (sub : Sub) (w : Flight b z) (c : Chan)
        → IsIdle w
        → queue sub w ≡ c ∷ []
        → Woken sub w (twice sub w)
    handled sub w c a e =
        let (s, over, own, others) = bus.wait_oldest sub w.firmware.io c [] e in
        let got : Flight b z = record w {
          firmware = record w.firmware { io = s };
          reading = change sub (some c) w.reading;
        } in
        let first : listen b z sub w ≡ got =
          listen-wait sub w (a.awake sub) (a.waits sub) ∙ ap (λ r. after_wait b z sub r w) over in
        let second : listen b z sub got ≡ has_had b z sub (read z c s) got =
          listen-read sub got c (a.awake sub) (change-same sub (some c) w.reading) in
        let fine =
          ap goes_on (read-notice bus in_time sub c s) ∙ notice-goes_on c (bus.look sub s) in
        rw (first, second)
          (record {
            idle = record {
              awake = λ t. had-awake sub c w (read z c s).0 t fine (a.awake t);
              waits = λ t. had-waits sub c w t (a.waits t);
            };
            own = ap (λ x. x.queue) (read-quiet bus sub c s ∙ own);
            others = λ other d. ap (λ x. x.queue) (read-quiet bus other c s ∙ others other d);
          })

    pub listen-Woken :
        (sub : Sub) (w : Flight b z)
        → IsIdle w
        → AtMostOne (queue sub w)
        → Woken sub w (twice sub w)
    listen-Woken sub w a few = go (queue sub w) refl few
      where
        go : (q : List Chan) → queue sub w ≡ q → AtMostOne q → Woken sub w (twice sub w)
        go [] e nothing =
            let same = listen-nothing sub w a e in
            rw (same, same) (record { idle = a; own = e; others = λ other d. refl })
        go (c ∷ []) e (one _) = handled sub w c a e
        go (c ∷ d ∷ cs) e x = elim x [ ]
