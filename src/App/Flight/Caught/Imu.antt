-- ===== src/App/Flight/Caught/Imu.antt =====
-- What an act is for the samples of the IMU.
use efc.Common.{
  ◌+◌, ◌≡◌, refl, ap, ap₂, ◌∙◌, sym, List, [], ◌∷◌, ◌++◌, append-nil, Bool, true, false,
  if◌then◌else◌, arith,
}
use efc.App.Logger.{Imu6dofData}
use efc.App.Bus.{Chan, imu_chan, baro_chan, sync_chan, heartbeat_chan, Notice, imu, baro, told}
use efc.App.Bus.Laws.{Seen, imu_published, baro_published, notified}
use efc.App.Flight.Acts.{Acts, stays, imu_came, baro_came, told_of, heard_one, is_timer}
use efc.App.Flight.Caught.{
  same_chan, count, imus, imus-append, other_last, own_last, imu_topic, Moves, elsewhere, came, had,
}

timer_not_imu : (c : Chan) → is_timer c ≡ true → same_chan imu_chan c ≡ false
timer_not_imu imu_chan t = cc
timer_not_imu baro_chan t = cc
timer_not_imu sync_chan t = refl
timer_not_imu heartbeat_chan t = refl

imu_view : (x y : Seen) (h h' : List Notice) → y ≡ x → h' ≡ h → imu_topic y h' ≡ imu_topic x h
imu_view x y h h' e f = ap₂ imu_topic e f

imu_got :
    (x : Seen) (cs : List Chan) (h : List Notice) (n : Notice)
    → imu_topic (record x { queue = cs }) (h ++ n ∷ [])
      ≡ record (imu_topic x h) { got = imus h ++ imus (n ∷ []); waits = count imu_chan cs }
imu_got x cs h n =
    ap (λ l. record (imu_topic x h) { got = l; waits = count imu_chan cs }) (imus-append h (n ∷ []))

-- Something else has been had.
imu_passed :
    (x y : Seen) (c : Chan) (cs : List Chan) (h h' : List Notice) (n : Notice)
    → imus (n ∷ []) ≡ []
    → same_chan imu_chan c ≡ false
    → x.queue ≡ c ∷ cs
    → y ≡ record x { queue = cs }
    → h' ≡ h ++ n ∷ []
    → imu_topic y h' ≡ imu_topic x h
imu_passed x y c cs h h' n none_had other q e f =
    imu_view (record x { queue = cs }) y (h ++ n ∷ []) h' e f
    ∙ imu_got x cs h n
    ∙ ap₂ (λ l k. record (imu_topic x h) { got = l; waits = k })
        (ap (λ l. imus h ++ l) none_had ∙ append-nil (imus h))
        (sym (
          ap (count imu_chan) q
          ∙ ap (λ (t : Bool). if t then count imu_chan cs + 1 else count imu_chan cs) other))

pub imu-Moves :
    (P : Chan → List Chan → Type 0) (M : Imu6dofData → Type 0) (x y : Seen) (h h' : List Notice)
    → Acts P M x h y h'
    → Moves (λ m. M m × P imu_chan x.queue) (imu_topic x h) (imu_topic y h')
imu-Moves P M x y h h' (stays e f) = elsewhere (imu_view x y h h' e f)
imu-Moves P M x y h h' (imu_came m made p e f) =
    came m (made, p)
      (imu_view (imu_published m x) y h h' e f
        ∙ ap (λ n. record (imu_topic (imu_published m x) h) { waits = n })
            (own_last imu_chan imu_chan x.queue refl))
imu-Moves P M x y h h' (baro_came m p e f) = elsewhere (
    imu_view (baro_published m x) y h h' e f
    ∙ ap (λ n. record (imu_topic x h) { waits = n }) (other_last imu_chan baro_chan x.queue refl))
imu-Moves P M x y h h' (told_of c t e f) = elsewhere (
    imu_view (notified c x) y h h' e f
    ∙ ap (λ n. record (imu_topic x h) { waits = n })
        (other_last imu_chan c x.queue (timer_not_imu c t)))
imu-Moves P M x y h h' (heard_one imu_chan cs q e f) =
    had (count imu_chan cs) (ap (count imu_chan) q ∙ omega arith) (
      imu_view (record x { queue = cs }) y (h ++ imu x.imu_now ∷ []) h' e f
      ∙ imu_got x cs h (imu x.imu_now))
imu-Moves P M x y h h' (heard_one baro_chan cs q e f) =
    elsewhere (imu_passed x y baro_chan cs h h' (baro x.baro_now) refl refl q e f)
imu-Moves P M x y h h' (heard_one sync_chan cs q e f) =
    elsewhere (imu_passed x y sync_chan cs h h' (told sync_chan) refl refl q e f)
imu-Moves P M x y h h' (heard_one heartbeat_chan cs q e f) =
    elsewhere (imu_passed x y heartbeat_chan cs h h' (told heartbeat_chan) refl refl q e f)
