-- ===== src/App/Flight/Caught/Baro.antt =====
-- What an act is for the samples of the barometer.
use efc.Common.{
  ◌+◌, ◌≡◌, refl, ap, ap₂, ◌∙◌, sym, List, [], ◌∷◌, ◌++◌, append-nil, Bool, true, false,
  if◌then◌else◌, arith,
}
use efc.App.Logger.{Imu6dofData}
use efc.App.Bus.{Chan, imu_chan, baro_chan, sync_chan, heartbeat_chan, Notice, imu, baro, told}
use efc.App.Bus.Laws.{Seen, imu_published, baro_published, notified}
use efc.App.Flight.Acts.{Acts, stays, imu_came, baro_came, told_of, heard_one, is_timer}
use efc.App.Flight.Caught.{
  same_chan, count, baros, baros-append, other_last, own_last, baro_topic, Moves, elsewhere, came,
  had,
}

timer_not_baro : (c : Chan) → is_timer c ≡ true → same_chan baro_chan c ≡ false
timer_not_baro baro_chan t = cc
timer_not_baro imu_chan t = cc
timer_not_baro sync_chan t = refl
timer_not_baro heartbeat_chan t = refl

baro_view : (x y : Seen) (h h' : List Notice) → y ≡ x → h' ≡ h → baro_topic y h' ≡ baro_topic x h
baro_view x y h h' e f = ap₂ baro_topic e f

baro_got :
    (x : Seen) (cs : List Chan) (h : List Notice) (n : Notice)
    → baro_topic (record x { queue = cs }) (h ++ n ∷ [])
      ≡ record (baro_topic x h) { got = baros h ++ baros (n ∷ []); waits = count baro_chan cs }
baro_got x cs h n =
    ap (λ l. record (baro_topic x h) { got = l; waits = count baro_chan cs })
      (baros-append h (n ∷ []))

-- Something else has been had.
baro_passed :
    (x y : Seen) (c : Chan) (cs : List Chan) (h h' : List Notice) (n : Notice)
    → baros (n ∷ []) ≡ []
    → same_chan baro_chan c ≡ false
    → x.queue ≡ c ∷ cs
    → y ≡ record x { queue = cs }
    → h' ≡ h ++ n ∷ []
    → baro_topic y h' ≡ baro_topic x h
baro_passed x y c cs h h' n none_had other q e f =
    baro_view (record x { queue = cs }) y (h ++ n ∷ []) h' e f
    ∙ baro_got x cs h n
    ∙ ap₂ (λ l k. record (baro_topic x h) { got = l; waits = k })
        (ap (λ l. baros h ++ l) none_had ∙ append-nil (baros h))
        (sym (
          ap (count baro_chan) q
          ∙ ap (λ (t : Bool). if t then count baro_chan cs + 1 else count baro_chan cs) other))

pub baro-Moves :
    (P : Chan → List Chan → Type 0) (M : Imu6dofData → Type 0) (x y : Seen) (h h' : List Notice)
    → Acts P M x h y h'
    → Moves (λ m. P baro_chan x.queue) (baro_topic x h) (baro_topic y h')
baro-Moves P M x y h h' (stays e f) = elsewhere (baro_view x y h h' e f)
baro-Moves P M x y h h' (baro_came m p e f) = came m p (
    baro_view (baro_published m x) y h h' e f
    ∙ ap (λ n. record (baro_topic (baro_published m x) h) { waits = n })
        (own_last baro_chan baro_chan x.queue refl))
baro-Moves P M x y h h' (imu_came m made p e f) = elsewhere (
    baro_view (imu_published m x) y h h' e f
    ∙ ap (λ n. record (baro_topic x h) { waits = n }) (other_last baro_chan imu_chan x.queue refl))
baro-Moves P M x y h h' (told_of c t e f) = elsewhere (
    baro_view (notified c x) y h h' e f
    ∙ ap (λ n. record (baro_topic x h) { waits = n })
        (other_last baro_chan c x.queue (timer_not_baro c t)))
baro-Moves P M x y h h' (heard_one baro_chan cs q e f) =
    had (count baro_chan cs) (ap (count baro_chan) q ∙ omega arith) (
      baro_view (record x { queue = cs }) y (h ++ baro x.baro_now ∷ []) h' e f
      ∙ baro_got x cs h (baro x.baro_now))
baro-Moves P M x y h h' (heard_one imu_chan cs q e f) =
    elsewhere (baro_passed x y imu_chan cs h h' (imu x.imu_now) refl refl q e f)
baro-Moves P M x y h h' (heard_one sync_chan cs q e f) =
    elsewhere (baro_passed x y sync_chan cs h h' (told sync_chan) refl refl q e f)
baro-Moves P M x y h h' (heard_one heartbeat_chan cs q e f) =
    elsewhere (baro_passed x y heartbeat_chan cs h h' (told heartbeat_chan) refl refl q e f)
