-- ===== src/App/Radio/Snapshots.antt =====
-- The stick positions that a sequence of input events stands for, each axis on its own.
use efc.Common.{◌≡◌, refl, List, [], ◌∷◌, ◌++◌, Bool, true, false, ℤ, arith, if◌then◌else◌}
use efc.App.Radio.{
  RadioReceiverData, Code, input_abs_rx, input_abs_ry, input_abs_throttle, input_abs_rz, other_code,
  InputEvent, set_axis, Round, callback, thread,
}

abbrev same_code : Code → Code → Bool
same_code input_abs_rx input_abs_rx = true
same_code input_abs_ry input_abs_ry = true
same_code input_abs_throttle input_abs_throttle = true
same_code input_abs_rz input_abs_rz = true
same_code _ _ = false

-- The value of the last event of a code, and `old` if there is none.
abbrev pub latest : Code → ℤ → List InputEvent → ℤ
latest code old [] = old
latest code old (e ∷ es) = latest code (if same_code code e.code then e.value else old) es

-- The stick positions after some events, each axis on its own.
abbrev pub view : RadioReceiverData → List InputEvent → RadioReceiverData
view d es = record {
  roll_rate = latest input_abs_rx d.roll_rate es;
  pitch_rate = latest input_abs_ry d.pitch_rate es;
  throttle = latest input_abs_throttle d.throttle es;
  yaw_rate = latest input_abs_rz d.yaw_rate es;
}

-- The positions at each event that ends a frame, after the events `past`.
abbrev pub snapshots :
    RadioReceiverData → List InputEvent → List InputEvent → List RadioReceiverData
snapshots d past [] = []
snapshots d past (e ∷ es) =
    let rest = snapshots d (past ++ e ∷ []) es in
    if e.sync then view d (past ++ e ∷ []) ∷ rest else rest

abbrev pub events : List Round → List InputEvent
events [] = []
events (callback e ∷ rs) = e ∷ events rs
events (thread ∷ rs) = events rs

-- The second list is the first with some items left out.
pub data Kept : List RadioReceiverData → List RadioReceiverData → Type 0 where
  none_left : Kept [] []
  kept :
      {d : RadioReceiverData} {all some_of : List RadioReceiverData}
      → Kept all some_of
      → Kept (d ∷ all) (d ∷ some_of)
  dropped :
      {d : RadioReceiverData} {all some_of : List RadioReceiverData}
      → Kept all some_of
      → Kept (d ∷ all) some_of

latest-append :
    (code : Code) (old : ℤ) (past : List InputEvent) (e : InputEvent)
    → latest code old (past ++ e ∷ [])
      ≡ (if same_code code e.code then e.value else latest code old past)
latest-append code old [] e = refl
latest-append code old (p ∷ past) e =
    latest-append code (if same_code code p.code then p.value else old) past e

pub view-append :
    (d : RadioReceiverData) (past : List InputEvent) (e : InputEvent)
    → view d (past ++ e ∷ []) ≡ set_axis e.code e.value (view d past)
unfolding set_axis
view-append d past e =
    rw
      (
        latest-append input_abs_rx d.roll_rate past e,
        latest-append input_abs_ry d.pitch_rate past e,
        latest-append input_abs_throttle d.throttle past e,
        latest-append input_abs_rz d.yaw_rate past e,
      )
      (by_code e.code)
  where
    by_code :
        (c : Code)
        → ◌≡◌ {A = RadioReceiverData}
            (record {
              roll_rate =
                  if same_code input_abs_rx c
                  then e.value
                  else latest input_abs_rx d.roll_rate past;
              pitch_rate =
                  if same_code input_abs_ry c
                  then e.value
                  else latest input_abs_ry d.pitch_rate past;
              throttle =
                  if same_code input_abs_throttle c
                  then e.value
                  else latest input_abs_throttle d.throttle past;
              yaw_rate =
                  if same_code input_abs_rz c then e.value else latest input_abs_rz d.yaw_rate past;
            })
            (set_axis c e.value (view d past))
    by_code input_abs_rx = refl
    by_code input_abs_ry = refl
    by_code input_abs_throttle = refl
    by_code input_abs_rz = refl
    by_code (other_code n) = refl

pub snapshots-sync :
    (d : RadioReceiverData) (past : List InputEvent) (e : InputEvent) (es : List InputEvent)
    → e.sync ≡ true
    → snapshots d past (e ∷ es) ≡ view d (past ++ e ∷ []) ∷ snapshots d (past ++ e ∷ []) es
snapshots-sync d past e es h = ground arith

pub snapshots-skip :
    (d : RadioReceiverData) (past : List InputEvent) (e : InputEvent) (es : List InputEvent)
    → e.sync ≡ false
    → snapshots d past (e ∷ es) ≡ snapshots d (past ++ e ∷ []) es
snapshots-skip d past e es h = ground arith
