-- ===== src/App/Radio/Examples.antt =====
-- A run of the radio receiver with a queue of one item, and its theorem at that run.
use efc.Common.{
  ◌≡◌, ◌≢◌, ap, length, refl, List, [], ◌∷◌, ◌++◌, Option, none, some, true, false, ℤ, pos, negsuc,
  arith,
}
use efc.App.Radio
use efc.App.Radio.{
  RadioReceiverData, input_abs_rx, input_abs_ry, input_abs_throttle, other_code, InputEvent, Msgq,
  IsMsgq, Round, callback, thread, perform, run, sbus_event_callback, radio_receiver, set_axis,
}
use efc.App.Radio.Snapshots.{view, snapshots, events}
use efc.App.Radio.Sticks.{Passed, sticks_lem}
use efc.App.Radio.Prompt.{HoldsOne, prompt, prompt_lem}

abbrev put_one : RadioReceiverData → List RadioReceiverData → ℤ × List RadioReceiverData
put_one d [] = (pos 0, d ∷ [])
put_one d (x ∷ xs) = (negsuc 34, x ∷ xs)

abbrev get_one : List RadioReceiverData → Option (RadioReceiverData × List RadioReceiverData)
get_one [] = none
get_one (d ∷ ds) = some (d, ds)

abbrev one_item : Msgq
one_item = record { State = List RadioReceiverData; k_msgq_put = put_one; k_msgq_get = get_one }

put_accepted :
    (d : RadioReceiverData) (s : List RadioReceiverData)
    → (put_one d s).0 ≡ pos 0
    → (put_one d s).1 ≡ s ++ d ∷ []
put_accepted d [] h = refl
put_accepted d (x ∷ xs) h = absurd (ground (arith, h))

put_refused :
    (d : RadioReceiverData) (s : List RadioReceiverData)
    → ((put_one d s).0 ≡ pos 0 → ⊥)
    → (put_one d s).1 ≡ s
put_refused d [] h = absurd (h refl)
put_refused d (x ∷ xs) h = refl

get_first :
    (s s' : List RadioReceiverData) (d : RadioReceiverData) → get_one s ≡ some (d, s') → s ≡ d ∷ s'
get_first [] s' d h = absurd (ground (arith, h))
get_first (x ∷ xs) s' d h = ground (arith, h)

abbrev one_item_queue : IsMsgq one_item
one_item_queue = record {
  items = λ s. s;
  put_accepted = put_accepted;
  put_refused = put_refused;
  got = get_first;
}

abbrev start : Radio.World one_item
start = record {
  receiver_data = record {
    roll_rate = pos 0;
    pitch_rate = pos 0;
    throttle = pos 0;
    yaw_rate = pos 0;
  };
  sbus_msgq = [];
  reported = [];
}

-- The second frame is dropped, since the first is still in the queue.
abbrev rounds : List Round
rounds =
    thread
    ∷ callback (record { code = input_abs_rx; value = pos 10; sync = false })
    ∷ callback (record { code = input_abs_throttle; value = pos 20; sync = true })
    ∷ callback (record { code = input_abs_ry; value = pos 30; sync = true })
    ∷ thread
    ∷ callback (record { code = other_code 7; value = pos 40; sync = true })
    ∷ thread
    ∷ []

rounds_reported :
    (run one_item rounds start).reported
    ≡ record { roll_rate = pos 10; pitch_rate = pos 0; throttle = pos 20; yaw_rate = pos 0 }
      ∷ record { roll_rate = pos 10; pitch_rate = pos 30; throttle = pos 20; yaw_rate = pos 0 }
      ∷ []
unfolding run perform sbus_event_callback radio_receiver set_axis
rounds_reported = refl

sticks_lem_example :
    Passed one_item_queue
      (snapshots start.receiver_data [] (events rounds))
      start
      (run one_item rounds start)
    × ((run one_item rounds start).receiver_data ≡ view start.receiver_data (events rounds))
sticks_lem_example = sticks_lem one_item_queue rounds start

put_empty : (d : RadioReceiverData) (s : List RadioReceiverData) → s ≡ [] → (put_one d s).0 ≡ pos 0
put_empty d s h = rw h refl

get_waiting :
    (d : RadioReceiverData) (ds s : List RadioReceiverData) → s ≡ d ∷ ds → get_one s ≢ none
get_waiting d ds [] h e = let n = ap length h in absurd (omega (arith, n))
get_waiting d ds (x ∷ xs) h e = ground (arith, e)

abbrev one_item_holds : HoldsOne one_item_queue
one_item_holds = record { put_empty = put_empty; get_waiting = get_waiting }

prompt_lem_example :
    let w = run one_item (prompt (events rounds)) start in
    (w.reported ≡ snapshots start.receiver_data [] (events rounds)) × (w.sbus_msgq ≡ [])
prompt_lem_example = prompt_lem one_item_queue one_item_holds (events rounds) start refl
