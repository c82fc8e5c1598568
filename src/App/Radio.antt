-- ===== src/App/Radio.antt =====
-- The radio receiver of app/src/radio_receiver.c: the callback of SBUS input events fills the stick
-- positions and queues them, and the thread takes them from the queue and reports them. The queue is
-- a parameter. The thread has rounds only if the receiver's device is ready.
pub mod Snapshots
pub mod Sticks
pub mod Prompt
mod Examples
use efc.Common.{
  ℕ, ◌≡◌, List, [], ◌∷◌, ◌++◌, Option, none, some, Bool, true, false, ℤ, pos, negsuc, if◌then◌else◌,
}

-- `struct radio_receiver_data`
pub record RadioReceiverData : Type 0 where
  pub roll_rate : ℤ
  pub pitch_rate : ℤ
  pub throttle : ℤ
  pub yaw_rate : ℤ

-- The codes that the callback knows, and any other.
pub data Code : Type 0 where
  input_abs_rx input_abs_ry input_abs_throttle input_abs_rz : Code
  other_code : ℕ → Code

-- `struct input_event`
pub record InputEvent : Type 0 where
  pub code : Code
  pub value : ℤ
  pub sync : Bool

-- `sbus_msgq`; a get waits for an item, so it has no result on an empty queue.
pub record Msgq : Type 1 where
  pub State : Type 0
  pub k_msgq_put : RadioReceiverData → State → ℤ × State
  pub k_msgq_get : State → Option (RadioReceiverData × State)

-- Its documented behaviour: a put that returns 0 has added its item at the end, one that fails has
-- changed nothing; a get takes the first item.
pub record IsMsgq (q : Msgq) : Type 0 where
  pub items : q.State → List RadioReceiverData
  pub put_accepted :
      (d : RadioReceiverData) (s : q.State)
      → (q.k_msgq_put d s).0 ≡ pos 0
      → items (q.k_msgq_put d s).1 ≡ items s ++ d ∷ []
  pub put_refused :
      (d : RadioReceiverData) (s : q.State)
      → ((q.k_msgq_put d s).0 ≡ pos 0 → ⊥)
      → items (q.k_msgq_put d s).1 ≡ items s
  pub got :
      (s s' : q.State) (d : RadioReceiverData)
      → q.k_msgq_get s ≡ some (d, s')
      → items s ≡ d ∷ items s'

-- The switch of the callback.
unfoldable pub set_axis : Code → ℤ → RadioReceiverData → RadioReceiverData
set_axis input_abs_rx value d = record d { roll_rate = value }
set_axis input_abs_ry value d = record d { pitch_rate = value }
set_axis input_abs_throttle value d = record d { throttle = value }
set_axis input_abs_rz value d = record d { yaw_rate = value }
set_axis (other_code n) value d = d

-- A call of the callback, or a round of the thread.
pub data Round : Type 0 where
  callback : InputEvent → Round
  thread : Round

module _ (q : Msgq) where
  -- `receiver_data`, the queue, and what the thread has reported.
  pub record World : Type 0 where
    pub receiver_data : RadioReceiverData
    pub sbus_msgq : q.State
    pub reported : List RadioReceiverData

  unfoldable pub sbus_event_callback : InputEvent → World → World
  unfolding set_axis
  sbus_event_callback evt w =
      let data' = set_axis evt.code evt.value w.receiver_data in
      if evt.sync
      then record w { receiver_data = data'; sbus_msgq = (q.k_msgq_put data' w.sbus_msgq).1 }
      else record w { receiver_data = data' }

  -- What the thread does with the item of a get; it stays where it is while the queue is empty.
  abbrev pub report : Option (RadioReceiverData × q.State) → World → World
  report none w = w
  report (some (read_data, sbus_msgq')) w = record w {
    sbus_msgq = sbus_msgq';
    reported = w.reported ++ read_data ∷ [];
  }

  -- One round of `radio_receiver`.
  unfoldable pub radio_receiver : World → World
  radio_receiver w = report (q.k_msgq_get w.sbus_msgq) w

  unfoldable pub perform : Round → World → World
  perform (callback evt) w = sbus_event_callback evt w
  perform thread w = radio_receiver w

  unfoldable pub run : List Round → World → World
  run [] w = w
  run (r ∷ rs) w = run rs (perform r w)
