-- ===== src/App/Radio/Prompt.antt =====
-- A radio thread that runs after every callback reports every frame.
use efc.Common.{
  ◌≡◌, ◌≢◌, length, refl, sym, ap, ◌∙◌, List, [], ◌∷◌, ◌++◌, append_assoc, append-nil, Option, none,
  some, pos, arith, Bool-cases, inl, inr, drop,
}
use efc.App.Radio.{
  RadioReceiverData, InputEvent, Msgq, IsMsgq, World, set_axis, sbus_event_callback, radio_receiver,
  Round, callback, thread, perform, run,
}
use efc.App.Radio.Snapshots.{view, snapshots, view-append, snapshots-sync, snapshots-skip}
use efc.App.Radio.Sticks.{receive-none, receive-some, callback-sync, callback-skip}

-- An empty queue has room for an item, and an item that waits can be taken.
pub record HoldsOne {q : Msgq} (queue : IsMsgq q) : Type 0 where
  pub put_empty :
      (d : RadioReceiverData) (s : q.State) → queue.items s ≡ [] → (q.k_msgq_put d s).0 ≡ pos 0
  pub get_waiting :
      (d : RadioReceiverData) (ds : List RadioReceiverData) (s : q.State)
      → queue.items s ≡ d ∷ ds
      → q.k_msgq_get s ≢ none

-- A round of the thread after every callback.
abbrev pub prompt : List InputEvent → List Round
prompt [] = []
prompt (e ∷ es) = callback e ∷ thread ∷ prompt es

abbrev first : RadioReceiverData → List RadioReceiverData → RadioReceiverData
first d [] = d
first d (x ∷ xs) = x

module _ {q : Msgq} (queue : IsMsgq q) (one : HoldsOne queue) where
  -- An item that waits alone is reported.
  receive_one :
      (w : World q) (d : RadioReceiverData)
      → queue.items w.sbus_msgq ≡ d ∷ []
      → ((radio_receiver q w).reported ≡ w.reported ++ d ∷ [])
        × (queue.items (radio_receiver q w).sbus_msgq ≡ [])
        × ((radio_receiver q w).receiver_data ≡ w.receiver_data)
  receive_one w d h = go (q.k_msgq_get w.sbus_msgq) refl
    where
      go :
          (r : Option (RadioReceiverData × q.State))
          → q.k_msgq_get w.sbus_msgq ≡ r
          → ((radio_receiver q w).reported ≡ w.reported ++ d ∷ [])
            × (queue.items (radio_receiver q w).sbus_msgq ≡ [])
            × ((radio_receiver q w).receiver_data ≡ w.receiver_data)
      go none e = absurd (one.get_waiting d [] w.sbus_msgq h e)
      go (some (d', s)) e =
          let items = sym (queue.got w.sbus_msgq s d' e) ∙ h in
          rw (receive-some queue w d' s e)
            (ap (λ l. w.reported ++ first d l ∷ []) items, ap (λ l. drop 1 l) items, refl)

  receive_nothing : (w : World q) → queue.items w.sbus_msgq ≡ [] → radio_receiver q w ≡ w
  receive_nothing w h = go (q.k_msgq_get w.sbus_msgq) refl
    where
      go :
          (r : Option (RadioReceiverData × q.State))
          → q.k_msgq_get w.sbus_msgq ≡ r
          → radio_receiver q w ≡ w
      go none e = receive-none queue w e
      go (some (d, s)) e =
          let n = ap length (sym h ∙ queue.got w.sbus_msgq s d e) in absurd (omega (arith, n))

  -- A callback and a round: the frame that the callback ended is reported.
  prompt_step :
      (d : RadioReceiverData) (past : List InputEvent) (e : InputEvent) (es : List InputEvent)
      (w : World q)
      → queue.items w.sbus_msgq ≡ []
      → set_axis e.code e.value w.receiver_data ≡ view d (past ++ e ∷ [])
      → let w' = radio_receiver q (sbus_event_callback q e w) in
        (w'.reported ++ snapshots d (past ++ e ∷ []) es ≡ w.reported ++ snapshots d past (e ∷ es))
        × (queue.items w'.sbus_msgq ≡ [])
        × (w'.receiver_data ≡ set_axis e.code e.value w.receiver_data)
  prompt_step d past e es w empty now = elim (Bool-cases e.sync) [
    | inl s ↦
        let data' = set_axis e.code e.value w.receiver_data in
        let v : World q = record w {
          receiver_data = data';
          sbus_msgq = (q.k_msgq_put data' w.sbus_msgq).1;
        } in
        let queued =
          queue.put_accepted data' w.sbus_msgq (one.put_empty data' w.sbus_msgq empty)
          ∙ ap (λ l. l ++ data' ∷ []) empty in
        let out = receive_one v data' queued in
        rw (callback-sync queue e w s, snapshots-sync d past e es s)
          (
            ap (λ l. l ++ snapshots d (past ++ e ∷ []) es) out.0
                ∙ append_assoc w.reported (data' ∷ []) (snapshots d (past ++ e ∷ []) es)
                ∙ ap (λ x. w.reported ++ x ∷ snapshots d (past ++ e ∷ []) es) now,
            out.1,
            out.2,
          )
    | inr s ↦
        let v : World q = record w { receiver_data = set_axis e.code e.value w.receiver_data } in
        rw (callback-skip queue e w s, snapshots-skip d past e es s, receive_nothing v empty)
          (refl, empty, refl)
  ]

  prompt_from :
      (d : RadioReceiverData) (past : List InputEvent) (es : List InputEvent) (w : World q)
      → w.receiver_data ≡ view d past
      → queue.items w.sbus_msgq ≡ []
      → ((run q (prompt es) w).reported ≡ w.reported ++ snapshots d past es)
        × (queue.items (run q (prompt es) w).sbus_msgq ≡ [])
  unfolding run perform
  prompt_from d past [] w h empty = (sym (append-nil w.reported), empty)
  prompt_from d past (e ∷ es) w h empty =
      let now = ap (λ x. set_axis e.code e.value x) h ∙ sym (view-append d past e) in
      let step = prompt_step d past e es w empty now in
      let rest =
        prompt_from d (past ++ e ∷ []) es (radio_receiver q (sbus_event_callback q e w))
          (step.2 ∙ now) step.1 in
      (rest.0 ∙ step.0, rest.1)

  -- With a queue as IsMsgq and HoldsOne describe it, empty at the start, and a round of the
  -- radio thread after every callback: every frame is reported, in order and with the last
  -- value of every axis, and the queue is empty again.
  pub prompt_lem :
      (es : List InputEvent) (w : World q)
      → queue.items w.sbus_msgq ≡ []
      → ((run q (prompt es) w).reported ≡ w.reported ++ snapshots w.receiver_data [] es)
        × (queue.items (run q (prompt es) w).sbus_msgq ≡ [])
  prompt_lem es w empty = prompt_from w.receiver_data [] es w refl empty
