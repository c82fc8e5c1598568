-- ===== src/App/Radio/Sticks.antt =====
-- Every report has the last value of each axis.
use mathlib.Core.Path.{subst}
use efc.Common.{
  zero, suc, negsuc, ◌≡◌, refl, sym, ap, ◌∙◌, List, [], ◌∷◌, ◌++◌, append_assoc, append-nil, Option,
  none, some, true, false, ℤ, pos, arith, Bool-cases, inl, inr,
}
use efc.App.Radio.{
  RadioReceiverData, InputEvent, Msgq, IsMsgq, World, set_axis, sbus_event_callback, radio_receiver,
  report, Round, callback, thread, perform, run,
}
use efc.App.Radio.Snapshots.{
  view, snapshots, events, Kept, none_left, kept, dropped, view-append, snapshots-sync,
  snapshots-skip,
}

module _ {q : Msgq} (queue : IsMsgq q) where
  -- Reported, then queued.
  abbrev pub line : World q → List RadioReceiverData
  line w = w.reported ++ queue.items w.sbus_msgq

  pub receive-none : (w : World q) → q.k_msgq_get w.sbus_msgq ≡ none → radio_receiver q w ≡ w
  unfolding radio_receiver
  receive-none w e = ap (λ r. report q r w) e

  pub receive-some :
      (w : World q) (d : RadioReceiverData) (s : q.State)
      → q.k_msgq_get w.sbus_msgq ≡ some (d, s)
      → radio_receiver q w ≡ record w { sbus_msgq = s; reported = w.reported ++ d ∷ [] }
  unfolding radio_receiver
  receive-some w d s e = ap (λ r. report q r w) e

  -- A round of the thread moves the line on.
  receive-line :
      (w : World q)
      → (line (radio_receiver q w) ≡ line w)
        × ((radio_receiver q w).receiver_data ≡ w.receiver_data)
  receive-line w = go (q.k_msgq_get w.sbus_msgq) refl
    where
      go :
          (r : Option (RadioReceiverData × q.State))
          → q.k_msgq_get w.sbus_msgq ≡ r
          → (line (radio_receiver q w) ≡ line w)
            × ((radio_receiver q w).receiver_data ≡ w.receiver_data)
      go none e = (ap line (receive-none w e), ap (λ v. v.receiver_data) (receive-none w e))
      go (some (d, s)) e = (
        ap line (receive-some w d s e)
            ∙ append_assoc w.reported (d ∷ []) (queue.items s)
            ∙ ap (λ l. w.reported ++ l) (sym (queue.got w.sbus_msgq s d e)),
        ap (λ v. v.receiver_data) (receive-some w d s e),
      )

  -- From `w` to `w'`, some of the snapshots came behind the line.
  pub record Passed (all : List RadioReceiverData) (w w' : World q) : Type 0 where
    pub accepted : List RadioReceiverData
    pub some_of : Kept all accepted
    pub behind : line w' ≡ line w ++ accepted

  pub callback-sync :
      (e : InputEvent) (w : World q)
      → e.sync ≡ true
      → let d = set_axis e.code e.value w.receiver_data in
        sbus_event_callback q e w
        ≡ record w { receiver_data = d; sbus_msgq = (q.k_msgq_put d w.sbus_msgq).1 }
  unfolding sbus_event_callback
  callback-sync e w h = ground arith

  pub callback-skip :
      (e : InputEvent) (w : World q)
      → e.sync ≡ false
      → sbus_event_callback q e w
        ≡ record w { receiver_data = set_axis e.code e.value w.receiver_data }
  unfolding sbus_event_callback
  callback-skip e w h = ground arith

  -- The queue takes an item or drops it.
  put-Passed :
      (d : RadioReceiverData) (w : World q)
      → Passed
          (d ∷ [])
          w
          (record w { receiver_data = d; sbus_msgq = (q.k_msgq_put d w.sbus_msgq).1 })
  put-Passed d w = go (q.k_msgq_put d w.sbus_msgq).0 refl
    where
      refused :
          ((q.k_msgq_put d w.sbus_msgq).0 ≡ pos 0 → ⊥)
          → Passed
              (d ∷ [])
              w
              (record w { receiver_data = d; sbus_msgq = (q.k_msgq_put d w.sbus_msgq).1 })
      refused h = record {
        accepted = [];
        some_of = dropped none_left;
        behind =
            ap (λ l. w.reported ++ l) (queue.put_refused d w.sbus_msgq h)
            ∙ sym (append-nil (line w));
      }

      go :
          (r : ℤ)
          → (q.k_msgq_put d w.sbus_msgq).0 ≡ r
          → Passed
              (d ∷ [])
              w
              (record w { receiver_data = d; sbus_msgq = (q.k_msgq_put d w.sbus_msgq).1 })
      go (pos zero) e = record {
        accepted = d ∷ [];
        some_of = kept none_left;
        behind =
            ap (λ l. w.reported ++ l) (queue.put_accepted d w.sbus_msgq e)
            ∙ sym (append_assoc w.reported (queue.items w.sbus_msgq) (d ∷ []));
      }
      go (pos (suc n)) e = refused (λ z. ground (arith, e, z))
      go (negsuc n) e = refused (λ z. ground (arith, e, z))

  Kept-append :
      (xs xs' ys ys' : List RadioReceiverData)
      → Kept xs xs'
      → Kept ys ys'
      → Kept (xs ++ ys) (xs' ++ ys')
  Kept-append _ _ ys ys' none_left k = k
  Kept-append _ _ ys ys' (kept h) k = kept (Kept-append _ _ ys ys' h k)
  Kept-append _ _ ys ys' (dropped h) k = dropped (Kept-append _ _ ys ys' h k)

  both :
      (ds es : List RadioReceiverData) (u v w : World q)
      → Passed ds u v
      → Passed es v w
      → Passed (ds ++ es) u w
  both ds es u v w a b = record {
    accepted = a.accepted ++ b.accepted;
    some_of = Kept-append ds a.accepted es b.accepted a.some_of b.some_of;
    behind =
        b.behind ∙ ap (λ l. l ++ b.accepted) a.behind ∙ append_assoc (line u) a.accepted b.accepted;
  }

  stay : (u v : World q) → line v ≡ line u → Passed [] u v
  stay u v e = record { accepted = []; some_of = none_left; behind = e ∙ sym (append-nil (line u)) }

  pub callback-data :
      (e : InputEvent) (w : World q)
      → (sbus_event_callback q e w).receiver_data ≡ set_axis e.code e.value w.receiver_data
  unfolding sbus_event_callback
  callback-data e w = ground arith

  callback-Passed :
      (d : RadioReceiverData) (past : List InputEvent) (e : InputEvent) (es : List InputEvent)
      (w w' : World q)
      → set_axis e.code e.value w.receiver_data ≡ view d (past ++ e ∷ [])
      → Passed (snapshots d (past ++ e ∷ []) es) (sbus_event_callback q e w) w'
      → Passed (snapshots d past (e ∷ es)) w w'
  callback-Passed d past e es w w' eq rest = elim (Bool-cases e.sync) [
    | inl s ↦
        let put = put-Passed (set_axis e.code e.value w.receiver_data) w in
        let one =
          subst (λ x. Passed (x ∷ []) w (sbus_event_callback q e w)) eq
            (subst (λ v. Passed (set_axis e.code e.value w.receiver_data ∷ []) w v)
              (sym (callback-sync e w s)) put) in
        subst (λ l. Passed l w w') (sym (snapshots-sync d past e es s))
          (both (view d (past ++ e ∷ []) ∷ []) _ w (sbus_event_callback q e w) w' one rest)
    | inr s ↦
        subst (λ l. Passed l w w') (sym (snapshots-skip d past e es s))
          (both [] _ w (sbus_event_callback q e w) w'
            (stay w (sbus_event_callback q e w) (ap line (callback-skip e w s))) rest)
  ]

  sticks_from :
      (d : RadioReceiverData) (past : List InputEvent) (rs : List Round) (w : World q)
      → w.receiver_data ≡ view d past
      → Passed (snapshots d past (events rs)) w (run q rs w)
        × ((run q rs w).receiver_data ≡ view d (past ++ events rs))
  unfolding run perform
  sticks_from d past [] w h = (stay w w refl, rw append-nil h)
  sticks_from d past (thread ∷ rs) w h =
      let next = receive-line w in
      let rest = sticks_from d past rs (radio_receiver q w) (next.1 ∙ h) in
      (both [] _ w (radio_receiver q w) _ (stay w (radio_receiver q w) next.0) rest.0, rest.1)
  sticks_from d past (callback e ∷ rs) w h =
      let now = ap (λ x. set_axis e.code e.value x) h ∙ sym (view-append d past e) in
      let rest =
        sticks_from d (past ++ e ∷ []) rs (sbus_event_callback q e w) (callback-data e w ∙ now) in
      (
        callback-Passed d past e (events rs) w _ now rest.0,
        rest.1 ∙ ap (λ l. view d l) (append_assoc past (e ∷ []) (events rs)),
      )

  -- However callbacks and rounds of the radio thread follow each other, and whatever a queue as
  -- IsMsgq describes it drops: what has been reported and what waits in the queue are, one
  -- after the other, what they were before, then some of the snapshots at the ends of the
  -- frames, in their order, each with the last value of every axis; and `receiver_data` has the
  -- last value of every axis.
  pub sticks_lem :
      (rs : List Round) (w : World q)
      → Passed (snapshots w.receiver_data [] (events rs)) w (run q rs w)
        × ((run q rs w).receiver_data ≡ view w.receiver_data (events rs))
  sticks_lem rs w = sticks_from w.receiver_data [] rs w refl
