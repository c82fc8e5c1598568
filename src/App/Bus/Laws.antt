-- ===== src/App/Bus/Laws.antt =====
-- What is relied on of zbus, and what it makes of a sample and of a wait.
use efc.Common.{
  ℕ, ◌<◌, ◌≡◌, ◌≢◌, refl, ap, ◌∙◌, List, [], ◌∷◌, ◌++◌, none, some, true, false, Bool-cases, ◌⊎◌,
  inl, inr, pos, is_negative, length,
}
use efc.App.Logger.{Imu6dofData, BaroData}
use efc.App.Sensors.{Channel, Drivers, process_imu, process_baro}
use efc.App.Sensors.Stamps
use efc.App.Sensors.Imu
use efc.App.Sensors.Keeps.{process_imu-keeps, process_baro-keeps}
use efc.App.Bus.{
  Chan, imu_chan, baro_chan, sync_chan, heartbeat_chan, Sub, Zbus, Notice, imu, baro, told, read,
}

-- What one subscriber can see of the bus: the samples that were published, the contents of the two
-- channels, and the notifications that wait for it.
pub record Seen : Type 0 where
  pub imus : List Imu6dofData
  pub imu_now : Imu6dofData
  pub baros : List BaroData
  pub baro_now : BaroData
  pub queue : List Chan

abbrev pub imu_published : Imu6dofData → Seen → Seen
imu_published m x = record x {
  imus = x.imus ++ m ∷ [];
  imu_now = m;
  queue = x.queue ++ imu_chan ∷ [];
}

abbrev pub baro_published : BaroData → Seen → Seen
baro_published m x = record x {
  baros = x.baros ++ m ∷ [];
  baro_now = m;
  queue = x.queue ++ baro_chan ∷ [];
}

abbrev pub notified : Chan → Seen → Seen
notified c x = record x { queue = x.queue ++ c ∷ [] }

-- What a thread reads of a channel.
abbrev pub notice : Chan → Seen → Notice
notice imu_chan x = imu x.imu_now
notice baro_chan x = baro x.baro_now
notice c x = told c

-- The size of the subscribers' queues.
abbrev pub queue_size : ℕ
queue_size = 16

-- zbus as it is documented: a publication that is refused although the queues have room, since the
-- channel is locked, leaves everything as it is; one that is not refused becomes the content of its
-- channel and notifies the observers; a wait takes the oldest
-- notification; a read in time returns the content of the channel. The drivers do not publish.
pub record IsZbus {os : Drivers} (z : Zbus os) : Type 0 where
  pub look : Sub → os.State → Seen
  pub fetched :
      (sub : Sub) (dev : os.Device) (s : os.State)
      → look sub (os.sensor_sample_fetch dev s).1 ≡ look sub s
  pub got :
      (sub : Sub) (dev : os.Device) (c : Channel) (s : os.State)
      → look sub (os.sensor_channel_get dev c s).2 ≡ look sub s
  pub imu_busy :
      (sub : Sub) (m : Imu6dofData) (s : os.State)
      → ((sub : Sub) → length (look sub s).queue < queue_size)
      → is_negative (os.imu_chan_pub m s).0 ≡ true
      → look sub (os.imu_chan_pub m s).1 ≡ look sub s
  pub imu_taken :
      (sub : Sub) (m : Imu6dofData) (s : os.State)
      → is_negative (os.imu_chan_pub m s).0 ≡ false
      → look sub (os.imu_chan_pub m s).1 ≡ imu_published m (look sub s)
  pub baro_busy :
      (sub : Sub) (m : BaroData) (s : os.State)
      → ((sub : Sub) → length (look sub s).queue < queue_size)
      → is_negative (os.baro_chan_pub m s).0 ≡ true
      → look sub (os.baro_chan_pub m s).1 ≡ look sub s
  pub baro_taken :
      (sub : Sub) (m : BaroData) (s : os.State)
      → is_negative (os.baro_chan_pub m s).0 ≡ false
      → look sub (os.baro_chan_pub m s).1 ≡ baro_published m (look sub s)
  -- who observes the channel and has room is notified
  pub notify :
      (sub : Sub) (c : Chan) (s : os.State)
      → (look sub (z.zbus_chan_notify c s).1 ≡ look sub s)
        ⊎ (look sub (z.zbus_chan_notify c s).1 ≡ notified c (look sub s))
  pub wait_empty :
      (sub : Sub) (s : os.State) → (look sub s).queue ≡ [] → z.zbus_sub_wait sub s ≡ none
  pub wait_oldest :
      (sub : Sub) (s : os.State) (c : Chan) (cs : List Chan)
      → (look sub s).queue ≡ c ∷ cs
      → (s' : os.State) × (z.zbus_sub_wait sub s ≡ some (pos 0, c, s'))
        × (look sub s' ≡ record (look sub s) { queue = cs })
        × ((other : Sub) → other ≢ sub → look other s' ≡ look other s)
  pub imu_read :
      (sub : Sub) (s : os.State)
      → is_negative (z.imu_chan_read s).0 ≡ false
      → (z.imu_chan_read s).1 ≡ (look sub s).imu_now
  pub imu_read_quiet : (sub : Sub) (s : os.State) → look sub (z.imu_chan_read s).2 ≡ look sub s
  pub baro_read :
      (sub : Sub) (s : os.State)
      → is_negative (z.baro_chan_read s).0 ≡ false
      → (z.baro_chan_read s).1 ≡ (look sub s).baro_now
  pub baro_read_quiet : (sub : Sub) (s : os.State) → look sub (z.baro_chan_read s).2 ≡ look sub s

-- No read has to wait for longer than its microsecond.
pub record ReadsInTime {os : Drivers} (z : Zbus os) : Type 0 where
  pub imu_in_time : (s : os.State) → is_negative (z.imu_chan_read s).0 ≡ false
  pub baro_in_time : (s : os.State) → is_negative (z.baro_chan_read s).0 ≡ false

module _ {os : Drivers} {z : Zbus os} (bus : IsZbus z) where
  -- Room for one more notification.
  abbrev pub HasRoom : os.State → Type 0
  HasRoom s = (sub : Sub) → length (bus.look sub s).queue < queue_size

  -- What every subscriber sees is as it was in `s`.
  abbrev Unseen : os.State → os.State → Type 0
  Unseen s t = (sub : Sub) → bus.look sub t ≡ bus.look sub s

  -- With room in the queues a sample publishes one message, or none.
  pub process_imu-Seen :
      (dev : os.Device) (s : os.State)
      → HasRoom s
      → ((sub : Sub) → bus.look sub (process_imu os dev s).1 ≡ bus.look sub s)
        ⊎ ((sub : Sub)
            → bus.look sub (process_imu os dev s).1
              ≡ imu_published (Imu.imu_message os dev s) (bus.look sub s))
  process_imu-Seen dev s room =
      elim (process_imu-keeps os dev (Unseen s) (λ c t same sub. bus.got sub dev c t ∙ same sub) s
        (λ sub. bus.fetched sub dev s)) [
          | inl same ↦ inl same
          | inr (before, e, same) ↦ offer before e same
        ]
    where
      message : Imu6dofData
      message = Imu.imu_message os dev s

      offer :
          (before : os.State)
          → (process_imu os dev s).1 ≡ (os.imu_chan_pub message before).1
          → Unseen s before
          → ((sub : Sub) → bus.look sub (process_imu os dev s).1 ≡ bus.look sub s)
            ⊎ ((sub : Sub)
                → bus.look sub (process_imu os dev s).1 ≡ imu_published message (bus.look sub s))
      offer before e same = elim (Bool-cases (is_negative (os.imu_chan_pub message before).0)) [
        | inl refused ↦ inl (λ sub.
            ap (λ t. bus.look sub t) e
            ∙ bus.imu_busy sub message before (λ sub'. rw (same sub') (room sub')) refused
            ∙ same sub)
        | inr taken ↦ inr (λ sub.
            ap (λ t. bus.look sub t) e
            ∙ bus.imu_taken sub message before taken
            ∙ ap (λ x. imu_published message x) (same sub))
      ]

  pub process_baro-Seen :
      (dev : os.Device) (s : os.State)
      → HasRoom s
      → ((sub : Sub) → bus.look sub (process_baro os dev s).1 ≡ bus.look sub s)
        ⊎ ((sub : Sub)
            → bus.look sub (process_baro os dev s).1
              ≡ baro_published (Stamps.baro_message os dev s) (bus.look sub s))
  process_baro-Seen dev s room =
      elim (process_baro-keeps os dev (Unseen s) (λ c t same sub. bus.got sub dev c t ∙ same sub) s
        (λ sub. bus.fetched sub dev s)) [
          | inl same ↦ inl same
          | inr (before, e, same) ↦ offer before e same
        ]
    where
      message : BaroData
      message = Stamps.baro_message os dev s

      offer :
          (before : os.State)
          → (process_baro os dev s).1 ≡ (os.baro_chan_pub message before).1
          → Unseen s before
          → ((sub : Sub) → bus.look sub (process_baro os dev s).1 ≡ bus.look sub s)
            ⊎ ((sub : Sub)
                → bus.look sub (process_baro os dev s).1 ≡ baro_published message (bus.look sub s))
      offer before e same = elim (Bool-cases (is_negative (os.baro_chan_pub message before).0)) [
        | inl refused ↦ inl (λ sub.
            ap (λ t. bus.look sub t) e
            ∙ bus.baro_busy sub message before (λ sub'. rw (same sub') (room sub')) refused
            ∙ same sub)
        | inr taken ↦ inr (λ sub.
            ap (λ t. bus.look sub t) e
            ∙ bus.baro_taken sub message before taken
            ∙ ap (λ x. baro_published message x) (same sub))
      ]

  pub read-quiet :
      (sub : Sub) (c : Chan) (s : os.State) → bus.look sub (read z c s).1 ≡ bus.look sub s
  unfolding read
  read-quiet sub imu_chan s = bus.imu_read_quiet sub s
  read-quiet sub baro_chan s = bus.baro_read_quiet sub s
  read-quiet sub sync_chan s = refl
  read-quiet sub heartbeat_chan s = refl

  pub read-notice :
      (in_time : ReadsInTime z) (sub : Sub) (c : Chan) (s : os.State)
      → (read z c s).0 ≡ notice c (bus.look sub s)
  unfolding read
  read-notice in_time sub imu_chan s = ap (λ m. imu m) (bus.imu_read sub s (in_time.imu_in_time s))
  read-notice in_time sub baro_chan s =
      ap (λ m. baro m) (bus.baro_read sub s (in_time.baro_in_time s))
  read-notice in_time sub sync_chan s = refl
  read-notice in_time sub heartbeat_chan s = refl
