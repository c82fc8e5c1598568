-- ===== src/App/Logger/Keeps.antt =====
-- The logger thread keeps the log complete.
use efc.Common.{ℕ, ◌≡◌, refl, ap, List, [], ◌∷◌, ◌++◌, arith, false, some, drop, length}
use efc.Common.Exec.{ok, err}
use efc.Ulog.Platform.{Platform, IsFile, NeverShort, old_file}
use efc.Ulog.Types.{filesystem_error, phase_definitions, phase_data, log}
use efc.Ulog.Message.{Message, subscription}
use efc.Ulog.Appends.{Over-behind}
use efc.App.Logger.Over.{logger_started-Goes}
use efc.Ulog.Api
use efc.Ulog.Api.Lifecycle.{no_flags, init_lem, Started, started, not_started}
use efc.Ulog.Session.{Shows}
use efc.App.Logger.{
  FloatUnit, PrimaryImu, definition_calls, Event, MsgIds, gyro, accel, baro, altitude, Logger,
  logger_started, after_init, logger,
}
use efc.App.Logger.Log.{
  NoFault, AllOk, definition_calls-Adds, definition_messages, stream_messages, loop_messages,
  streams,
}
use efc.App.Logger.Steps.{
  Takes, definition_calls-AllSized, chain, calls-Takes, start-Takes, subscribe-Takes, loop-Takes,
}

module _ {os : Platform} (disk : IsFile os) (full : NeverShort os) where
  logger_started-Takes :
      (fpu : FloatUnit) (imu : PrimaryImu) (es : List Event) (ids : MsgIds) (ms : List Message)
      → Takes disk full
          (logger_started os fpu imu es)
          (record { phase = phase_definitions; next_msg_id = 0; messages = ms })
          ids
          (record {
            phase = phase_data;
            next_msg_id = 4;
            messages =
                (((((ms ++ definition_messages imu) ++ (subscription 0 0 gyro.name ∷ []))
                      ++ (subscription 0 1 accel.name ∷ []))
                    ++ (subscription 0 2 baro.name ∷ []))
                  ++ (subscription 0 3 altitude.name ∷ []))
                ++ loop_messages fpu es;
          })
          streams
  unfolding logger_started
  logger_started-Takes fpu imu es ids ms =
      chain disk full _ _ _ _ _ _ _ _
        (calls-Takes disk full (definition_calls imu)
          (record { phase = phase_definitions; next_msg_id = 0; messages = ms }) ids
          (definition_messages imu) (definition_calls-AllSized imu) (definition_calls-Adds imu))
        (chain disk full _ _ _ _ _ _ _ _ (start-Takes disk full _ ids refl) (
          chain disk full _ _ _ _ _ _ _ _
            (subscribe-Takes disk full gyro _ 0 _ ids (omega arith) (omega arith))
            (chain disk full _ _ _ _ _ _ _ _
              (subscribe-Takes disk full accel _ 1 _ _ (omega arith) (omega arith))
              (chain disk full _ _ _ _ _ _ _ _
                (subscribe-Takes disk full baro _ 2 _ _ (omega arith) (omega arith))
                (chain disk full _ _ _ _ _ _ _ _
                  (subscribe-Takes disk full altitude _ 3 _ _ (omega arith) (omega arith))
                  (loop-Takes disk full fpu es _ refl))))))

  logger-started :
      (fpu : FloatUnit) (imu : PrimaryImu) (filename : List ℕ) (es : List Event) (w : Logger os)
      → (Api.init os log (some filename) w.ulog_log).0 ≡ ok tt
      → logger os fpu imu filename es w
        ≡ logger_started os fpu imu es
            (record w { ulog_log = (Api.init os log (some filename) w.ulog_log).1 })
  unfolding logger
  logger-started fpu imu filename es w e =
      ap
        (λ r.
          after_init os r (logger_started os fpu imu es)
            (record w { ulog_log = (Api.init os log (some filename) w.ulog_log).1 }))
        e

  logger-refused :
      (fpu : FloatUnit) (imu : PrimaryImu) (filename : List ℕ) (es : List Event) (w : Logger os)
      → (Api.init os log (some filename) w.ulog_log).0 ≡ err filesystem_error
      → logger os fpu imu filename es w ≡ (
        err filesystem_error ∷ [],
        record w { ulog_log = (Api.init os log (some filename) w.ulog_log).1; enabled = false },
      )
  unfolding logger
  logger-refused fpu imu filename es w e =
      ap
        (λ r.
          after_init os r (logger_started os fpu imu es)
            (record w { ulog_log = (Api.init os log (some filename) w.ulog_log).1 }))
        e

  -- For the logger thread on whatever events, from ULOG_Init until a wait fails, on a file
  -- system as IsFile and NeverShort describe it: if no call reports ULOG_FILESYSTEM_ERROR, then
  -- all calls succeed, and the file up to the writer's position is a complete log of the flags,
  -- the definitions, the four streams with the message ids 0 to 3, and the messages of the
  -- events before the failed wait, in their order; the log is in the data phase with the next
  -- message id 4; behind the position is what a file of that name, which ULOG_Init does not
  -- truncate, held from there on, so nothing if it is new.
  pub logger_lem :
      (fpu : FloatUnit) (imu : PrimaryImu) (filename : List ℕ) (es : List Event) (w : Logger os)
      → NoFault (logger os fpu imu filename es w).0
      → AllOk (logger os fpu imu filename es w).0
        × Shows disk (logger os fpu imu filename es w).1.ulog_log (record {
          phase = phase_data;
          next_msg_id = 4;
          messages = no_flags ∷ definition_messages imu ++ stream_messages ++ loop_messages fpu es;
        })
        × (disk.behind (logger os fpu imu filename es w).1.ulog_log.file
            ≡ drop
                (length (disk.written (logger os fpu imu filename es w).1.ulog_log.file))
                (old_file disk filename w.ulog_log.file))
  unfolding Takes
  logger_lem fpu imu filename es w h = go (init_lem disk full w.ulog_log filename)
    where
      go :
          Started disk full w.ulog_log filename (Api.init os log (some filename) w.ulog_log)
          → AllOk (logger os fpu imu filename es w).0
            × Shows disk (logger os fpu imu filename es w).1.ulog_log (record {
              phase = phase_data;
              next_msg_id = 4;
              messages =
                  no_flags ∷ definition_messages imu ++ stream_messages ++ loop_messages fpu es;
            })
            × (disk.behind (logger os fpu imu filename es w).1.ulog_log.file
                ≡ drop
                    (length (disk.written (logger os fpu imu filename es w).1.ulog_log.file))
                    (old_file disk filename w.ulog_log.file))
      go (started now r a b p n e rest) =
          let begun : Shows disk (Api.init os log (some filename) w.ulog_log).1
              (record { phase = phase_definitions; next_msg_id = 0; messages = no_flags ∷ [] }) =
            record {
              phase = p;
              next_msg_id = n;
              start_us = _;
              messages = no_flags ∷ [];
              holds = e;
              same = refl;
            } in
          let known = logger-started fpu imu filename es w r in
          let done =
            logger_started-Takes fpu imu es w.msg_ids (no_flags ∷ [])
              (record w { ulog_log = (Api.init os log (some filename) w.ulog_log).1 }) begun refl
              (rw known at h) in
          let begun_log = record w { ulog_log = (Api.init os log (some filename) w.ulog_log).1 } in
          let goes = logger_started-Goes disk fpu imu es in
          rw known (
            done.all_ok,
            done.shows,
            Over-behind disk (old_file disk filename w.ulog_log.file) _ _ (goes.over begun_log)
                rest,
          )
      go (not_started r p n) = absurd ((rw (logger-refused fpu imu filename es w r) at h).0 refl)
