-- ===== src/App/Logger/Over.antt =====
-- The logger thread writes its file from the beginning on and leaves what is behind.
use efc.Common.{List}
use efc.Ulog.Platform.{Platform, IsFile}
use efc.Ulog.Appends.{Over, Over-trans}
use efc.Ulog.Generated.{Definition}
use efc.Ulog.Generated.AppendOnly.{subscribe-Appends}
use efc.Ulog.Types.{log}
use efc.Ulog.Session.{Call, start_data_phase}
use efc.Ulog.Session.AppendOnly.{run-Appends}
use efc.Common.{ℕ, ◌∷◌, [], true}
use efc.App.Logger.{
  FloatUnit, PrimaryImu, definition_calls, Event, MsgIds, loop_calls, gyro, accel, baro, altitude,
  Logger, Logging, do_calls, in_turn, subscribe_to, loop, logger_started,
}

module _ {os : Platform} (disk : IsFile os) where
  pub record Goes (f : Logger os → Logging os) : Type 0 where
    pub over : (w : Logger os) → Over disk w.ulog_log.file (f w).1.ulog_log.file

  do_calls-Goes : (cs : List Call) → Goes (do_calls os cs)
  unfolding do_calls
  do_calls-Goes cs = record { over = λ w. run-Appends disk cs w.ulog_log }

  in_turn-Goes : (f g : Logger os → Logging os) → Goes f → Goes g → Goes (in_turn os f g)
  in_turn-Goes f g h k = record { over = λ w. Over-trans disk _ _ _ (h.over w) (k.over (f w).1) }

  subscribe_to-Goes : (d : Definition) (set : ℕ → MsgIds → MsgIds) → Goes (subscribe_to os d set)
  unfolding subscribe_to
  subscribe_to-Goes d set = record { over = λ w. subscribe-Appends disk d log 0 w.ulog_log }

  loop-Goes : (fpu : FloatUnit) (es : List Event) → Goes (loop os fpu es)
  unfolding loop
  loop-Goes fpu es = record {
    over = λ w.
        let goes = do_calls-Goes (loop_calls fpu w.msg_ids es) in
        goes.over (record w { enabled = true });
  }

  pub logger_started-Goes :
      (fpu : FloatUnit) (imu : PrimaryImu) (es : List Event) → Goes (logger_started os fpu imu es)
  unfolding logger_started
  logger_started-Goes fpu imu es = in_turn-Goes _ _ (do_calls-Goes (definition_calls imu)) (
      in_turn-Goes _ _ (do_calls-Goes (start_data_phase ∷ [])) (
        in_turn-Goes _ _ (subscribe_to-Goes gyro _) (
          in_turn-Goes _ _ (subscribe_to-Goes accel _) (
            in_turn-Goes _ _ (subscribe_to-Goes baro _)
              (in_turn-Goes _ _ (subscribe_to-Goes altitude _) (loop-Goes fpu es))))))
