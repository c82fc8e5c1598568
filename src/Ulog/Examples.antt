-- ===== src/Ulog/Examples.antt =====
-- Concrete runs of the log writer on the memory platform, and the theorems at such runs.
use efc.Common.{◌≢◌, All, length, ◌+◌, ℕ, ◌≡◌, refl, List, [], ◌∷◌, some, codes, arith}
use efc.Common.Exec.{ok, err, ◌>>=◌, or_return}
use efc.Ulog.Types.{
  invalid_param, wrong_phase, filesystem_error, level_code, info, phase_none, phase_definitions,
  phase_data, Inst, null, log,
}
use efc.Ulog.Format.{frames, read_log}
use efc.Ulog.Message
use efc.Ulog.Write.{try_write, uptime_us, write_header, write_flag_bits, write_sync}
use efc.Ulog.Api
use efc.Ulog.Api.Strings.{RecordedAt, log_string_lem}
use efc.Ulog.Api.Lifecycle.{init_lem, Started}
use efc.Ulog.Api.Closing.{Closed, close_lem, close_ignores_phase}
use efc.Ulog.Generated.Messages.{field_bytes, Subscribed, subscribe_lem, write_lem}
use efc.Ulog.Recorded.{Holds, Recorded}
use efc.Ulog.Memory.{memory, memory_disk, memory_full}
use efc.Ulog.Generated
use efc.Ulog.Session.{
  Call, add_info, start_data_phase, subscribe, log_string, log_dropout, sync, write, perform, run,
  promises, Journal, Shows,
}
use efc.Ulog.Session.Refine.{run_refines}
use efc.Ulog.Session.ReadBack.{read_messages}
use efc.Ulog.ShortDisk.{short}
use efc.Ulog.Session.Ids.{HasIds, subscription_ids}
use efc.Ulog.Session.RoundTrip.{IsJournal, journal_read_back}

-- An empty card, two seconds after boot.
abbrev fresh : Inst memory
fresh = record {
  phase = phase_none;
  file = record { bytes = []; behind = 1 ∷ 2 ∷ []; room = 1000; clock = 2000 };
  next_msg_id = 9;
}

abbrev name : List ℕ
name = codes "/SD:/log_0.ulg"

abbrev begun : Inst memory
begun = (Api.init memory log (some name) fresh).1

-- The one message that the writer starts with.
abbrev preamble : List Message.Message
preamble =
    Message.flag_bits (0 ∷ 0 ∷ 0 ∷ 0 ∷ 0 ∷ 0 ∷ 0 ∷ 0 ∷ []) (0 ∷ 0 ∷ 0 ∷ 0 ∷ 0 ∷ 0 ∷ 0 ∷ 0 ∷ []) (
      0 ∷ 0 ∷ 0 ∷ 0 ∷ 0 ∷ 0 ∷ 0 ∷ 0 ∷ 0 ∷ 0 ∷ 0 ∷ 0 ∷ 0 ∷ 0 ∷ 0 ∷ 0 ∷ 0 ∷ 0 ∷ 0 ∷ 0 ∷ 0 ∷ 0 ∷ 0 ∷ 0
      ∷ [])
    ∷ []

begun_reads : Holds memory_disk begun 2002000 preamble
unfolding Api.init write_header write_flag_bits try_write or_return ◌>>=◌ uptime_us read_log frames
    Message.encode
begun_reads = refl

init_lem_example :
    Started memory_disk memory_full fresh name (Api.init memory log (some name) fresh)
init_lem_example = init_lem memory_disk memory_full fresh name

abbrev gyro : Generated.Definition
gyro = Generated.add_timestamp_field (record {
  name = codes "gyro";
  fields =
      record { name = codes "x"; type = Generated.float }
      ∷ record { name = codes "y"; type = Generated.float }
      ∷ record { name = codes "z"; type = Generated.float }
      ∷ [];
})

-- A session with a refused call in it: a dropout cannot be logged before the data phase.
abbrev script : List Call
script =
    add_info log (some (codes "char[3] sys_name")) 16 (some (codes "EFC")) 3
    ∷ log_dropout log 5
    ∷ start_data_phase
    ∷ subscribe gyro log 0
    ∷ write gyro log (some (1 ∷ 2 ∷ 3 ∷ 4 ∷ [])) 0
    ∷ log_string log (some (codes "armed")) 5 info
    ∷ sync null
    ∷ sync log
    ∷ []

abbrev started : Journal
started = record { phase = phase_definitions; next_msg_id = 0; messages = preamble }

begun-Shows : Shows memory_disk begun started
unfolding Api.init write_header write_flag_bits try_write or_return ◌>>=◌ uptime_us
begun-Shows = record {
  phase = refl;
  next_msg_id = refl;
  start_us = 2002000;
  messages = started.messages;
  holds = begun_reads;
  same = refl;
}

script_results :
    (run memory script begun).0
    ≡ ok tt ∷ err wrong_phase ∷ ok tt ∷ ok tt ∷ ok tt ∷ ok tt ∷ err invalid_param ∷ ok tt ∷ []
unfolding run perform Api.init Api.add_info Api.log_dropout Api.start_data_phase Api.log_string
    Api.sync Api.save Api.require_phase Generated.subscribe Generated.write Generated.save_fields
    write_header write_flag_bits write_sync try_write or_return ◌>>=◌ uptime_us
script_results = refl

script_succeeds : All (λ r. r ≢ err filesystem_error) (run memory script begun).0
script_succeeds = rw script_results (
  (λ e. cc),
  ((λ e. cc), ((λ e. cc), ((λ e. cc), ((λ e. cc), ((λ e. cc), ((λ e. cc), ((λ e. cc), tt))))))),
)

run_refines_example :
    ((run memory script begun).0 ≡ (promises script started).0)
    × Shows memory_disk (run memory script begun).1 (promises script started).1
run_refines_example =
    run_refines memory_disk memory_full script begun started (omega arith) begun-Shows
      script_succeeds

started-IsJournal : IsJournal started
started-IsJournal = record { next_msg_id = omega arith; messages = ((refl, refl, refl), tt) }

journal_read_back_example :
    read_messages (memory_disk.written (run memory script begun).1.file)
    ≡ some (promises script started).1.messages
journal_read_back_example =
    journal_read_back memory_disk memory_full script begun started (omega arith) (omega arith)
      started-IsJournal begun-Shows script_succeeds

subscription_ids_example :
    HasIds
      (memory_disk.written (run memory script begun).1.file)
      (run memory script begun).1.next_msg_id
subscription_ids_example =
    subscription_ids memory_disk memory_full script begun started (omega arith) (omega arith)
      started-IsJournal refl (omega arith) begun-Shows script_succeeds

-- A disk with room for the preamble and ten bytes more.
abbrev nearly_full : Inst short
nearly_full = record {
  phase = phase_data;
  file = record {
    bytes = begun.file.bytes;
    behind = [];
    room = length begun.file.bytes + 10;
    clock = 3000;
  };
  next_msg_id = 0;
}

-- A text of five letters takes 17 bytes: it is cut off, and the call reports success.
short_reported :
    let out = Api.log_string short log (some (codes "armed")) 5 info nearly_full in
    (out.0 ≡ ok tt) × (length out.1.file.bytes ≡ length begun.file.bytes + 10)
unfolding Api.init Api.log_string Api.save Api.require_phase write_header write_flag_bits try_write
    or_return ◌>>=◌ uptime_us
short_reported = (refl, refl)

abbrev running : Inst memory
running = record begun { phase = phase_data }

log_string_lem_example :
    RecordedAt memory_disk running 2002000 preamble
      (λ us. Message.text (level_code info) us (codes "armed"))
      (Api.log_string memory log (some (codes "armed")) 5 info running)
log_string_lem_example =
    log_string_lem memory_disk memory_full running 2002000 preamble (codes "armed") 5 info refl
      (omega arith) (omega arith) begun_reads

begun_not_data : begun.phase ≢ phase_data
unfolding Api.init write_header write_flag_bits try_write or_return ◌>>=◌ uptime_us
begun_not_data = λ e. cc

close_lem_example :
    Closed memory_disk memory_full running 2002000 preamble (Api.close memory log running)
close_lem_example = close_lem memory_disk memory_full running 2002000 preamble refl begun_reads

close_ignores_phase_example :
    ((Api.close memory log begun).0 ≢ err wrong_phase)
    × Closed memory_disk memory_full begun 2002000 preamble (Api.close memory log begun)
close_ignores_phase_example =
    close_ignores_phase memory_disk memory_full begun 2002000 preamble begun_not_data begun_reads

subscribe_lem_example :
    Subscribed memory_disk memory_full gyro 0 running 2002000 preamble
      (Generated.subscribe memory gyro log 0 running)
subscribe_lem_example =
    subscribe_lem memory_disk memory_full gyro 0 running 2002000 preamble refl (omega arith)
      (omega arith) begun_reads

write_lem_example :
    Recorded memory_disk running 2002000 preamble
      (Message.logged 0 (field_bytes gyro.fields (1 ∷ 2 ∷ 3 ∷ 4 ∷ [])))
      (Generated.write memory gyro log (some (1 ∷ 2 ∷ 3 ∷ 4 ∷ [])) 0 running)
write_lem_example =
    write_lem memory_disk memory_full gyro running 2002000 preamble (1 ∷ 2 ∷ 3 ∷ 4 ∷ []) 0 refl refl
      (omega arith) begun_reads
