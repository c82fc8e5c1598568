-- ===== src/Lib.antt =====
-- Eurus flight controller: what the firmware's own code keeps and promises.
--
-- The firmware is a set of Zephyr threads. Sensor interrupts publish IMU and barometer data on zbus
-- channels; a logger thread writes them to an SD card in the ULog format; a radio thread turns SBUS
-- events into stick positions; two telemetry threads pack MAVLink messages into a pipe and send them
-- over a UART. Below them are two libraries: the ULog writer and the ESC driver.
--
-- The parts and the code they model:
--
-- Common: lists, bytes, integers and Boolean tests over the native numbers; Common.Exec is the
-- monad of code that changes a state and may return early with an error; Common.Float is an
-- interface of single precision floating point.
-- Ulog: libs/logging/ulog and the code that tools/ulog_gen.py generates. Ulog.Types are the types
-- of ulog.h, Ulog.Write the static writers of ulog.c, Ulog.Api its public functions (ULOG_Init is
-- `init`, ULOG_AddInfo is `add_info` and so on), Ulog.Generated the functions of SOURCE_TEMPLATE,
-- which take the message definition as an argument. An early return of an error is `raise`, and
-- ULOG_SUCCESS is `ok tt`. Ulog.Platform is what this code calls of Zephyr. Ulog.Format is a
-- reader of log files and Ulog.Message the messages that they consist of, both from the
-- description of the ULog format and independent of the writer. Ulog.Session has sequences of
-- calls, the abstract log that they promise, and a reader of its messages.
-- Esc: libs/motor_control/esc. Esc.Types are the types of esc.h and the constants of esc.c, Esc.Api
-- the functions (ESC_SetSpeed is `set_speed` and so on). The Kconfig options are a record.
-- App: app/src. App.Boot is update_boot_count of main.c; App.LogName the file name of logger.c;
-- App.Logger the thread of logger.c (its subdirectory has the proofs): the calls of the log writer
-- that it makes are a list, because no result of one but ULOG_Init's changes what it does next. Its
-- endless loop is a list of the events that it waits for.
-- App.Telemetry is the threads of telemetry_packer.c and telemetry_sender.c, whose rounds are
-- interleaved in any order.
-- App.Radio is the callback and the thread of radio_receiver.c, in any order of their rounds.
-- App.Sensors is process_imu and process_baro of main.c, App.Startup its `main`: the checks of the
-- devices, the storage, the start of the threads, whose own code is the modules above, and the
-- rounds of the endless loop, as many as given.
-- App.Bus is how samples reach the threads: the channels, the waits at the heads of the loops of
-- logger.c and telemetry_packer.c, and their timers. App.Flight puts it together: main, one
-- statement of its loop at a time, the interrupt, the timers, and the waits and reads of the threads,
-- in any order; what a thread has heard are the events of App.Logger and App.Telemetry.
-- Demos: the programs of demos, Demos.NvsSpiFlash and Demos.Esc, each its main with the code of the
-- firmware's libraries that it calls. Sitl: the simulator's program sitl/app/src/main.c.
--
-- Assumptions, which stand among the hypotheses of the theorems that need them. IsFile: fs_write
-- returns a negative code and leaves the position of the file, or a count of bytes that stand in
-- the file, over those that an older file had there. NeverShort: a count is the count that was
-- asked for, so the disk does not fill up in the middle of one write. IsFull: a full disk takes
-- nothing, returns the count 0 and stays full. IsNvs: an accepted write of the storage is read
-- back, a refused one changes nothing; NeverFails: none is refused; LeavesBuffer: a failed read
-- leaves its buffer. IsBus: a message that a zbus channel takes is its newest. IsZbus: a
-- publication with room in the queues becomes the content of its channel and notifies both
-- observers, or is refused since the channel is locked and changes nothing, and a wait gives the
-- oldest notification; ReadsInTime: no read of a channel fails; IsStill: the LED and a pause leave
-- zbus alone; IsClock: the uptime does not go back. IsPipe and IsMsgq: a pipe and a queue take
-- items at the end and give them from the front; HasRoom and HoldsOne: what fits is taken, what
-- waits can be read. IsUv: a send that is accepted while no request is held is sent or held, and
-- what is held is sent later with the bytes that its buffer has then. IsIeee, HasNumbers and
-- IsTenth: small integers and the operations on them are exact, sums are monotone, steps of 0.1
-- stay numbers, and ten of them reach 1. IsApart, IsLoop and IsQuiet: what a call of Zephyr leaves
-- alone. Works, IsReady and Sends: no call of the kind fails, for the theorems that say what
-- happens then. Each has a concrete instance in the module Examples beside its part, or in
-- Ulog.Memory, Ulog.ShortDisk, Esc.Bench or App.Startup.Rig, App.Flight.Rig or App.Telemetry.Rig,
-- which several Examples share.
--
-- Numbers are the native ones, with the wrap-around of the machine's widths written out: sizes and
-- message ids modulo 2 ^ 16, times modulo 2 ^ 64, those of the
-- barometer modulo 2 ^ 32, a `uint8_t` modulo 2 ^ 8. The bytes of a number are
-- in little endian order, as on the boards. A loop of the readers runs on fuel, the length of the
-- file, which is enough because every frame takes bytes from it; decimal printing has fuel 10, which
-- is enough below 2 ^ 31.
-- A sweep of the ESC demo has ten rounds, which Demos.Esc.Sweep is about; an endless loop has the
-- number of rounds that a theorem gives it.
--
-- Not modelled: the array fields that the generator would allow but no definition has, the reading of
-- YAML and the templates of headers, console messages, the MAVLink library, which is not in the
-- repository, the buffers of its channels, and the memory that a caller's pointer would reach
-- beyond the length it states.
pub mod Common
pub mod Ulog
pub mod Esc
pub mod App
pub mod Demos
pub mod Sitl
