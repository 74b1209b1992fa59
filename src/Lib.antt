-- ===== src/Lib.antt =====
-- Keybinder: a key remapper. A daemon of the system delivers key events, the mapper runs them through
-- the state machine of the current layer and the basic remappings, and queues outputs, which the daemon
-- sends when they are due. Profiles come as JSON, from files and from a local socket.
--
-- What models which part (paths from the repository's root):
--   KeyCode, KeyCode/Names: common/include/key_code.h and common/src/key_code.cpp.
--   BiMap: common/include/bi_map.h; hash tables are association lists.
--   KeyMap: linux, mac and win key_map.cpp; the macros' values are a parameter.
--   Profile, Event: common/include/profile.h and common/include/event.h.
--   ReadProfile: common/src/read_profile.cpp. `Access` takes JSON values apart, `Triggers` reads keys,
--     triggers and binds, ReadProfile the rest; `Print` writes profiles as JSON, for comparison.
--   Machine: common/src/state_machine.cpp. `Normalize` is normailze_sequences, `Build` the parts of
--     generate_states on each branch, `Generate` its loops. An iteration over a sequence is `iterate`;
--     `walk` consumes a wait right behind a trigger with it, as the source's `i++` does.
--   Mapper: common/src/mapper.cpp. The members are the record `Mapper`, with what is sent, announced
--     and counted beside them. `Output` is the queue, `Process` apply_transition, process_input and one
--     round of the loop of start, `Control` the calls from other threads. A round fails with the
--     exception of the daemon's send_outputs when an item is due that the daemon cannot send.
--   KeyChannel: common/src/key_channel.cpp, the queue in front of the mapper.
--   KeyCounter: common/src/key_counter.cpp. Settings: common/src/settings.cpp.
--   Machine/Walks: an invariant that each iteration keeps is kept by the loops of generate_states;
--     Machine/Paths: ways through a machine, those on which waits have their timers (`Timed`), and what
--     generate_states makes of its sequences;
--     Mapper/Typing: what the mapper queues on such a way, and `Loaded`, from set_profile on.
--   Mapper/Frame: what a round of the mapper leaves alone. Mapper/Endless: a profile for which no depth
--     of nested calls is enough.
--   Daemon/Linux, Daemon/Windows, Daemon/Mac: the daemon.cpp of linux, win and mac, behind the calls of
--     the systems; Daemon/Sending is how their send_outputs end. Windows/Hooks is the installation and
--     removal of hooks, Mac/Devices the choice of keyboards.
--   Server: common/src/local_server.cpp. read_data cuts a client's bytes into lines and answers each.
--   Scripts: common/src/temp_file_manager.cpp and unix and win script_runner.cpp.
--   Daemon/Linux/Lifecycle: the constructor, start ahead of its loop, and cleanup of
--     linux/src/daemon.cpp, on what the system keeps for the process.
--   Devices: linux/src/device_manager.cpp, the configuration file and the choice of a keyboard;
--     `Detection` is detect_keyboard_fallback.
--   Logger: common/src/logger.cpp, sizes and names of its files.
--   Indicator: common/src/generic_indicator.cpp, the screen and the place of a notice.
--   System: common/src/main.cpp. Daemon, mapper, server, tray and timers share the objects, and every
--     call is a step. `Shutdown` is the mapper's thread and cleanShutdown, `Latest` the profile that is
--     kept for the next start.
--   Tests: data, and the theorems applied to it.
-- Calls that may fail give a `Result`: a value, `std::nullopt`, an exception, or `too_deep`.
--
-- What the source leaves open is a parameter (`Environment`): Qt's texts (`QtText`), the answers of the
-- clock, the order that std::partition leaves, which outputs the daemon can send, and unwritten memory
-- (`Memory`), which generate_states reads in two places. `InRange` says that such a read gives an index
-- of the machine. `Doubles` is how Qt writes whole numbers into JSON, exact up to 2 ^ 53, and
-- `FileSystem` how removing and renaming a log file end.
--
-- process_input and apply_transition call one another. The model takes the depth of nesting as fuel,
-- and `too_deep` is its own failure. Where no transition puts out an event to process again, depth 1 is
-- enough. `uint64_t` sums wrap around at 2 ^ 64.
--
-- The loop of detect_keyboard_fallback is on fuel too: one round more than those that end within 30
-- seconds is enough.
--
-- read_data is given one round more than its buffer has bytes, which is enough, since each round takes
-- a newline off it.
--
-- Screen coordinates (`Indicator`) are integers without the bounds of `int`.
--
-- Not modelled: the daemons' calls of the system beyond how they end, sockets, starting of processes,
-- windows beyond their place, formatting of the log, hash values and the tests' harness. Each call
-- under the mutex is one step.
pub mod Base
pub mod BiMap
pub mod Daemon
pub mod Devices
pub mod Event
pub mod Indicator
pub mod KeyChannel
pub mod KeyCode
pub mod KeyCounter
pub mod KeyMap
pub mod Logger
pub mod Machine
pub mod Mapper
pub mod Profile
pub mod QtText
pub mod ReadProfile
pub mod Scripts
pub mod Server
pub mod Settings
pub mod System
pub mod Tests
