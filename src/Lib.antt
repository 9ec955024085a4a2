-- ===== src/Lib.antt =====
-- POKROV's Windows service and the runner of its window.
--
-- The Windows application runs the tunnel in a service. The window sends the service framed
-- requests over a pipe, through a worker that keeps their order; the server checks them and hands
-- them to a dispatcher, which serializes the calls of the runtime and cancels them; the runtime
-- guards a transaction of network changes with a journal on disk, keeps traffic blocked with
-- filters of the Windows filtering platform while it switches, and writes what it does to an event
-- log. This library models these parts, all from apps/windows_shell/windows.
--
-- Base holds what the parts share: Boolean tests, lists measured by native numbers, hexadecimal,
-- chains of fallible steps.
--
-- Protocol is service/service_protocol.cpp: Types (the enumerations and `Frame`), Words (the
-- integers on the wire), Chars, Targets, Leases and Requests (the text bodies, with
-- `IsProfileDigest` of service_profile_identity.cpp), Valid (`IsValidFrame`) and Codec (`Encode`,
-- `ExpectedFrameSize`, `Decode`). Bytes are numbers, integers keep their width by `% 2 ^ w` where
-- they are written; a field's range is a hypothesis (`IsTyped`) where a theorem needs it. A command
-- or status that is read from the wire and has no enumerator is `unnamed`. Decimal holds
-- std::to_string and std::from_chars for unsigned numbers; twenty digits are enough for 64 bits.
--
-- Recovery is service/service_recovery.cpp: Stage and Journal (the stages and the text of the
-- journal), Machine (`DurableRuntimeRecovery`; the file is part of the state, and how far a write
-- gets is an argument) and the theorems in JournalLaws, JournalSound, Durable, History, Rollback
-- and Passage. `Write` replaces the file by one move, or not at all. A generation of sixteen zero
-- bytes, which the random generator gives with probability 2 ^ -128 and `Load` would refuse, is
-- excluded by hypothesis (`IsRandom`). The calls are those of service_runtime.cpp, which records
-- four stages itself.
--
-- Guard is service/service_transition_guard.cpp: Filters (the guard's filters and the tests on
-- filters that the engine holds), Engine (`WindowsGuardBackend`; the filtering platform is not the
-- program's, so its answers are arguments) and Machine (the class `Guard` over any backend). The
-- platform's keys and flags are opaque numbers and Booleans.
--
-- Events is service/service_events.cpp: Names (the words for each enumerator), Lines (what each
-- call writes into a line, and the bounded queue), Observation (`EncodeEgressProbeObservation` of
-- service_protocol.cpp) and Writer (the writer's thread, the appending threads and the destructor
-- as steps, with the rotation of the file). The clock and the answers of the file calls are
-- arguments.
--
-- Tasks is runner/runtime_task_runner.cpp: each critical section of the worker and the window's
-- thread is a step, and the service's answer is an argument. Shared pointers to a
-- `ServiceCallControl` are numbers.
--
-- Server is service/service_server.cpp: Transfer (`WaitForIo`, `TransferExact`, `ReadFrame`,
-- `WriteFrame`), Capabilities (what the peers negotiate and what each command needs; the bits are
-- in service_protocol.h), Compatibility (the downgrade of a snapshot for an older peer), Session
-- (the loop of `ProcessClient`) and Greeting (its beginning). What Windows answers in a round of a
-- transfer, the clocks, the caller's identity and the dispatcher are arguments. A transfer runs on
-- fuel, the number of bytes asked for, since each round that goes on moves one at least; 64 rounds
-- read a capability mask.
--
-- Runtime is service/service_runtime.cpp: Host (the state of `RuntimeHost` and the text of a
-- snapshot), Rollback (`RollbackRuntime`, `RecoverPendingRuntime`), Lifecycle (`Initialize`,
-- `InvalidateProfile`, `Disconnect`, `Shutdown` and their like), Connect and ConnectRun
-- (`ConnectImpl`, as a chain of steps that each may end the call) and Profile (`StageProfile`,
-- `ReplaceManagedProfile`). The journal is that of Recovery. The Core, the files, the egress probe,
-- the guard's answers and the two extensions, local DPI and the Telegram proxy, are the record
-- `World` of functions on a state of their own. `core_started` is not in the code: it says what was
-- last done to the Core. HostHistory runs any sequence of calls.
--
-- Dispatcher is service/service_dispatcher.cpp: Types (`ActiveConnect` and how it is interrupted),
-- Texts (`WithFailure`, `WithTransportState`), Observing (`RefreshBoundNetwork`, the check handed
-- to the runtime, `ProjectBoundState`), Settling (`Cancel`, `CancelAndConfirm` and the end of
-- `Execute` for a command that connects) and Probes (`ProbeCandidate`, `CancelCandidateProbe`).
-- What lies between two locks is one function, and the runtime is the record `Host` of functions.
--
-- Examples runs the code at concrete inputs.
--
-- Not modelled: of the runtime, the smart access and catalog commands, the leases, the recheck of
-- the egress, the upkeep of the extensions, the parsing of a profile bundle and the loading of the
-- Core, and of the preparation and the proof of the extensions in `ConnectImpl` only how they may
-- end the call; of the dispatcher, its watcher's thread and the commands that do not connect; the
-- making of the pipe and its security; the pipe's client, the probes, the local DPI executor, the
-- network state and its observer, the process's entry, security and crash profile, the window's
-- shell, and the code in other languages.
pub mod Base
pub mod Protocol
pub mod Recovery
pub mod Guard
pub mod Events
pub mod Tasks
pub mod Runtime
pub mod Dispatcher
pub mod Server
pub mod Examples
