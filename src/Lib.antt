-- ===== src/Lib.antt =====
-- fend runs a command in a virtual machine with the project mounted. On a Linux host, the command
-- line (linux/src/cli.rs) builds a launch configuration, which becomes the commands of a virtual
-- machine (linux/src/qemu.rs) that a supervisor starts and cleans up (linux/src/supervisor.rs). A
-- daemon (linux/src/daemon.rs) keeps warm machines in a pool (linux/src/pool.rs) and is asked for
-- them over a Unix socket (linux/src/ipc.rs). In the machine, the guest daemon (fendd/src) and the
-- host's session (linux/src/session.rs) speak frames over vsock, with byte data as base64.
--
-- Which file models which part:
--   Protocol/Frame.antt     MessageType, read_frame and write_frame of fendd/src/protocol.rs, and
--                           those of linux/src/session.rs with the prefix host_
--   Protocol/Base64.antt    base64_encode and base64_decode of fendd/src/protocol.rs, and the
--                           decoder of linux/src/session.rs
--   Qemu.antt, Qemu/Plan.antt   linux/src/qemu.rs, and the virtiofsd command of linux/src/tools.rs
--   Ipc.antt, Ipc/Wire.antt   linux/src/ipc.rs: its data, and its messages as bytes
--   Vm.antt, Pool.antt      the data and the operations of VmPool of linux/src/pool.rs;
--                           Pool/Boot.antt its boot, Pool/Threads.antt the interleavings
--   Cli.antt, Cli/Numbers.antt, Cli/Parse.antt, Cli/Commands.antt   the parsers of
--                           linux/src/cli.rs; Cli/Config.antt what is built from the options
--   Supervisor.antt         launch_plan and cleanup of linux/src/supervisor.rs; Supervisor/Stop.antt
--                           and Supervisor/Stop/Directory.antt stop_run_dir
--   Session.antt            the loop of run_attached of linux/src/session.rs, and send_output and
--                           send_exit of fendd/src/process.rs; Session/Ports.antt its
--                           port_forward_loop, on bytes and pauses
--   Process.antt            build_env, apply_network_policy and drop_root of fendd/src/process.rs,
--                           with the system calls before exec as a list
--   Daemon.antt             handle_connection and run_reaper of linux/src/daemon.rs, and the
--                           default paths of linux/src/ipc.rs
--   Doctor.antt             linux/src/doctor.rs: the probed facts and their texts; Doctor/Report.antt
--                           `evaluate` and `evaluate_launch`
--   Smoke.antt              linux/src/smoke.rs: the types and the calls with a deadline; Smoke/Run.antt
--                           the session; Connect.antt the attempts to connect
--   Bootstrap.antt          linux/src/bootstrap.rs: the download of the artifacts and their sums
--   App.antt                linux/src/app.rs: run_disposable_command and what it calls
--   Runtime.antt            linux/src/runtime.rs: Runtime/Semver.antt versions and requirements,
--                           Select.antt the selections, Pins.antt .fend.toml, Machine.antt what is
--                           asked of the host, Resolve.antt, Install.antt and Ensure.antt the way to
--                           a runtime, Prepare.antt the command of the guest
--   Guest.antt              fendd/src: Guest/Connection.antt the loop of connection.rs,
--                           ProcNet.antt, PortMonitor.antt and NetworkMonitor.antt the monitors with
--                           the connections of Subscribers.antt, Init.antt the readers of init.rs
-- The other modules below these hold lemmas, theorems and tests. Prelude.antt holds what all share.
--
-- How the code is represented. A byte is a number below 256, a stream the list of the bytes that
-- are to come, and a writer the list of those written. A path is its text, and `Path::join` is the
-- function `join`. A map is an association list, where `lookup` finds the first entry of a key. A
-- u32 counter wraps at 2 ^ 32. Each function of the pool is one critical section of its lock, with
-- the reading of the clock as an argument in milliseconds; `ensure` has two sections, before and
-- after the boot, and what other threads do to the pool between them, or while a session of
-- handle_connection is open, is a parameter; a history is a list of sections. The loops over lists
-- are structural recursion; the loop of `ensure` is recursion on its number of retries, which the
-- code has too; the loop of `run_attached` is recursion on fuel, one unit for each frame, of which
-- the length of the stream and one are enough; `wait_for_pid_exit` is recursion on fuel, one unit
-- for each turn, of which one more than its timeout in milliseconds is enough.
--
-- Outside the model are parameters: JSON, the launch of a machine, `canonicalize`, the standard
-- library's hash, the order of paths, the text of an error, and in Supervisor.antt whether a
-- spawn, a wait for a socket or a write of a pid file succeeds, in Process.antt whether a system
-- call does. A child ends only when it is killed and was waited for.
--
-- Pool/Registry.antt is what the pool promises, a lease for each project, without CIDs, processes and
-- the order of entries; Pool/Threads/Refinement.antt compares the two after any history.
--
-- In Smoke.antt the calls on the socket are numbered, and the clock and the failures of the socket
-- are functions of the number; in Bootstrap.antt a file is its contents and a command a function; in
-- App.antt what the called parts answer is a record, and a run lists what it started; in
-- Supervisor/Stop.antt kill, the clock and the sleep are a record over a world of their own.
--
-- In Runtime/Machine.antt the host answers every question about a file and every command, the
-- answers may depend on the commands run before, and serde_json gives the entries of an index. In
-- Guest.antt a subscriber carries the results of the next writes to it, and a spawn and the parsed
-- messages are parameters. Sums of 64-bit version numbers wrap.
--
-- Not modelled: the mounts, the modules and the sockets of the guest, the spawn of its commands, the
-- session's other threads, the probing of the host for the doctor, the images that bootstrap builds, the
-- dispatch of the subcommands and their printing, the start of the daemon, the usage texts of the
-- command line, serde, and all code that only calls the operating system; nor the Swift host and the
-- scripts, which are other programs.
mod Prelude
pub mod Protocol
pub mod Qemu
pub mod Ipc
pub mod Vm
pub mod Pool
pub mod Cli
pub mod Session
pub mod Supervisor
pub mod Process
pub mod Daemon
pub mod Runtime
pub mod Guest
pub mod Doctor
pub mod Connect
pub mod Smoke
pub mod Bootstrap
pub mod App
