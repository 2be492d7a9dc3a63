-- ===== src/Lib.antt =====
-- klab boots topologies of virtual machines with kernels of one's own, on a Linux host with KVM or
-- on a Mac with a lima instance. This is a model of its Go code, with theorems on it; what the
-- operating system, the tools that it runs and the libraries do stands as parameters.
--
-- A topology file is read and validated (internal/topology), expanded into instances, and turned
-- into a plan of bridges, taps and addresses (internal/runner/plan.go). Each instance becomes a
-- boot spec (internal/runner/runner.go), which the QEMU driver (internal/driver/qemu) turns into a
-- command line; the driver talks to a booted node by files of requests and responses. Kernels are
-- built from merged configs and kept under a key of all that they are built from (internal/kernel).
-- `klab doctor` judges a machine by probed facts (internal/host).
--
-- Which module models what:
--   Topology     internal/topology/topology.go: `validate`, `expand`, `mac`, and in Topology/Load
--                `load` and `validate_file`. The other children hold the proofs: Accepts and Validate
--                on Validate, Expand, Order, Mac and Names on Expand.
--   Driver       internal/driver/driver.go (`can_run_arch` is CanRunArch) and, in Driver/Conformance,
--                internal/driver/conformance.go.
--   Runner       Runner/Plan: internal/runner/plan.go (`plan`, `bridge_name`, `mac_for`,
--                `add_to_ipv4`); Runner/Resolve: internal/runner/runner.go (`parse_mem`,
--                `resolve_boot_spec`, `check_caps`); Runner/Cluster: Up, Down and Status of
--                internal/runner/cluster.go (`up`, `down`, `status`), with the scripts that they run
--                in Runner/Cluster/Scripts. Tidy and Leaks are about what Up leaves and Down ends,
--                Trace about the order of what they ask of the machine, Handles about the run
--                directories, Order about the order of the map of nodes, Kept about what Up, Down
--                and Status keep, Nodes about when Up succeeds.
--   Host         internal/host/host.go (`evaluate`, `fprint`, `exit_code`); Host/Probe:
--                internal/host/probe.go (`probe`).
--   Kernel       internal/kernel/kernel.go (`merge_config`, `cache_key`); Kernel/Store:
--                internal/kernel/store.go (`get` is Store.Get), of which Store/Steps has the steps
--                (`step`) and Store/Shared several calls that take them in turn; Kernel/Sources: what
--                the sources of a config say against the config and its key; Kernel/Builder:
--                internal/kernel/builder.go (`arch_params`, `build_script`, `build`).
--   Qemu         internal/driver/qemu/qemu.go and launchArgv of live.go (`boot_argv`, `launch_argv`);
--                Qemu/Framing: internal/driver/qemu/framing.go and the quoting of live.go
--                (`encode_request`, `parse_response`, `parse_ready`, `sh_quote`); Qemu/Live: Boot, Exec
--                and Stop of live.go (`boot`, `exec`, `stop`), on a machine `Vm` with a clock.
--   Exec         internal/exec/runner.go (`lima_run` is LimaRunner.Run).
--   Cli          cmd/klab/main.go: the exits and the built-in kernels; Cli/Arguments: what validate and
--                exec make of their arguments; Cli/Kernels: `kernel_cmd`, `resolve_kernel_image`;
--                Cli/Nodes: `up_cmd`, `down_cmd`, `status_cmd`, `exec_cmd`; Cli/Main: `main`.
--                Built, Executed, Ends, Up, Doctored and Validated hold proofs on the whole way of a
--                command, and Going that the operations of the cluster end.
--   Text, Net    what these use of Go's strings, strconv, sort, unicode and net packages.
--   Prelude      shared names, lists over native numbers, results.
--   Tests        tests and instances of the theorems.
--
-- A string or a []byte is the list of its bytes, an `int` an integer; products that can leave 64
-- bits are wrapped (`parse_mem`), other numbers are counters that stay far below 2^63. A Go map is
-- an association list with distinct keys, whose order stands for the order in which a range loop
-- visits it. An error is a constructor with what its message quotes. State that a loop or a closure
-- changes is passed along. Every loop is a recursion on the list that it goes through or on the
-- rounds that are left, so that all functions are total, without fuel, but for two: the digits of a
-- number are printed on fuel, of which the number itself plus one is enough, and the loops of Boot
-- and Exec that wait for a file have as fuel the nanoseconds until the deadline plus one. That is
-- enough where time does not run backwards and a sleep lasts as long as it is asked to (`IsClock`).
--
-- Parameters, for code that is not the repository's: reading a file and unmarshalling YAML
-- (Topology/Load), SHA-256 (`sum` in Kernel, of which the theorem on keys asks that it returns
-- bytes), strconv.Quote (`quote` in Host) and, in Kernel/Store, the record `Machine`: the file
-- system, the builder and JSON, of which the theorem on two calls asks that a file reads as it was
-- written and that an encoded artifact decodes to itself. What Kernel/Store/Shared asks of it
-- besides is `IsOrderly`: writing one file leaves the others alone, neither a new directory nor a
-- build makes a marker, and a hash is not empty; and `LeavesPart`: a failed write leaves the whole,
-- what was there before or what does not decode; and `Turn` takes it that a marker which is there
-- in part, or mixed of several, does not decode. Of the machine of Runner/Cluster, Tidy asks that a
-- script that is put together of words of the shell makes at most the device that it names, a boot
-- at most the machine of its spec, that a teardown ends the machine that it names, and that the
-- script for it deletes the devices of the plan; Nodes asks (`Serves`) that what Up asks for on the
-- topology succeeds. In Runner/Cluster the record `Lab` stands for the runner, the driver's live
-- path and the lookup of images, and in Qemu/Live the record `Vm` for the runner, the clock and the
-- sleep. In Exec and in Kernel/Builder the end of a command that the operating system runs is a
-- parameter.
--
-- The command line puts the components together on one machine, the record `System` of Cli: files,
-- the end of every command that is run, the time, JSON, YAML and SHA-256. A command is a function
-- of its arguments and the state of the machine to what it prints, what it says on standard error
-- and its exit code; it has no result where the code panics (Down of a topology whose plan fails)
-- or where a wait is out of fuel. A script or a build inherits the streams of the command, so that
-- what it writes is part of the state. In Host/Probe the record `Env` stands for commands, files
-- and the environment; as each command is run once, its end is a function of its command line. Of
-- the state `probed` of the system says what the commands of the probe find in it and which state
-- they leave. Up, Down and Status run on a machine that may hang (`lab_at` of Cli/Nodes): where a
-- boot or the command of a ping is out of fuel, no state is left, and the command has no result.
--
-- Not modelled: the interface of internal/experiment, which has no code, and the scripts. A context
-- is modelled by its deadline, as far as the code reads it; that it ends a command that runs is
-- left to the runner. That a file is seen while another process writes it is modelled for the
-- markers of the store (`Turn` of Kernel/Store/Shared), and for no other file. The texts of error
-- messages are not modelled, but for what they quote.
pub mod Prelude
pub mod Text
pub mod Net
pub mod Topology
pub mod Cli
pub mod Driver
pub mod Exec
pub mod Runner
pub mod Host
pub mod Kernel
pub mod Qemu
pub mod Tests
