-- ===== src/Lib.antt =====
-- LXD (Go): a daemon that runs system containers, with a REST API and a command line client. This
-- library models the parts that decide what the daemon does before it calls the kernel, liblxc, SQLite
-- or the storage tools:
--
--   * Idmap (shared/idmap/idmapset_linux.go). Maps of user and group ids. `IdmapEntry`, `IdRange` and
--     `IdmapSet` are the Go types. Idmap/Entry has the operations on one entry (Intersects,
--     HostidsIntersect, shift_into_ns, shift_from_ns), Idmap/IdSet those on a set: AddSafe, Append,
--     ValidRanges, Usable, ShiftIntoNs and ShiftFromNs; Idmap/Files parses the texts and files of id maps,
--     and Idmap/Default finds the daemon's own map (DefaultIdmapSet) in them.
--   * Allocation (lxd/container_lxc.go: idmapSize, parseRawIdmap, findIdmap). The id map of a
--     container: raw.idmap (Allocation) is added to the map by AddSafe (Allocation/Find), and an
--     isolated container gets host ids that are searched for among those of the other isolated
--     containers (Allocation/Search).
--   * Devices (lxd/types/devices.go). Device lists, their comparison, the difference of two of them that
--     a running container is updated by, and the devices that a profile adds.
--   * Validation (lxd/container.go; lxcValidConfig of lxd/container_lxc.go; ValidHostname and
--     ParseByteSizeString of shared/util.go). What the daemon accepts as a container's name,
--     configuration and devices, before it stores them; the device lists are those of Devices.
--   * Operations (lxd/operations.go; shared/api/status_code.go; shared/cancel). The operations that
--     run in the background. Operations/Operation has the operation and its methods on their own,
--     Operations/Registry creates operations and finds them; Operations/Threads has Run, Cancel, done
--     and the updates as threads on one operation: each `advance` is a step that no other thread can
--     divide, and `Move` and `Step` are the interleavings. Operations/Threads/Locks divides each locked
--     part into waiting for the lock, the work and `Unlock`; only the work itself is one step there.
--   * Schema (lxd/db/schema/schema.go, lxd/db/schema/query.go, lxd/db/query/transaction.go). The updates
--     of the database schema and the transaction that applies them.
--   * Limits (lxd/devices.go). Which CPUs containers run on (deviceTaskBalance in Limits/Balance, with
--     the texts of CPU sets in Limits/Cpuset), the shares and quotas of CPUs (Limits/Cpu), the limits
--     of disks and the memory of the host (Limits/Disk), and the limits that getDiskLimits of
--     lxd/container_lxc.go finds for the block devices behind the disks (Limits/Blocks).
--   * DaemonConfig (lxd/daemon_config.go; ConfigValueSet of lxd/db/config.go; api10Put of
--     lxd/api_1.0.go). The keys of the daemon's configuration as a cache of a table of the database:
--     Validate, Set, the setters and triggers, the loading at the start (DaemonConfig/Init) and the
--     change by a request (DaemonConfig/Put).
--   * Startup. The patches that are applied once (lxd/patches.go), the loops that repeat a call of the
--     database while it is locked (lxd/db/db.go), and the containers that are started with the daemon
--     (lxd/containers.go).
--   * Images (shared/simplestreams/simplestreams.go). The aliases of the images of a server, and the
--     search for an image.
--   * Client (lxc/config/remote.go, lxc/list.go, lxc/main.go). The remote in a name, the filters of
--     `lxc list` and the aliases of commands.
--   * Busy (lxd/container_lxc.go). The operation that a container is busy with (createOperation,
--     getOperation, Done), as calls one after the other and as turns of goroutines.
--   * Expand (lxd/container_lxc.go). The configuration and the devices of a container, with those of its
--     profiles below (expandConfig, expandDevices). Validation judges them as a whole.
--   * Proxy (shared/proxy.go). The hosts that are reached without a proxy.
--   * Text: the functions of the packages strings and strconv that these parts call, and IsTrue and
--     StringInSlice of shared/util.go. Prelude: what all of them share. Prelude/Int64 has Go's int64,
--     Prelude/Dict its maps with string keys, Prelude/Results a value or an error.
--
-- Conventions. A Go function has the name of its definition in lower case with underscores
-- (`container_valid_devices` is containerValidDevices). A pair of a value and an error is a
-- `Result`; the constructors of each `Error` stand for the texts of the errors. An int64 is its bit
-- pattern, a number below 2^64, and sums and differences wrap; the theorems on ids ask for numbers
-- below 2^34 or 2^62, since the kernel's ids have 32 bits. `strings.ToLower` is modelled for the
-- letters that become ASCII ones. A map is a list of its entries, and a range loop visits them in
-- the order of the list, so that a theorem for every list is one for every order of the iteration;
-- the map of the running operations, in Busy, is a function. Structures that Go copies with
-- DeepCopy are values. Loops are by recursion on the list that they run over. Fuel is used in two
-- places: the digits of a number are found with one more round than the number (`decimal`), which
-- is enough as it gets smaller in each, and `retry` has the number of rounds that its loop has,
-- 1000 in the code. Texts are strings, or lists of the codes of their characters where single
-- characters matter.
--
-- Arguments, and not modelled: the SQL driver (Schema.Driver, whose documented behaviour is
-- Schema.Rows.Laws and Schema.Transaction.Transactions), the files of the host and the attributes
-- of devices (Validation.Device.Host), the version of liblxc, the kernel's own id map, the clock,
-- the hooks of an operation, the reflection that reads metadata, the control groups, regular
-- expressions, what a patch does, and the programs and drivers that a key of the configuration
-- calls (DaemonConfig.Host). Of the files named above, what only reads a file, formats a text,
-- logs, sends an event or answers a request over HTTP is left out. The client library, the commands
-- of the client, the storage backends, the transfer of images, migration, networks, AppArmor and
-- seccomp profiles, the devices of the kernel and the running of containers by liblxc are left out:
-- they consist of calls of other programs and libraries.
pub mod Allocation
pub mod Busy
pub mod Client
pub mod DaemonConfig
pub mod Devices
pub mod Expand
pub mod Idmap
pub mod Images
pub mod Limits
pub mod Operations
pub mod Prelude
pub mod Proxy
pub mod Schema
pub mod Startup
pub mod Text
pub mod Validation
