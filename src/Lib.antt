-- ===== src/Lib.antt =====
-- Verification of snapper, the tool that manages snapshots of file systems.
--
-- The program has a library (snapper/), a command line client (client/), a daemon (server/) that the
-- client talks to over D-Bus (dbus/), and plug-ins that talk STOMP (stomp/). The library keeps, for each
-- configuration, the list of snapshots with a directory and an info.xml for each, next to the snapshots
-- that the file system itself has. The client works on a proxy of that list and runs the cleanup
-- algorithms on it. Between two snapshots the library compares files and can undo changes.
-- On btrfs the comparison reads what a stream of differences says, and on LVM a cache has the state of the
-- volumes. A separate program, snbk, copies snapshots to a backup target.
-- The daemon serializes the calls of its clients, whose locks, mounts and comparisons protect snapshots
-- from deletion.
--
-- Files, and the code that each one models:
--   Base: helpers; Base.Tests, Base.Lists: Boolean tests and lists; Base.Texts: texts as bytes and maps
--     with such keys; Base.Int: integers over the native numbers.
--   Snapshot: the data of snapper/Snapshot.h.
--   Snapshots: class Snapshots and class Snapshot of snapper/Snapshot.cc. Store has the state (the list
--     of entries, the infos directory, the state of the file system) and the interface to class
--     Filesystem; Number is nextNumber, Create the creation and modification, Delete deleteSnapshot,
--     Mount the counters of mounts; Number.Fresh, Create.Ordered, Create.Keeps, Delete.Keeps and History
--     have the proofs, Dirs lemmas on the infos directory.
--   Proxy: the searches in the list of client/proxy/proxy.cc; Proxy.Library is ProxySnapperLib of
--     client/proxy/proxy-lib.cc, with its proofs in Library.Grown and Library.Steps.
--   Cleanup: client/cleanup.cc. Filter has the filters of class Cleaner, Number, Timeline and
--     EmptyPrePost the candidates of the three cleaners, Loop the cleanup with and without a condition
--     over the interface ProxySnapper, Limit and Range the parameters of client/utils/Limit.cc and
--     client/utils/Range.cc, Dates client/utils/equal-date.cc. The proofs are in Filter.Deletable,
--     Filter.Pairs, Number.Exact, Number.Safe, Timeline.Exact, Distinct, Loop.Progress,
--     Loop.Survival and Safety.
--   Files: snapper/File.cc: Status the status flags, Undo the undo steps, Undo.Order their order, Paths
--     the absolute paths, Attributes the transfer of extended attributes of snapper/XAttributes.cc, with
--     its proofs in Attributes.Difference, Loops, Filtered, Transfer and Fails.
--   Compare: snapper/Compare.cc. Content compares two files, Content.Blocks has its proofs; Dirs walks
--     through two trees. Dirs.Tree says what a walk should report; Dirs.Subdirs, Names, Twosome, Merge,
--     Loop, Sort and Worker have the proofs, from listSubdirs up to cmpDirs.
--   Wire: Escape is the escaping of texts of dbus/DBusMessage.cc and dbus/DBusPipe.cc; Stomp is
--     stomp/Stomp.cc, with its proofs in Stomp.Header, Stomp.Frame and Stomp.Ends.
--   Server: the clients and configurations of snapperd. State has the data of server/Client.h,
--     server/MetaSnapper.h and server/RefCounter.h, Permission the permissions, Handlers the calls that keep
--     to locks, mounts and comparisons, Steps their interleaving and the end of a client. The proofs are in
--     UseCount.Calls, UseCount.Reached, Refused and Held.
--   Btrfs: the comparison by send streams of snapper/Btrfs.cc. Tree is class tree_node, with its proofs in
--     Tree.Lookup, Tree.Changes, Tree.Tidy, Tree.Result and Tree.Check; Stream has the operations of a stream
--     and Btrfs::cmpDirs, with its proofs in Stream.Statuses and Stream.Whole.
--   Lvm: the cache of snapper/LvmCache.cc. Coherent says what LVM is taken to do; the proofs are there and in
--     Whole, Done and Failed.
--   Backup: classes TheBigThing and TheBigThings of client/snbk/TheBigThing.cc, with proofs in Transfer,
--     Remove, Target and Mirrored; Probe is the probing of the target, with its proofs; TreeView is the search of
--     client/snbk/TreeView.cc for the parent of a send, with its proofs in TreeView.Nearest
--     and TreeView.Shortest.
--   Config: Sysconfig is class SysconfigFile of snapper/AsciiFile.cc, with its proofs in Sysconfig.Values,
--     Sysconfig.Vectors and Sysconfig.All.
--   Examples: the theorems at concrete inputs.
--
-- A function that throws returns an error, `none` or `threw` with the state that it leaves. The number
-- of a snapshot is an unsigned int: nextNumber wraps at 2 ^ 32. Its loop runs on fuel, and
-- Snapshots.Number.Fresh says how much is enough: the distance to a number from which on the file system
-- has no snapshot. The loop of the conditional cleanup runs on fuel too, and one round more than the list
-- has entries is enough (Cleanup.Loop.Progress). Reading a STOMP message takes one unit of fuel for each
-- line (Wire.Stomp.Ends), the loop over the blocks of two files one for each round
-- (Compare.Content.Blocks), and the walk through two trees one for each level of directories
-- (Compare.Dirs.Worker). The search for the parent of a send takes one unit for each node that
-- it visits (Backup.TreeView.Nearest). Calls of the file system, localtime_r, the reading of numbers in a
-- Range, and arithmetic on doubles are parameters, with the laws that the code relies on; so are the accounts of the
-- system and, in Compare and Files.Attributes, what the calls on single files answer. So are what libbtrfs
-- reads of a stream, the commands of LVM and those of snbk.
--
-- Not modelled: the reading and writing of info.xml, saving and compressing configuration files, plug-in
-- scripts, logging and output, the file lists of a comparison, the operations of undo on the live file
-- system but for extended attributes, the calls of the daemon that list, create and modify, what its
-- background worker computes, the D-Bus transport, the rest of the back ends of class Filesystem, which are
-- ioctls and mounts, the probing of the source and the drawing of trees in snbk, and the other programs.
-- The search for the parent of a send is a parameter of the transfer.
pub mod Base
pub mod Snapshot
pub mod Proxy
pub mod Cleanup
pub mod Snapshots
pub mod Server
pub mod Config
pub mod Btrfs
pub mod Lvm
pub mod Backup
pub mod Files
pub mod Compare
pub mod Wire
pub mod Examples
