-- ===== src/Lib.antt =====
-- Verification of Thrive, a container engine: the parts that decide what is built, started and found.
--
-- Dag models pkg/dag/dag.go, the build graph: `New` is `new`, `TopologicalSort` is
--   `topological_sort`. A Go map with string keys is an association list in the order of its
--   iteration, and `map[string]bool` is the list of its true keys. The loop runs on fuel, one round
--   for each node; every round processes a node.
-- Dockerfile models pkg/dockerfile/dockerfile.go, and the graph types of pkg/thrivefile/thrivefile.go.
--   `logicalLines` is in Lines, `substitute` in Substitute, `shellQuote` and `shellJoin` in Quote,
--   the loop of `Parse` over the instructions in Parse, and its end, which links the steps of the
--   last stage, in Graph. `json.Unmarshal` of a list of strings, `filepath.Join`, and the order in
--   which Go iterates over the map of an ENV instruction are parameters. The variables of `Parse`
--   are the record `State`. `substitute` runs on fuel, one round for each byte. Buildable joins the
--   parser with the sort of Dag, which pkg/build/build.go applies to the parsed graph.
-- Compose models pkg/compose/compose.go: `startOrder` in StartOrder (the depth of the recursion is
--   bounded by the number of services), `parseComposePorts` in Ports, and in Names `serviceIDs`
--   with its insertion sort, whose directory entries are an argument. Commands has `UpScaled` and the
--   other commands on containers, over the interface Engine of what they ask of the packages
--   internal/runtime, internal/image, internal/network and internal/volume. Traced has an engine
--   around the given one that notes its successful pulls, creations and starts.
-- P2p models internal/p2p/dht.go, the Kademlia table: ids are lists of bytes, the 256 buckets a
--   function from their index, and the random number of `AddNode` an argument. `FindNode` is
--   `find_node`, its loop of growing distance runs the 255 rounds of the source. SHA-256 is a
--   parameter of `announce`.
-- Network models internal/network/nets.go: the directory of networks with its operations, sequences
--   of which are in Calls; in Ipam the addresses of one network, where the loop of `AllocateOn` runs
--   on its 65000 rounds, and those of the built-in network in internal/network/veth.go; in Attach the attachments of containers and their teardown, with the release
--   of the address in `TeardownVethOn` of internal/network/veth.go. Files can be read and written. The
--   hash of a bridge's name, and whether the kernel sets up a bridge, are parameters; which bridges
--   there are is part of the state.
-- Runtime models internal/runtime: the configuration and state of containers from config.go, and
--   runtime.go, lifecycle.go and network_attach.go over a machine with a directory for each container. What
--   the kernel and the packages image, cgroup, secrets and swarmconfig do is the record `Host` of
--   operations on a state of its own. `Start` is in Command (the command line), Launch (the mounts and
--   the process), Attach (the networks, with the commands of internal/network/veth.go) and Start; the
--   goroutine that waits for a process is a `Reaper` of the state, and its body, with `tryRestart`, is
--   `exit_process` in Exit. The other calls are in Calls, `ParseRestartPolicy` in Restart, and
--   `Diff`, over what `Walk` and `Lstat` find below its directories, in Diff, where Due says which change a
--   path is to have. The end of a process may come between any two calls, as one step.
-- Services models internal/swarm/service.go over Runtime: the files of the services, and `Reconcile` in
--   two loops, of which the second runs on fuel, one round for each replica and each container found.
-- Stacks models internal/swarm/stack.go over Services and the files of Compose: `DeployStack` and `RemoveStack`.
-- Swarm models internal/swarm/swarm.go: the membership of the single node, whose state file is an
--   optional record; random digits, the time and the number of services are arguments. It has the check of
--   the names of services as well.
-- Volume models internal/volume/volume.go: the directory of named volumes; whether a path is used or
--   exists is asked of a parameter.
-- Prelude holds the names that all parts share: tests, lists, byte strings, association lists, sets,
--   sorting, decimal numbers and integers.
--
-- Not modelled: locks, logging, failing reads and writes of files, the kernel, YAML and JSON, and the packages
--   that only pass values on to them. Of internal/runtime, `Wait`, `Stats` and `Top`, which only read,
--   `Export` and `Commit`, which copy file systems; of internal/swarm, the
--   listing of stacks, secrets and configs. Text is taken byte by byte, as the grammar is ASCII.
pub mod Prelude
pub mod Compose
pub mod Dag
pub mod Dockerfile
pub mod Network
pub mod P2p
pub mod Runtime
pub mod Services
pub mod Stacks
pub mod Swarm
pub mod Volume
