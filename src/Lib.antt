-- ===== src/Lib.antt =====
-- Verification library for the distributed synchronisation system of tugas-3 (a lock manager on a
-- replicated log, the Raft node that replicates it, a sharded message queue, cache nodes, a PBFT node,
-- the message bus, the failure detector and the metrics), for the log aggregator of uts, and for the
-- aggregator of uas, its workers and its publisher.
--
-- Parts and files
--   Common        Python lists, dicts (association lists in insertion order) and sets (lists without
--                 repetitions), Boolean tests, and the counting argument that two majorities meet.
--   Locks         tugas-3/src/nodes/lock_manager.py. State: LockState, LockHolder, LockRequest.
--                 Detector: DeadlockDetector's wait-for graph. Search: `detect_cycle`. Manager:
--                 `_do_acquire`, `_do_release`, `_do_release_all`, `_promote_waiters` and
--                 `_apply_command`. Leader: `_lease_expiry_loop`, `_deadlock_detection_loop` and the
--                 calls of a client, over a parameter that stands for `raft.submit`; in `acquire` other
--                 commands are applied before, after and between its own. The other files are about
--                 them: Exclusion, Safety, Index, Handover and WaitFor about the table,
--                 Trace, Dfs and Cycles about the search, Keys, Leases, Rounds and Acquire about the
--                 leader, Timeless, Still and Agreement about replicas with different clocks.
--   Raft          tugas-3/src/consensus/raft.py. State: node, log and messages. Node: the local
--                 operations. Handlers: the message handlers, the ticks and `submit`. Cluster: nodes on
--                 a bus (tugas-3/src/communication/message_passing.py) that may lose, repeat and
--                 reorder. Log, Apply, Commit, Following and Overcommit are about one node; Ballots,
--                 Votes, Quiet, Accepts, Elected, Casting and Election about the cluster.
--   Queue         tugas-3/src/nodes/queue_node.py. Ring: ConsistentHashRing, over two parameters that
--                 stand for MD5 of a key and of a virtual node's name. State and Node: QueueNode with
--                 its queues, inflight messages, replicas and log. Moves, Replicas and Lap are about
--                 the ring; Delivery, Requeue, Runs, Kept and Recovery about the node. A run is a list
--                 of calls of the node's operations and handlers.
--   Cache         tugas-3/src/nodes/cache_node.py. Policy: LRUPolicy and LFUPolicy. State and Node:
--                 CacheNode and its operations; a `get` that misses ends with its messages,
--                 `deliver_responses` handles those that are addressed to the node, and `fill` is the
--                 rest of the `get`. Victims is about the policies, Capacity, Bound and Runs about the
--                 size of the cache, Mesi about the states of two nodes.
--   Pbft          tugas-3/src/consensus/pbft.py. Node: PBFTNode, its operations and the handlers of the
--                 three phases, over two parameters that stand for SHA-256. Applied, Certified,
--                 Certificates and Steady are about one node, Quorums about the sizes of its quorums,
--                 Agreement about a cluster with an authentic network.
--   Detector      tugas-3/src/communication/failure_detector.py. Health: the state of each peer under
--                 heartbeats and check rounds. Silence: a peer that is not heard any more.
--   Aggregator    uts/src: an event log without duplicates. Store: what DedupStore relies on, a record of
--                 SQLite's INSERT OR IGNORE and its laws. Service: AggregatorService and its worker,
--                 which holds an event while the store works and ends with an exception. Counts: its
--                 counters and repeated batches.
--   Bus           tugas-3/src/communication/message_passing.py. Message: MessageType and Message.
--                 State: MessageBus with its inboxes, handlers and partitions. Inbox, Delivery and Partition are about any
--                 sequence of calls. The cluster of Raft stands on a weaker transport, which may also
--                 lose and repeat messages.
--   Ingest        uas/aggregator/app. Schemas: schemas.py and `_parse_events` of main.py. Storage:
--                 db.py, over a record of what INSERT ... ON CONFLICT DO NOTHING RETURNING does.
--                 Broker: broker.py, over a record of what Redis Streams do. Consumer: `worker_loop`
--                 of consumer.py, one `await` at a time. System: requests and workers in any
--                 interleaving; every `await` can end well, be refused, fail, or take effect with its
--                 answer lost, and a worker can be killed anywhere. Audit and Once are about the
--                 database, Kept, Lossless and Published about the stream.
--   Publisher     uas/publisher/publisher.py. Batches: `chunk` and `send_batches`, the answers of the
--                 server being arguments. Whole and Accounts are about them.
--   Metrics       tugas-3/src/utils/metrics.py. Instruments: counters, gauges, histograms and the
--                 registry. Sorting and Percentile are about the percentiles of a histogram.
--
-- How the code is read
--   A handler is a function from the state to the new state and its effects (messages, callbacks,
--   errors) in order; a send without delay does not suspend, so asyncio runs a handler to its end.
--   Identifiers (node, client and resource names) are natural numbers that are compared for equality,
--   and on the hash ring also for the order of entries with one hash. Times are clock ticks; a reading
--   of the clock, a random timeout and a fresh uuid are arguments of the operation that reads them.
--   Raft's indices that start at -1 stand as the source's value plus one.
--   The loops are structural recursion or count down a number that the source's condition bounds
--   (`apply_loop` runs commit_index - last_applied rounds, `commit_target` looks at the positions from
--   the last one down to the commit index). On fuel run: the loop of `get_n_nodes`, on the length of the
--   ring, which is one lap; the loop of `_ensure_capacity`, on the number of keys that the policy holds,
--   since every round takes one out; `dfs` and the climb to the parents in `detect_cycle`, on the number
--   of clients that the graph names, since the path of gray clients repeats none; and `chunk`, on the
--   number of items, since every round takes at least one. The loop of `acquire` runs on the list of its
--   rounds, each with the clock's reading. int(len * 0.95) is taken as the exact product rounded down.
--
-- Not modelled: logging and the statistics for display, the queries that only read, start and stop of
-- tasks but for the worker of uts, HTTP routes and configuration, connecting with retries, NetworkChannel
-- and the JSON form of a message (which nothing in the repository uses), the random choices of the
-- publisher, the tkinter simulator simulasi_komunikasi.py, the benchmarks and the demos. The sets of the
-- source whose order no property depends on are lists in order of insertion.

pub mod Common
pub mod Locks
pub mod Raft
pub mod Queue
pub mod Cache
pub mod Pbft
pub mod Detector
pub mod Aggregator
pub mod Bus
pub mod Ingest
pub mod Publisher
pub mod Metrics
