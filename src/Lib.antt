-- ===== src/Lib.antt =====
-- nvidia-resiliency-ext: fault tolerance for distributed training. A launcher on every node agrees
-- with the others on a round of training (the rendezvous). A rank monitor beside every rank
-- watches its heartbeats and sections and ends it when a timeout is over. The timeouts are
-- calculated from what the ranks observe. The in-process wrapper restarts the ranks of a job
-- without a new process and numbers them anew. Local checkpoints are kept by every rank for itself
-- and, if they are replicated, for others; a checkpoint can be written by a worker while training
-- goes on. The detection of slow ranks gives ids to the names of what it measures.
--
-- The parts and their files, with the code they model below src/nvidia_resiliency_ext/:
--
-- Prelude: Python's dict, set and sorted as lists (Prelude/Dict, Prelude/Keys, Prelude/Sorting),
-- the equality they use as an interface (Prelude/Eq), methods that raise and keep what they wrote
-- (Prelude/Method), integers over the native numbers (Prelude/Integers).
--
-- Data: the messages and timeouts of fault_tolerance/data.py.
--
-- Rendezvous: fault_tolerance/_ft_rendezvous.py. Base has the shared state (_RendezvousState) and
-- the settings, Ranks has _assign_ranks, Actions the actions of _DistributedRendezvousOpExecutor,
-- Handlers the operations that choose an action (_RendezvousJoinOp, _RendezvousExitOp,
-- _RendezvousCloseOp, _RendezvousKeepAliveOp, _SetWorkersStateOp), Holder has sync and _sanitize
-- of _BackendRendezvousStateHolder, Run the loop of the executor, and Handler the methods of
-- FtRendezvousHandler that run operations. A node's operation synchronizes its copy of the shared
-- state with the backend, chooses an action, changes the copy, and writes it back if no other node
-- wrote before. Invariant and the modules below it state what a well-formed state is, Safety
-- follows it through rounds and through any interleaving of nodes, Finishing, Joining and Leaving
-- are about the methods of the handler, Exiting and DeadNodes about single operations, and Workers
-- about the final states of workers.
--
-- RankMonitor: fault_tolerance/rank_monitor_state_machine.py (Machine, Diagram) and
-- rank_monitor_server.py. Server has the handlers of the messages, Serving the timeouts that are
-- checked and the events that reach the server. Clocks, Sections, Lateness, Restarts and Opening
-- hold the proofs. Client has what rank_monitor_client.py sends to the server while the workload
-- runs, until a handler raises and the connection ends; Sending, Following and InStep show that
-- the two agree on the open sections.
--
-- Timeouts: fault_tolerance/timeouts_calc.py. Calc has what updates a calculator, Results what it
-- returns. Heartbeats joins it to the rank monitor, which uses the timeouts; Sections, Selecting
-- and Syncing are about the sections and the ranks of a group.
--
-- InProcess: inprocess/state.py and inprocess/rank_assignment.py. RankAssignment has the filters
-- and assignments that need no store; Shifting, Filling, Overflow and Filters look at all ranks of
-- a world together. The modules below Tree are about the class Tree. Topology has its nodes, the
-- first activation of the leaves (bounded_activate) and the propagation of terminations; Leaves
-- the methods of Node on one leaf; Reassignment the replacement of terminated ranks from the
-- reserve, by backfill and by a shift (replace_with_inactive, replace_with_backfill, shift_ranks);
-- Call the filter, the new ranks and Tree.__call__ as a whole. Activating, Visits, Activation,
-- Noting, Starting and First are about the first activation, Terminating, Propagating, Supply and
-- Spreading about the propagation. LeafLists, Recording, Reserving, Keeping and Changes are about
-- one leaf that changes, Uniform about all leaves; Ending, Ended, Choosing and Discarding about
-- terminations, RankSets, Replacing and Unhandled about the reserve, Grouping, Exchanging,
-- Backfilling and Backfilled about backfill, Gaps and Closing about the shift, Deactivating and
-- Narrowing about the filter, Reranking and Numbering about the new ranks, Assigning, Rearranging
-- and Calling about a whole call.
--
-- Replication: checkpointing/local/replication. Groups has the groups of group_utils.py that
-- replicate a checkpoint among their members, Columns and Partition the proofs about them.
-- Transfer has the sending and receiving of one state dict, Exchange the execution of an exchange
-- plan over the messages between the ranks, and Batch the gathering of tensors from a group (all
-- group_utils.py), Strategies the plan that retrieves missing checkpoints and the replication by a
-- clique (strategies.py). Planning, Outcomes, Delivery and Retrieval are about plans, what they
-- deliver, and both together, Replicating about the replication.
--
-- Checkpoint: checkpointing/local. StateDict has the nested state dicts of basic_state_dict.py and
-- the walks over them, Tensors that tensors taken out can be put back. Directory has the files of
-- LocalCheckpointManager (ckpt_managers/local_manager.py), Manager and Operations the methods of
-- BaseCheckpointManager (ckpt_managers/base_manager.py). Coverage, Gathering and Latest are about
-- find_latest, Files, Saving and Finalizing about a save, and Restoring about a save, a search and
-- a load one after the other, over all ranks.
--
-- Async: checkpointing/async_ckpt/core.py. Request has AsyncRequest, Callers the two callers,
-- Queue the AsyncCallsQueue with its finalization, Worker the trainer and the worker process of
-- PersistentAsyncCaller as a step relation. Ordering and Blocking are about the queue, Orderly,
-- Protocol and Joining about the steps.
--
-- Straggler: straggler/name_mapper.py. NameMapper has the ids of the names of kernels and
-- sections, Naming and Gathering the proofs.
--
-- Choices of the model. A moment and a duration are natural numbers of clock ticks; where the code
-- compares a difference with a timeout, the model compares sums, so that nothing is cut off at
-- zero, and where a difference can be negative it is an integer. What a loop reads from outside is
-- its input: the rounds of a rendezvous operation are a list of inputs, and the events of a rank
-- monitor a list of events, so that no loop needs fuel. A method that raises returns its exception
-- beside the state that it left. The queues between trainer and worker are lists of messages with
-- the counters of unfinished tasks, and every interleaving of the two processes is a sequence of
-- steps. The name of a checkpoint file is kept as its parts (iteration, rank, dirty or not). A
-- clean-up that a save hands to an executor is kept among the submitted ones, and its thread is a
-- step of its own (run_task). A blocking wait for the worker's answer may not end: that is the
-- result never_returns. The functions of a worker's requests return.
--
-- Parameters. The rendezvous backend is a parameter; that it fences (a write succeeds only on the
-- token that was read) is the hypothesis IsFencing. The reduction of a tensor over a group of
-- ranks is a parameter that keeps the length. Further parameters: the bytes that torch.save writes
-- and torch.load reads, with the hypothesis that the one is read back as what was written; the
-- gathering of objects and tensors over a group; the random choice of a sender among those that
-- have a checkpoint, which is one of them; the copies of a tensor between devices and its
-- broadcast in a group, with the hypothesis that it brings the same contents to every rank;
-- whether all ranks of a group say yes, with the hypothesis that they do not where this rank says
-- no; and what the polls of an asynchronous call and the reductions over the ranks answer.
--
-- Not modelled. Logging, sockets, pickling, process control and health checks are input and
-- output. The launcher is glue around the rendezvous, and what _torch_elastic_compat copies from
-- PyTorch is not modelled, but for the states of the workers. The straggler detection works on
-- floats, but for its name mapper. filesystem_async.py writes through torch.distributed.checkpoint
-- and worker processes. The tree of ranks is given: how Tree builds it over the store is not
-- modelled, nor is FilterCountGroupedByKey. Of the rank monitor's client, the connection, the
-- exchange of timeouts and the saved state are not modelled, nor are the store, threads and
-- processes of the in-process wrapper.
pub mod Data
pub mod Prelude
pub mod Rendezvous
pub mod RankMonitor
pub mod Timeouts
pub mod InProcess
pub mod Replication
pub mod Checkpoint
pub mod Async
pub mod Straggler
