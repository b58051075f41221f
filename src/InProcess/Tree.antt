-- ===== src/InProcess/Tree.antt =====
-- The tree of Tree in inprocess/rank_assignment.py.
pub mod Topology
pub mod Leaves
pub mod Activating
pub mod Reassignment
pub mod Call
pub mod LeafLists
pub mod Recording
pub mod Reserving
pub mod Keeping
pub mod Changes
pub mod Ending
pub mod Ended
pub mod Choosing
pub mod Visits
pub mod Activation
pub mod Terminating
pub mod Propagating
pub mod Supply
mod Samples
mod CallSamples
pub mod Replacing
pub mod RankSets
pub mod Unhandled
pub mod Grouping
pub mod Exchanging
pub mod Backfilling
pub mod Backfilled
pub mod Gaps
pub mod Uniform
pub mod Closing
pub mod Deactivating
pub mod Narrowing
pub mod Reranking
pub mod Numbering
pub mod Spreading
pub mod Assigning
pub mod Discarding
pub mod Rearranging
pub mod Calling
pub mod Noting
pub mod Starting
pub mod First
