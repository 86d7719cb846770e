-- ===== src/Command.antt =====
-- packages/engine/src/executors/command-lifecycle-executor.ts, with
-- packages/engine/src/aggregate-persistence-resolver.ts and the aggregate of
-- packages/core/src/ddd/aggregate-root.ts, over the in-memory stores: the data in `Model`, step 1
-- in `Load`, the steps up to the deferred events in `Lifecycle`, and `execute` in `Execute`.
pub mod Model
pub mod Load
pub mod Lifecycle
pub mod Execute
pub mod Enlisted
pub mod Replay
pub mod Snapshots
pub mod Strategy
pub mod Attempt
pub mod Duplicates
pub mod Commit
mod Tests
