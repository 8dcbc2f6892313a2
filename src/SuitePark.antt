-- ===== src/SuitePark.antt =====
-- src/suite-park.ts: abandoned `node --test` runs, found in the process table, judged by two samples
-- and killed. The table is a list of rows, times are native numbers, and what the operating system
-- answers (`ps`, `kill`, the check for life) is an argument.
pub mod Command
mod Tree
mod Assess
mod Reap
mod Sampler
mod Cli
mod Examples
mod Ps
pub use Command.{is_test_root}
pub use Tree.{
  ProcRow, Suite, by_pid, children_of, ancestors_of, descend, descendants_of, collect_suites,
}
