-- ===== src/MapReduce.antt =====
-- project-3/src/mapreduce: the scheduling of jobs, and what the jobs do with keys and values.
pub mod Master
pub mod Text
pub mod Split
pub mod Jobs
pub mod Files
pub mod Run
pub mod Worker
pub mod WordCount
pub mod Names
pub mod Registration
mod Tests
