-- ===== src/Runs.antt =====
-- services/runs.py and services/scheduler.py: the calls that change a run's status. They publish
-- with no rival writer; `Events` has what rivals change. A run is summarised by its row.
pub mod Services
pub mod Execution
pub mod Engine
pub mod Scheduler
pub mod Steps
pub mod Serial
pub mod Trails
pub mod Chains
pub mod Calls
pub mod Requests
pub mod Finishing
pub mod Admission
pub mod Program
pub mod Claiming
pub mod Pending
pub mod Cancelling
pub mod Resuming
pub mod Recovering
pub mod Stuck
pub mod Executing
pub mod Looping
pub mod Completing
pub mod Completed
pub mod Testing
pub mod Tested
mod Examples
