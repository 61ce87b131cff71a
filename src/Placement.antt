-- ===== src/Placement.antt =====
-- The placement evidence of internal/placement.
pub mod Types
pub mod Eligibility
pub mod Eligible
pub mod Arithmetic
pub mod Profiles
pub mod Samples
pub mod Observe
pub mod Store
pub mod Snapshot
pub mod Kept
pub mod SeriesMaps
pub mod Normalized
pub mod WellFormed
pub mod Batches
pub mod StoreHistory
pub mod Summaries
pub mod Percentiles
pub mod Summarized
pub mod SnapshotValid
pub mod Current
pub mod FreshSeries
pub mod Scoring
pub mod Validate
pub mod ScorePlan
pub mod Estimates
pub mod Scored
pub mod Sums
pub mod Evidence
pub mod Results
pub mod Compare
pub mod Guarantees
pub mod PlanTypes
pub mod Ranges
pub mod Partial
pub mod Planner
pub mod Construct
pub mod Work
pub mod RangedPlans
pub mod Searches
pub mod Constructed
mod Tests
