-- ===== src/Dataset.antt =====
-- packages/react/src/dataset: the workflow in which a dataset is configured, previewed, planned and
-- approved.
pub mod Values
pub mod Schema
pub mod Api
pub mod Machine
pub mod Calls
pub mod Answers
pub mod Steps
pub mod Form
pub mod Log
mod Tests
