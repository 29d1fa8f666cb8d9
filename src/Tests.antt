-- ===== src/Tests.antt =====
-- Runs of the definitions on small inputs, and the properties at such inputs.
mod Scenario
mod Codecs
mod Forks
mod Joins
mod Queues
mod Validations
mod Works
mod Choices
mod Continues
mod Jobs
mod Tasks
mod Durations
mod Variables
