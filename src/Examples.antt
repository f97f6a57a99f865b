-- ===== src/Examples.antt =====
-- The theorems on concrete plans, runners, requests, runs and reviews.
mod Routing
mod Day
mod States
mod Reviews
mod Runs
mod Evidence
mod Telemetry
mod Scope
mod Git
mod Actions
