-- ===== src/Tests.antt =====
-- Runs of the definitions on concrete inputs, and each theorem applied at such an input.
mod Core
mod Pages
mod Mapping
mod RateLimit
mod PageStream
mod Wire
mod Operation
mod Delivery
mod Budget
mod Jobs
mod Raster
mod Observer
mod Color
mod Approvals
mod Submission
mod Authorization
mod Retention
