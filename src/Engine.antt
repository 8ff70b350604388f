-- ===== src/Engine.antt =====
-- The agent graph of src/synode/application/graph/engine.py: the order of the workers and the routes.
mod Sorted
mod Order
mod Waits
mod Ordered
mod Costs
mod Complete
mod Workers
mod Routes
mod Closer
mod Reaches
mod Planning
mod Supervisor
mod Filtered
mod Sanitized
mod Examples
mod PlanExamples
