-- ===== src/Tests.antt =====
-- The theorems at concrete connections, requests, workers and schedules.
mod Net
mod Blocks
mod Targets
mod Workers
mod Files
mod Client
mod LocalFiles
mod Schedules
mod Rings
