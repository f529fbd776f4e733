-- ===== src/Apps/Tests.antt =====
-- The calls of services/generated_apps_v2.py on concrete tables.
mod AccessTests
mod BuildTests
mod DataTests
mod QueueTests
mod DeployTests
