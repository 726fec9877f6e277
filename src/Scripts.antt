-- ===== src/Scripts.antt =====
-- scripts/: migrate.py is Scripts/Migrate, seed_demo.py is Scripts/Seeds (its data) and Scripts/SeedDemo,
-- seed_posthog.py is Scripts/PosthogEvents (its data) and Scripts/SeedPosthog, and dev_run_extraction.py is
-- Scripts/DevRunExtraction.
pub mod Migrate
pub mod Seeds
pub mod SeedDemo
pub mod PosthogEvents
pub mod SeedPosthog
pub mod DevRunExtraction
