-- ===== src/Tests.antt =====
-- The development on concrete inputs: runs of the definitions, and uses of the theorems.
mod Codes
mod Headers
mod Storage
mod Managers
mod Failures
mod Sectors
mod Assets
mod Cards
mod Engines
mod Images
mod Files
mod Boot
mod Programs
