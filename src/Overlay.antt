-- ===== src/Overlay.antt =====
-- src/overlay/: slots, instruction synchronisation, and the manager that pages modules into slots.
pub mod Slot
pub mod Sync
pub mod Thumb
pub mod Manager
pub mod Load
pub mod Select
pub mod Rules
pub mod Distinct
pub mod Invariant
pub mod Frame
pub mod Resident
pub mod Torn
pub mod Execute
pub mod Buffer
