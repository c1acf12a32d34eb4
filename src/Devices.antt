-- ===== src/Devices.antt =====
-- The device manager, src/pyhems/device_manager.py: what it keeps of each device object, what it
-- polls, and for whom.
pub mod PropertyMap
pub mod Nodes
pub mod Ranges
pub mod Subscriptions
pub mod Table
