-- ===== src/Poller.antt =====
-- `PropertyPoller` of src/pyhems/poller.py: its cycles, and the schedule that starts them.
pub mod Cycle
pub mod Schedule
