-- ===== src/Protocol.antt =====
-- The wire protocol: src/pyhems/const.py, eoj.py and frame.py.
pub mod Services
pub mod Objects
pub mod Frame
