-- ===== src/Core.antt =====
-- sw/core: the bit cursor, the service access points and the message bus.
pub mod BitBuffer
pub mod Sap
pub mod Memory
pub mod MsgBus
pub mod Tests
