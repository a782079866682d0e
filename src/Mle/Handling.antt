-- ===== src/Mle/Handling.antt =====
-- What the handlers of the MLE do to the sessions, the bus and the state machine.
pub mod Keys
pub mod Requests
pub mod Messages
pub mod Attach
