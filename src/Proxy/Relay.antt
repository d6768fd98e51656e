-- ===== src/Proxy/Relay.antt =====
-- RelaySession of src/proxy/relay_session.h and relay_session.cpp, as a state machine: `State` has
-- the members and the pending callbacks, `Target` the targets of CONNECT and of forward requests,
-- `Actions` the member functions that no callback is, `Handlers` the callbacks, `Machine` the steps.
pub mod State
pub mod Target
pub mod Actions
pub mod Handlers
pub mod Machine
pub mod Invariant
pub mod Timeout
