-- ===== src/Connection.antt =====
-- A connection: the connection_handle_read_state and the connection_state_machine of src/connections.c.
pub mod Header
pub mod Read
pub mod Machine
