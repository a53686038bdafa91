-- ===== src/Bookings.antt =====
-- apps/api/src/modules/bookings
pub mod StateMachine
pub mod Create
pub mod Assign
pub mod Transition
pub mod Reading
pub mod Safety
pub mod Controller
