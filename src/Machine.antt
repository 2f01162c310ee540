-- ===== src/Machine.antt =====
-- The backend's state and its events. See the children.
pub mod Types
pub mod Monad
pub mod Counter
pub mod Balance
pub mod Frame
pub mod Decrement
pub mod Attach
pub mod Consume
pub mod Stock
pub mod Stocked
