-- ===== src/Acia.antt =====
-- The 6551 ACIA of apple2/chips/6551.cpp and 6551.h, the serial chip of the Super Serial Card.
--
-- State has the chip's state and the values that its registers and its clock give, Events what
-- happens at a cycle and the loop that runs it, Ports the functions that the card calls. A function
-- takes the fields that it reads. The pointer to the chip is never null. Times are `uint64_t`.
pub mod State
pub mod Events
pub mod Ports
mod Latches
mod Measure
mod Settled
mod InOrder
mod Rounds
mod Mark
mod Moved
mod Compose
mod Traffic
mod Delivery
mod Reception
mod Departure
mod Outgoing
mod Types
mod Ranges
mod Operations
mod Exchange
mod Tests
