-- ===== src/Disk.antt =====
-- The disk controller card of apple2/peripherals/disk/Disk.cpp: the drives, the stepper, and the
-- sequencer over the medium.
--
-- Drive has the state, Stepper the head, Sequencer the logic state machine and the medium under the
-- head, Switches what the processor's accesses do, Tracks the track buffer and the reset. Pulls and
-- Head are about seeks, Rotation, Spin, Untouched and Loading about the time that the medium takes. The drives'
-- format drivers and the sequencer's PROM are arguments; what the host is told is left out.
pub mod Drive
pub mod Stepper
pub mod Sequencer
pub mod Switches
mod Pulls
mod Head
mod Rotation
mod Spin
pub mod Tracks
mod Untouched
mod Loading
mod Tests
