-- ===== src/Video.antt =====
-- The display switches, the frame counter and the scanner of apple2/Video.cpp.
--
-- Modes has the switches and what they are read as, Scanner the address that the video hardware
-- fetches at a cycle. What a refresh of the screen does is an argument, as are the machine's type and
-- timing, the value of the floating bus, and 80STORE of Memory.cpp.
pub mod Modes
pub mod Scanner
mod Frames
mod Switches
mod Address
mod Tests
