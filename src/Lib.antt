-- ===== src/Lib.antt =====
-- The verification library of linapple, an emulator of the Apple II, II+, IIe and enhanced IIe.
--
-- The program. `src/apple2` holds the machine: the CPU (CPU.cpp) runs a slice of cycles over the
-- memory and its soft switches (Memory.cpp), which hand the addresses 0xC000 to 0xCFFF to the
-- peripherals (peripherals/), which are built on chips (chips/). The core (src/core) and
-- the frontends (src/frontends) host it. The Mockingboard joins two 6522 and two AY-3-8910 chips, and
-- the disk controller reads the tracks that DiskEncoding.cpp lays out.
--
-- Common: Boolean tests, lists over the native numbers, and bitwise operations by binary digits.
--
-- Via: src/apple2/chips/6522.cpp and 6522.h. The record Via6522 is the source's struct, via_step,
-- via_write, via_read and via_reset its functions. The switch on a register number is a case on the
-- enumeration Reg, after the source's `reg & 0xF`. A pointer argument is a chip passed in and returned.
-- Every round of the timers' loops takes at least one cycle, so that the number of cycles is enough
-- fuel. Via.Ticks and Via.Cycles hold the data sheet's chip, one cycle at
-- a time.
--
-- Ay8910: src/apple2/chips/AY8910.cpp and AY8910.h. The arrays of three are lists, the loop over the
-- cycles to the next tick of the divider is recursion on the number of ticks.
--
-- DiskEncoding: src/apple2/peripherals/disk/DiskEncoding.cpp. Byte strings are lists of
-- numbers; the writers return what they append. The decoder returns no result for a byte that is no disk
-- nibble and for a checksum that does not end in 0, which is the source's `return false`. The
-- reader's buffer is a function from offsets; find_next_marker has as many rounds as the buffer has
-- bytes, and the loop over the markers as many as the source reads at most, 48, of which a track of
-- the writer takes 32. Not modelled: the conversions between nibbles and bits beyond the count of cells.
--
-- Cpu: src/apple2/CPU.cpp and CPU.h. The record Cpu holds CpuRegisters, the fields of CpuLoopContext, the
-- file's counters and interrupt lines, and what lies behind the bus. `mem`, `memwrite`, `memdirty` and
-- `io_map_dispatch` of Memory.cpp are the interface Bus, whose laws are those of an array of bytes.
-- Addressing, Operations, Stack, Arithmetic and Unofficial hold a function for each member function,
-- Opcodes the sixteen rows of each opcode table, Execute the loop, the slices, the interrupt lines and
-- the reset. ADC and SBC are split into the read and what is done with the byte, since RRA and INS
-- repeat those bodies in the source. An index past the end of `mem` is an argument of `peek` like any other.
-- The loop is given as many turns as the limit has cycles: every entry of the tables takes two
-- cycles or more (Execute.Calm), so that with handlers that do not raise the limit the fuel does not
-- run out (Execute.Ends). The locks, the switch of contexts,
-- cpu_initialize, the benchmark program and the snapshot are not modelled.
--
-- Memory: src/apple2/Memory.cpp and the part of MemoryInstance in Memory.h that it needs. A pointer to
-- a page of a buffer is a number, each buffer with pages of its own; mem_initialize allocates every
-- buffer before anything else runs, so that the branches for a missing buffer are left out. Each loop of
-- mem_update_paging is a function on a page table, in the source's order, and its last loop recursion over the
-- 256 pages. Banks says what a IIe has behind each page and what the banks hold, without the tables and
-- the image; Access makes the memory the bus of the processor, with io_map_dispatch as an argument.
-- video_set_mode, video_get_scanner_address and the machine's type are arguments of Switches. Not
-- modelled: the I/O handler tables with io_map_dispatch, the choice and the loading of ROMs,
-- mem_is_addr_code_memory, mem_refresh_cx_page and the snapshot. $C800 to $CFFF of the image
-- belong to the expansion ROMs, and are no bank.
--
-- Pia: src/apple2/chips/6821.cpp and 6821.h. The record Pia6821 is the source's struct, and each of
-- its functions one of the model. A listener is a name, and what the chip calls it with is kept as a
-- list; a listener that calls back into the chip is not modelled.
--
-- Acia: src/apple2/chips/6551.cpp and 6551.h. The record Acia6551 is the source's struct; a function
-- that reads a few fields takes those. A function that hands a byte out returns it in an Option. The
-- tests of the body of advance's loop are functions of their own, run_event their sequence; the loop
-- takes fuel, six rounds for every cycle up to the one that it comes to. A round handles one of the two
-- points of the incoming frame, a boundary of the transmitter that lies in the past, of which there is
-- one at most between two points, or a boundary after the chip's cycle (Measure). That
-- bound holds for cycles below 2^63.
--
-- Video: src/apple2/Video.cpp and Video.h. The file's variables for the switches, the flash and the
-- frame's cycles are the record Video. Modes has the functions that read and write them, Scanner
-- video_get_scanner_address and video_get_vbl. What video_refresh_screen does, the value of the floating
-- bus, the machine's type and timing and 80STORE are arguments. The loop of video_update_vbl takes
-- one cycle or more from the count in every round, where a frame has a cycle or more, so that the
-- count is enough fuel; a frame of no cycles is a loop without end in the source. Not modelled: the
-- drawing, its tables and its thread.
--
-- Disk: src/apple2/peripherals/disk/Disk.cpp. The records Drive, DiskSequencer and DiskPeripheral are the
-- source's structs Disk, DiskSequencer and DiskPeripheral; a reference to the active drive is a drive taken
-- out and put back. The sequencer's PROM, and what the format drivers make of a drive when they take or
-- hand over a track, are arguments. While `cell_remaining` is below 0 the loop of
-- advance_medium_one_step takes the deficit, which is also its fuel: a cell takes a unit or more, so
-- that every round lessens it; a cell of no time is a loop without end in the source. Not modelled:
-- insert and eject, the state of the drivers, the save state, the commands and queries, and what the host
-- is told.
--
-- Arithmetic. A machine integer is a native number with the wrap-around of its width written out.
--
-- Not modelled: the other peripherals and chips, the drawing of the screen, snapshots, the debugger, the core's services
-- and the frontends. Most of them are input and output on files, windows, sound or sockets.
pub mod Common
pub mod Acia
pub mod Ay8910
pub mod Cpu
pub mod Disk
pub mod DiskEncoding
pub mod Memory
pub mod Pia
pub mod Via
pub mod Video
