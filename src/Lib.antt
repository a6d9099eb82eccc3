-- ===== src/Lib.antt =====
-- ll-34: a PDP-11/34A at the level of its microcode and PROMs (pdp11/).
--
-- The machine (pdp11/machine.c) is a processor with its memory management and interrupt
-- controller, a Unibus, and devices that register on it. The processor makes bus cycles
-- (`bus_read`, `bus_write`); the bus looks up the device that claims the address; devices ask
-- for interrupts with `int_request` and withdraw them with `int_cancel`; the BUS INIT line
-- reaches every registered receiver.
--
--  Prelude      numbers, Boolean tests, lists, masks of bits, shared by all
--  Kd11ea.Int   pdp11/kd11ea/int.c, with the PROM E29 (roms/rom_images.h, rom_wiring.h):
--               the queue is the list of its first `count` entries
--  Kd11ea.Mmu   pdp11/kd11ea/mmu.c, with the PROMs E74 to E77 and E83 of the M8265
--  Kd11ea.Decode  roms/rom_images.h and rom_wiring.h (E51, E52, E53, E62, E71, E107), with the
--               places of pdp11/kd11ea/kd11ea.c that read them, and its B register
--  Kd11ea.Ucode  the control store (roms/rom_images.h, ucode_rom.h) and the fields of a micro-word
--  Kd11ea.Alu   the 74S181 slices of pdp11/kd11ea/kd11ea.h
--  Kd11ea.Clock  pdp11/kd11ea/clockgen.c
--  Kd11ea.Micro  `kd11ea_ustep` and `kd11ea_step` of pdp11/kd11ea/kd11ea.c, in the order of the code:
--               Wires (what the micro-word selects, and the ALU), Transfer (the bus cycle), Misc (the
--               loads), Next (the next address and services), Shift (B and BX), and Step, which
--               composes them; Wiring, Roms and Gates hold rom_wiring.h, rom_images.h and bus_wiring.h
--  Unibus       pdp11/unibus/unibus.c: devices are functions on a state of their own choice
--  Unibus.Ram   pdp11/unibus/ram.c
--  Unibus.Loader  pdp11/unibus/loader.c, absolute binary tapes
--  Devices.Kw11 pdp11/kw11/kw11.c
--  Devices.Dl11 pdp11/dl11/dl11.c; the host terminal is a parameter
--  Devices.Pc11 pdp11/pc11/pc11.c; a tape is a list of characters
--  Devices.Rk11 pdp11/rk11/rk11.c; a disk is the list of the bytes of its file, and what answers
--               the controller's bus cycles is a parameter
--  Devices.Rl11 pdp11/rl11/rl11.c, with the files and the bus cycles of the RK11's model
--
-- Numbers are naturals. A register of sixteen bits keeps its masks written out; a complement
-- mask `~M` is the sixteen-bit constant. Times in nanoseconds stay below 2^64, which an
-- emulation does not reach, and do not wrap. Traces and diagnostics are left out.
--
-- The processor is a part of the state that the devices share, since its PSW and its memory
-- management are registers on the bus and devices call its interrupt controller: `Host` reads it
-- from that state and writes it back around each bus cycle.
--
-- An instruction is a loop of at most 1000 micro-cycles, as in the source, so that its fuel is the
-- source's own bound.
--
-- `refresh_loop` runs on fuel, one round for each nanosecond that the cycle could wait before
-- the next refresh; every round moves the next refresh further away than the start of the
-- cycle, so that the fuel is enough where a refresh is shorter than the refresh interval.
--
-- The loop over the blocks of a tape runs on fuel, one round for each block: a block has at least
-- six bytes, so that more fuel than the file has bytes is enough.
--
-- The loops of the disks run on the number of words left as fuel: every round that goes on moves
-- at least one. Only the loop of the write check of the RK11 need not end, and gives `none` when
-- its fuel does not last.
--
-- Not modelled: the ring of the debugger, the console, the machine as a whole, the boot ROM, the
-- text formats of the loader, and the disassembler. The
-- front ends, the logic probe, and what prints for diagnostics are left out.
pub mod Prelude
pub mod Kd11ea
pub mod Unibus
pub mod Devices
