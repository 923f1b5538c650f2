-- ===== src/Lib.antt =====
-- Verification of the Algae kernel: memory management, object manager, scheduling, boot archive, program
-- loader, and the start of processors and timers.
--
-- The program is a kernel for amd64 with a host tool. At boot, ntos/mm/phys.c builds a bitmap of the
-- page frames from the boot loader's memory map; page tables, pools and process stacks take their
-- frames from it. The object manager keeps a tree of named objects, through which timers and mappers
-- are found. Each processor has a queue of processes, and the timer interrupt switches between them.
-- Programs come in a boot pack, an archive that tools/omar writes and ntos/ke/bootPack.c reads.
--
-- Parts and files:
--   Base        helpers: tests, lists, masks and shifts, fixed-width numbers (u8 to u64, ALIGN_UP,
--               MIN and MAX of sdk/include/ke/defs.h)
--   Status      the codes of sdk/include/ntstatus.h
--   Bitmap      setBit, clrBit and testBit of sdk/include/ke/defs.h on a list of bytes
--   Rtl         ntos/rtl/string.c (Memory, Str, Printf) and ntos/rtl/itoa.c (Itoa); Printf.Laid and
--               Printf.Render follow the format in rounds, Printf.Rendered is what the buffer holds,
--               Printf.Pieces the formats made of bytes and conversions, Itoa.Numerals the digits
--   Mm.Phys     ntos/mm/phys.c: mmInitBitmap and its parts, mmAllocFrame, mmFreeFrame; Scan and Mark
--               hold the lemmas on the loops, Alloc and Safety what allocation and freeing do, Init
--               the set-up
--   Mm.Mmu      ntos/platform/amd64/cpu/mmu.c, on the words of physical memory (Mm.Words64); Walk is
--               the processor's own walk over the tables, Descend what the descent leaves, Mapped what
--               mapping and unmapping do to that walk, Rights what the tables of all levels leave of an
--               entry's rights, Space the address space that is made
--   Ob          ntos/ob/obStore.c (Ob, Lookup, Entries, Create) and ntos/ob/obTable.c (Table)
--   Omar        the archive format; Archiver is file_push of tools/omar/omar.c, BootPack is
--               ntos/ke/bootPack.c, RoundTrip relates the two; Tree is archive_create, Extract
--               archive_extract
--   Ke.Irql     ntos/ke/irql.c and ntos/platform/amd64/cpu/irql.c
--   Ke.Parb     ntos/ke/parb.c, ntos/ke/kpcr.c and halCpuGet and halCpuCount of
--               ntos/platform/amd64/cpu/mp.c
--   Ke.Sched    ntos/ke/sched.c and halSchedSwitch of ntos/platform/amd64/ke/process.c
--   Ke.Loader   ntos/ke/loader.c, on the bytes of a file in the boot pack; Header says which files are
--               programs
--   Ke.Module   ntos/ke/module.c, and keGetBootModule of ntos/ke/bootParam.c
--   Ke.Process  ntos/ex/process.c, ntos/ke/process.c, and halInitPcb and halProcSetIp of
--               ntos/platform/amd64/ke/process.c; Create and Executive say what they leave
--   Mm.Page     ntos/mm/page.c
--   Ex.Box      ntos/ex/box.c; Allocate and Release are what its operations leave
--   Ex.Mapper   ntos/ex/mapper.c
--   Ex.Timer    ntos/ke/timer.c
--   Acpi        ntos/acpi/acpi.c on the tables in memory; Madt is the walk over the entries
--   Cpu.Lapic   ntos/platform/amd64/cpu/lapic.c: its writes to the unit's registers; Icr is the
--               interrupt command as the unit reads it
--   Cpu.Mp      the start of the other processors in ntos/platform/amd64/cpu/mp.c; Start is the sequence
--               of interrupts and waits
--   Cpu.Idt     ntos/platform/amd64/cpu/idt.c, and the gates as the processor reads them
--   Cpu.Tss     ntos/platform/amd64/cpu/tss.c; Stacks are the stacks as the processor reads them
--   Cpu.Lapic.Setup  kiLapicInit, kiLapicInitTimer and lapicSetBase of lapic.c
--   Cpu.Init    halRegisterIntr and halInitSyscall of ntos/platform/amd64/cpu/cpuInit.c; Timer is the
--               timer interrupt's gate and stack
--   Cpu.Trap    trap_syscall of ntos/platform/amd64/cpu/trap.c, over ntos/ke/syscall.c
--   Cpu.Symbols stackAddrToName of ntos/platform/amd64/ke/bugcheck.c
--   Cpu.Timers  ntos/platform/amd64/io/timer.c
--   Drv.BootVid ntos/drv/bootvid/vidCore.c; Pixels is the picture that is drawn, Framebuffer the
--               mapper
--   Drv.Pit     ntos/platform/amd64/isa/i8254.c; Frequency is the divisor
--   Drv.Hpet    ntos/platform/amd64/io/hpet.c; Waits is the length of a wait
--   Drv.Uart    ntos/platform/amd64/io/uart.c and ntos/ke/trace.c
--   Drv.Clkdev  the registration that the two timers' drivers share
--   Tests       runs at concrete inputs
--
-- State and operations keep the names of the source, in snake case. The static variables of a file are
-- a record; an operation takes it and returns it changed. A status is a number. `none` stands for a
-- fault: an access outside an object, a null or dangling pointer, or a bug check, as each file says.
-- Memory is a function from addresses to bytes, objects are a function from addresses to records, and
-- a tail queue is the list of its elements' addresses with the count that its head keeps.
--
-- Loops over arrays are structural recursion on the rounds that are left. On fuel are: the freeing loop
-- of mmFreeFrame (fuel is the number of frames, one round each), the lookup loops of the object manager
-- and the boot pack and the loop of archive_extract (fuel above the number of components or items), the
-- walk over the MADT (fuel above the number of its entries), the loop of rtlBufPrintfV (fuel above
-- the number of the format's pieces), and the digit loops (20 rounds for 64 bits in base 10). Where a
-- theorem has fuel, it asks for enough and the operation returns.
--
-- Parameters of the model: what exAllocatePool returns (the vendored TLSF allocator) and what its memory
-- holds, the memory map of the boot loader, what the host's open, fstat and read answer, what reads of
-- the interrupt command register and of the timers' counters find, the bytes of the font and of the
-- processors' trampoline, the timer that stands at an address, whether a freed descriptor keeps its link,
-- and what stands in local variables that the source reads before
-- it sets them.
--
-- Not modelled: halCpuInit as a whole and kMain (sequences of calls), the texts of the boot and bug check
-- screens, locks (each is held across the whole operation, so an operation is one step), and the vendored
-- allocator.
pub mod Base
pub mod Status
pub mod Bitmap
pub mod Rtl
pub mod Mm
pub mod Ob
pub mod Omar
pub mod Ke
pub mod Ex
pub mod Acpi
pub mod Cpu
pub mod Drv
pub mod Tests
