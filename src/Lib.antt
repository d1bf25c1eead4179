-- ===== src/Lib.antt =====
-- A model of loofOS for x86: the kernel's heap, page tables, process queue, interrupt table, timer
-- and interrupt controllers, the byte routines that it shares with the boot loader, and the boot
-- loader's formatted output, text screen, BIOS calls, exFAT reader and second
-- stage.
--
-- The program. A boot loader (boot/x86) puts the kernel into memory and jumps to `kernel_main`
-- (kernel/kernel.c), which fills the descriptor tables, the heap, the timer and the page tables,
-- creates two processes and enters the first. From then on the timer's interrupt
-- (arch/x86/drivers/timer.c) calls `switch_process` (kernel/proc/process.c), which saves the
-- interrupted process and enters the next one in a ring of descriptors. Descriptors, stacks, page
-- directories and page tables are blocks of one buddy heap (arch/x86/mm/alloc.c); the pages that
-- processes use come from a stack of free pages (arch/x86/mm/paging.c).
--
-- The files.
--   Machine    32-bit addresses and bytes; commands over a state, which return (`ok`), meet behaviour
--              that C leaves undefined (`undefined`) or use up a loop's fuel (`out_of_fuel`); words in
--              memory, lowest byte first.
--   Registers  arch/x86/core/registers.h and the interrupt frame of arch/x86/core/isr.h.
--   State      the kernel's state: memory by the kernel's virtual addresses, the static variables of
--              the C files, the outputs to ports, and the registers cr3 and TSS.esp0.
--   Alloc      all of arch/x86/mm/alloc.c and alloc.h, on memory alone. A block's header byte is seven
--              bits of size and a bit `used`. Alloc/Contract has the heap as a list of blocks and what
--              a first-fit buddy heap promises of it, Alloc/Kernel the sequences of calls.
--   Idt        arch/x86/core/idt.c: `init_idt`, `set_id`.
--   PageEntries  the bit-fields of arch/x86/mm/paging.h and the words that hold them.
--   Paging     arch/x86/mm/paging.c: `init_paging`, `allocate_page`, `free_page`. Paging/Walk is the
--              processor's translation, written from the processor's side, and the list of free pages.
--   Process    kernel/proc/process.c: `create_process`, `switch_process`, `update_process`,
--              `force_enter_userland`, `init_processes`. Process/Ring has the queue as a list, and what
--              the links must be for it; State/Descriptors has a descriptor's bytes.
--   Strings    common/string.c: `memset`, `memcpy`, `memcmp`.
--   Devices    arch/x86/drivers/timer.c, and `init_pic` of arch/x86/core/isr.c. Devices/Chips has the
--              interrupt controllers and the timer chip as machines that read the outputs.
--   Gdt        arch/x86/core/gdt.c: the segments and the task state segment.
--   Exceptions  `init_exceptions` of arch/x86/core/isr.c.
--   Boot       boot/x86. Boot/Print is print.c, over any output function; Boot/Print/Parts has what a
--              format is to output. Boot/Vga is vesa/vga.c, and Boot/Vga/Page the page of text that it
--              implements. Boot/Bios is bios.c. Boot/Exfat is fs/exfat.c: the volume and the set-up,
--              and Boot/Exfat/File the search, the load and the path. Boot/Directory is the page directory of
--              stage2.c, and Boot/Stage2 its sequence, from the screen to the kernel.
--   Base       names, tests on numbers, words and bits that the others share.
-- An Examples module beside a component runs it on small states and applies its theorems there.
--
-- The state. A pointer is its 32-bit address, and arithmetic on it wraps as `uint32_t` does.
-- Memory is one map from addresses to bytes, as the kernel sees it: physical memory below 1 GiB is
-- at KERNEL_BASE and up, and the pages below KERNEL_BASE are those that the kernel's directory
-- maps there. Process descriptors are records of their own, by address, beside the bytes; where
-- the bytes of one are read or written as something else, in the two calls of `kernel_free` for an
-- ended process, the ring's descriptors are put among the bytes (State/Descriptors) and taken back
-- from them. `idtr` and `gdtr` are not kept. `switch_context` does not return: a switch is the
-- value that it loads.
--
-- Bounds and fuel. The loops of the allocator have fuel: 128 halvings, since a header's size has
-- seven bits; 30 rounds of rounding and 33 of the initial blocks, since a word has 32 bits; 34 of
-- merging, each of which makes the block's size larger; and for the search the heap's length,
-- since every block has a byte. The loop that skips halted processes has as many rounds as its
-- caller gives: more rounds than there are halted processes before the next one are enough, and
-- where all processes are halted none are. The walk round the ring that finds the descriptors'
-- bytes has them too: as many rounds as the ring has processes are enough. `for` loops count down
-- what is left. The loop along the file allocation table has as many rounds as its caller gives:
-- as many as the chain has clusters are enough. `print` reverses a number in at most 10 rounds,
-- since an `int` has ten digits, and `%s` has a round for every address.
--
-- Parameters. The linker's addresses (the page directory, the handlers) are arguments. The processor's
-- address translation for the bytes that `create_process` writes is the argument `translate`. The
-- function that `set_outb` stores is the argument `outb`, and what a pointer of `%s` leads to is
-- `load_char`. The BIOS is in no file of the repository: the extended read is a function from the
-- packet and the buffer to the buffer, with the hypothesis that it holds the packet's sector
-- afterwards; the memory map's call is a command that gives `ebx`, with the hypotheses that it writes
-- a range and gives the value that asks for the next one, and 0 after the last. Stage 2 has the file
-- system, the memory scan and the search for a graphics mode as arguments.
--
-- Not modelled, for their size: the exception handlers, which only call `kernel_panic`, a loop that
-- does nothing; `kernel_main`; the boot loader's search for a graphics mode
-- (boot/x86/vesa/vbe.c); the ARM port (arch/arm). Not modelled: assembly, linker scripts, build
-- files.
pub mod Base
pub mod Machine
pub mod Registers
pub mod State
pub mod Alloc
pub mod Idt
pub mod PageEntries
pub mod Paging
pub mod Process
pub mod Strings
pub mod Gdt
pub mod Devices
pub mod Exceptions
pub mod Boot
