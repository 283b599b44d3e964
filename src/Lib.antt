-- ===== src/Lib.antt =====
-- NedoOS, a hobby operating system for i386: a model of the parts of its kernel that keep state, with
-- their properties.
--
-- The program. `kernel/kernel.c` is the kernel that is built: a loop reads the keyboard, edits a
-- command line, polls the network card and runs commands, on a text screen that four virtual
-- terminals share. Its file commands follow the FAT12 table of a disk. `kernel/net/network.c` answers
-- ARP and ICMP echo. `kernel/mm/pmm.c` hands out page frames, which `kernel/mm/vmm.c` uses for the
-- tables of the address space. `kernel/task` has two schedulers, `kernel/arch/i386` the tables of the
-- processor, the interrupts and the terminal on which the `printf` of `libc` writes, and `libc` the
-- string functions too.
--
-- Which file models what:
--   Prelude           what all the parts use: tests, lists, bit operations, arrays, counted loops,
--                     casts, and faults
--   Memory/Pmm        kernel/mm/pmm.c: `pmm_init`, `pmm_alloc_page`, `pmm_free_page`
--   Memory/Vmm        kernel/mm/vmm.c: `vmm_init`, `vmm_map_page`, `vmm_enable`, over Memory/Pmm
--   Libc              libc/string: `memset`, `memcpy`, `memmove`, `memcmp`
--   Stdio             libc/stdio: `printf`, `putchar`, `puts`, over Arch/Tty; `strlen`
--   Arch/Gdt, Idt     kernel/arch/i386/gdt.c and idt.c: `gdt_install`, `idt_install`, `idt_set_gate`
--   Arch/Isr          kernel/arch/i386/isr.c: `isr_handler`, `irq_handler`, and the registration
--   Arch/Pic          kernel/arch/i386/pic.c: `pic_remap`, `pic_disable`, and the masks; Arch/Pic/Chip
--                     is what the data sheet says of the two chips
--   Arch/Tty          kernel/arch/i386/tty.c and vga.h: the terminal of the boot messages
--   Drivers/Ata       kernel/kernel.c: `ata_read` and `ata_write` over the ports, as an instance of
--                     Drivers/Disk
--   Drivers/Floppy    kernel/drivers/ata.c: `fdc_read_sector` and what it calls
--   Drivers/Pit       kernel/drivers/timer.c: `timer_install`; kernel/kernel.c: `init_timer`, `beep`
--   Drivers/Mouse     kernel/kernel.c: `mouse_handler`, and what `mouse_init` sets
--   Drivers/Disk      the disk as an interface, `ata_read` and `ata_write` with what the file system
--                     relies on; Drivers/Ramdisk is one in memory
--   Fat/Table         kernel/kernel.c: `fat_get_next_cluster`, `fat_set_next_cluster`,
--                     `fat_alloc_cluster`; Fat/Volume has the variables that `mount` sets
--   Fat/Files         kernel/kernel.c: `mount`, `ls`, `cat`, `cd`, `path_join`
--   Fat/Editor        kernel/kernel.c: `edit`, over the two above
--   Fat/Older         kernel/fs/fat.c: `fat_read`, `fat_ls`, `mount_fat`, `fat_format_filename`
--   Task/Scheduler    kernel/task/scheduler.c: `scheduler_create_task`, `scheduler_switch`
--   Task/Switch       kernel/task/switch.S: what `task_switch` pushes and pops
--   Task/Yield        kernel/task/task.c: `task_create`, `task_yield`, `task_exit`
--   Task/Search       the two loops over a table that these share
--   Console           kernel/kernel.c: `putchar`, `newline`, `print`, `print_dec`, `print_hex`
--   Console/Terminals kernel/kernel.c: `vt_init`, `vt_save_current`, `vt_restore`, `vt_switch`
--   Shell/Keyboard    kernel/kernel.c: `getchar` from the scan code on
--   Shell/History     kernel/kernel.c: `history_add`, `history_get_prev`, `history_get_next`
--   Shell/Env         kernel/kernel.c: `env_set`, `export`
--   Shell/Line        kernel/kernel.c: the loop of `kernel_main`, and how commands are recognised
--   Net/Bytes         kernel/net/network.c: `ntohs`, `ntohl`, `checksum`
--   Net/Stack         kernel/net/network.c: the handlers of ARP, IPv4 and ICMP, and what they send
--   Net/Banner        kernel/net/network.c: what `network_init` prints; `e1000_init` of
--                     kernel/drivers/e1000.c
--   Net/Address       kernel/net/network.c: `ping` and the address it reads
--   Boot              kernel/kernel.c: `kernel_main` up to its loop, over the parts above
--
-- How it is modelled. The variables of a part are a record, and each function of the code is a
-- function from the record to the record. Numbers are natural numbers, cut to the width of their
-- type where the code can leave it (`u8`, `u16`, `u32`); the identifiers of tasks are counted without
-- a bound, which takes 2 ^ 31 creations to matter. An index -1 is `none`. An access outside an
-- array is a fault: such functions return an `Option`, and `none` is the fault. Strings are their
-- characters without the final zero, and arrays are functions of the index.
--
-- Loops are counted as the code counts them. Six loops that the code does not count have fuel: the
-- digits of `print_dec` and of `fat_ls` have the 12 places of their buffers, which are enough for
-- 32 bits; folding the carries of a checksum takes at most three rounds; the string in the command
-- buffer ends at the zero that is written at the cursor, at most 256 characters on; each round of
-- `printf` consumes a character of its format; and the loop of `fat_read` ends with the chain of
-- the clusters, so that one round more than the chain has clusters is enough.
--
-- What is not in the repository is a parameter: the instructions that reach the ports (the record
-- `Ports`), with what the data sheets say of the controllers behind them (`IsWired`, `IsPit`,
-- `IsApart`, `IsLogged` and the protocol of the drive in Drivers/Ata); the entry points of the
-- assembler stubs; and what a handler of an interrupt does.
--
-- Not modelled: the reboot, and the early keyboard driver; sending and receiving of the network
-- card, which is a stub; the commands that print fixed texts; the older copies of the kernel, of
-- the tasks, of the terminals and of the network stack. Text that is printed by other parts than
-- the screen, the file commands and the command line is left out of their state.
pub mod Prelude
pub mod Libc
pub mod Memory
pub mod Drivers
pub mod Fat
pub mod Task
pub mod Console
pub mod Shell
pub mod Net
pub mod Arch
pub mod Stdio
pub mod Boot
