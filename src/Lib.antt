-- ===== src/Lib.antt =====
-- The Bric_OS kernel, a small 64-bit operating system: its memory, its heap, its threads, and the
-- drivers of its interrupt controllers, keyboard, screen and serial port.
--
-- How the parts work together. Drivers install handlers in the interrupt table (Irq), which calls
-- them and acknowledges the interrupt at the controllers (Pic). The screen (Vga) and the serial port
-- (Serial) disable interrupts round their work through Irq; the serial port keeps bytes in a ring
-- until the transmitter's interrupt takes them. The heap (Kmalloc) grows by kbrk of the memory
-- manager (Mmu), which puts pages on demand; the first access to one is a page fault, whose handler
-- takes a frame and maps it. The frames come from the memory map of the boot loader (Multiboot). The
-- processor finds handlers and stacks through the descriptor tables (Descriptors). Threads (Proc)
-- run under a scheduler, which by default is round robin (Sched).
--
--   Base      numbers, lists, words, outcomes; Base.Ports: the ports of Bric_OS/lib/common.c,
--             with the device as a function of all accesses before
--   Common    Bric_OS/lib/common.c: the flags register and the atomic operations
--   Sched     Bric_OS/lib/ksched.c: rr_admit, rr_remove, rr_next, validate_ll
--   Proc      Bric_OS/lib/kproc.c: PROC_init, with the start of a scheduler, PROC_run, PROC_create_kthread,
--             PROC_reschedule, kexit. Proc.Interface is what a scheduler promises
--   Kmalloc   Bric_OS/lib/kmalloc.c: merge_blocks, split_block, extend_mem, get_empty_mem, kmalloc,
--             kcalloc (in Kmalloc.Zeroed), krealloc (in Kmalloc.Resize), kfree, kmalloc_cleanup
--             (in Kmalloc.Cleanup). Its kbrk is the break alone; Kmalloc.Break shows that kbrk of
--             the memory manager refines it. A new header, or bytes that kcalloc and krealloc write,
--             over the next header or behind the break are a fault
--   Mmu       Bric_OS/src/drivers/mmu_driver.c: MMU_pf_alloc, MMU_pf_free, get_pt_entry, map_page,
--             virt_to_phys, MMU_alloc_page(s), MMU_free_page(s), page_fault_irq, kbrk, sbrk; in
--             Mmu.Init addr_map_init and MMU_init; in Mmu.Report walk_virt_addr,
--             decode_error_flags and the report of a fault that cannot be handled; in Mmu.Regions
--             where the regions of virtual memory start
--   Multiboot Bric_OS/src/boot/multiboot2.c: find_multiboot2_tag, get_multiboot2_mmap_info,
--             get_multiboot2_elf_info, parse_multiboot2; in Multiboot.Names print_elf_type
--   Descriptors Bric_OS/src/ISR/gdt.c and idt.c: encode_gdt_entry, tss_init, gdt_init,
--             idt_set_descriptor, idt_set_ist, idt_init
--   Pic       Bric_OS/src/ISR/pic.c: the masks, the acknowledgement and the set-up
--   Irq       Bric_OS/src/ISR/irq_handler.c: IRQ_set_handler, interrupt_handler, IRQ_enable,
--             IRQ_disable, IRQ_reenable; Exceptions has print_irq and exception_handler
--   Timer     Bric_OS/src/drivers/timer_driver.c: timer_isr with its message, timer_init
--   Keyboard  Bric_OS/src/drivers/ps2_keyboard_driver.c: process_scan_code with its four tables, reading
--             and writing the ports, polling; Keyboard.Start ps2_keyboard_driver_init, with its messages
--   Strings   Bric_OS/lib/string.c
--   Printk    Bric_OS/lib/printk.c: format_char, format_llu_base_n, format_ll_base_n; in Printk.Format
--             printk itself, on the screen and the serial port, for the first 65536
--             characters of its format. Printk.Pieces is what a format means
--   Vga       Bric_OS/src/drivers/vga_driver.c: the cursor, scrolling, backspace, characters, strings;
--             Vga.Place the position of the cursor, VGA_driver_init, VGA_display_attr_char_pos
--   Serial    Bric_OS/src/drivers/serial_io_driver.c: the ring, hw_write, serial_write, the set-up; in
--             Serial.Interrupt the interrupt, whose messages go to the same ring
--   Boot      Bric_OS/src/boot/kernel_main.c: system_initialization, kernel_main; IRQ_init
--
-- The page tables are 64-bit words in memory at physical addresses, as the code writes them. What a
-- frame is for (a table at one place of the tree, idle, or a page) is ghost state of the theorems;
-- translate is the walk of the processor, which the theorems compare with.
--
-- The state of a part is a record: a field of all threads or all block headers is a function from
-- addresses, so that two pointers to one object name one object. A call that may halt the machine,
-- read through NULL or run out of the model's fuel returns an Outcome.
--
-- Fuel stands for the length of a walk or for the digits of a number. The walks
-- of kmalloc and kfree take one more than the blocks in front, the walk over the boot loader's tags one round for each tag and one more, and 22 digits are enough
-- for any 64-bit number in base 8 or more. Polling the keyboard has no bound; the waits of its start
-- need one round each where it is ready.
--
-- Words: size_t and pointers wrap at 2 ^ 64, block sizes at 2 ^ 32, bytes at 256.
--
-- Not modelled: the messages of Pic, Irq, Kmalloc, Mmu and Multiboot and of the set-up of Serial
-- (those of Timer, Keyboard.Start, Serial.Interrupt, Boot, Exceptions, Mmu.Report and Multiboot.Names
-- are there); PROC_set_scheduler from one scheduler to another, since both keep their links in the
-- threads, and a pool has links of its own here; context switches and other assembly, the cache of
-- translations, accesses of clients to pages that are not mapped, and the tests of the kernel. A
-- heap is well formed here although the memory of a block may reach into the next header, as
-- extend_mem makes them; what the heap itself would then write there is a fault, or is ruled out
-- by a condition of the theorem.
pub mod Base
pub mod Sched
pub mod Proc
pub mod Kmalloc
pub mod Pic
pub mod Irq
pub mod Keyboard
pub mod Strings
pub mod Printk
pub mod Timer
pub mod Vga
pub mod Serial
pub mod Mmu
pub mod Multiboot
pub mod Descriptors
pub mod Exceptions
pub mod Boot
pub mod Common
