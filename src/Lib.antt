-- ===== src/Lib.antt =====
-- ArtyomX64, a 64-bit hobby kernel in C: models of its core, with the theorems that make them correct.
--
-- The parts and how they interact. At boot `pmm_init` (mm/pmm.c) reads the memory map of the boot
-- loader and frees the usable pages in a bitmap. The heap (mm/kheap.c) asks it for runs of pages,
-- its arenas, and cuts them into blocks. The scheduler (fs/task.c) takes the stack of a task from the
-- heap and gives it back when the task exits; the interrupt handlers, as that of the keyboard
-- (drivers/keyboard.c), run between the steps of the running task and leave what they read in
-- buffers that the tasks empty. The initial ramdisk (fs/initrd.c) copies its files with the C library of
-- the kernel (lib/libc.c); the system calls (lib/syscalls.c) reach it through the operations of a node
-- (fs/fs.c). Programs of other systems (kernel/compat.c) get their calls patched into interrupts, and
-- their calls use the same files, the heap, the keyboard and the text console (drivers/monitor.c), to
-- which the keyboard echoes. The loader of programs (fs/loader.c)
-- takes the buffer of an image from the heap. The window system (kernel/axshell.c) gives each program a
-- window with a canvas from the heap, sends it the events of the mouse (drivers/mouse.c and
-- drivers/usb_hid_mouse.c, whose controller the search of drivers/pci.c finds) and draws into a back buffer
-- (lib/gfxlib.c).
--
-- Which file models which part:
--   Base        Boolean tests on ℕ, lists, bytes and order, and the library names in use;
--   Pmm         mm/pmm.c. `Pmm` is its static variables, a field of it the variable without the
--               prefix; a function has its C name. The bitmap is a function from byte offsets
--               to bytes, so a page is a bit of a byte as in the source. Children: Bitmap and
--               Count (one bit, and how many are free), Region (mark_region), MemoryMap and
--               Init (pmm_init), Search (find_run), Alloc, Free;
--   Keyboard    drivers/keyboard.c. `Keyboard` is the ring buffer with its head, tail and count; the
--               two port reads are arguments of keyboard_callback and what it sends to the screen is its
--               result. Children: Queue (the line it promises), Ring (indices), Refine, Enter (the flag);
--   Kheap       mm/kheap.c. `Heap` is the list of arenas, over a `Pmm`; an arena is the list of its
--               blocks with address, size and flag, in the order of the C list. `header_size` is
--               sizeof(block_header_t). Children: Tiling (blocks end to end), Apart (blocks and arenas
--               that share no byte), Place, Malloc and Granted (kmalloc), Coalesce, Free and Return
--               (kfree), Sound (the whole invariant), Fixture (heaps for tests);
--   Task        fs/task.c. `Sched` is its static variables, a pointer to a task its slot.
--               Children: Table (what a write leaves alone, the invariant), Init, Pick, Yield,
--               Slot and Spawn (task_spawn), Exit;
--   Libc        lib/libc.c. Memory is a function from addresses to bytes; a text is the list of its
--               codes. Children: Copy, Compare, Strings, Decimal, Digits;
--   Initrd      fs/initrd.c. The file headers are a list, the memory is that of Libc, and a node is
--               a directory or the number of a file. Children: Read, Find;
--   Monitor     drivers/monitor.c. `Console` is the words of the video memory, the cursor, and the location
--               that the board has been sent. Children: Scroll, Put, Numbers;
--   Gfx         lib/gfxlib.c. An int is its 32-bit word, the loops over pixels have their bounds
--               written out, and the font is an argument. Children: Clip, Region and Fill
--               (gfx_fill_rect), Shapes, Glass and Text (further drawing calls), Stays and Draws (what
--               all of them leave alone);
--   Vfs         fs/fs.c. A node is an address, its callbacks are optional functions;
--   Dev         fs/dev.c. The table is a list of devices with their addresses; the answer of malloc is an
--               argument. Child: Table;
--   Syscalls    lib/syscalls.c: open, read, write and getdents. `files` is a partial function from
--               descriptors. Children: Read, Dirents with Record and Listing (getdents);
--   Compat      kernel/compat.c. `Kernel` is the state of all parts that its calls change. Children:
--               Places and Patch (compat_patch_syscalls), Calls (files and memory), Output, Input with Line,
--               Waiting and Heap (sys_read_compat), Dispatch with Answers (the two handlers);
--   Loader      fs/loader.c with the headers of fs/elf.h, read where they stand in the memory of Libc; `Loader`
--               is the heap, the memory and the screen. Children: Image (fields), Relocate, Load32 (the other
--               class and the choice), Words (stored words), Segments with Place, Buffer and Load
--               (the buffer after the load);
--   Axshell     kernel/axshell.c with axshell.h and lib/axipc.h. `Desktop` is the table of windows and the
--               static variables; an int is its 32-bit word. Children: Surface (calls of programs),
--               Input (the mouse in process_input), Backdrop (the wallpaper), Calendar, Find and
--               Topmost (the searches), Focus, Queue with Delivery (events), Geometry (drag and resize);
--   Pci         drivers/pci.c over a function from addresses to words. Children: Registers, Loop and Search
--               (pci_find_class);
--   Mouse       drivers/mouse.c; its ports are an argument, `Ports`. Children: Packets and Cursor, and Hid with
--               Scan for drivers/usb_hid_mouse.c, where the transfers are an argument, `Bus`.
-- Each but Vfs has a child Tests with runs and with concrete states.
--
-- Numbers. A C integer is a natural number with its wrap-around written out where the width matters:
-- the sums of 64-bit addresses in Pmm, ALIGN16 in Kheap, the 8-bit fields of the keyboard,
-- the pids of Task, the int of atoi and print_int in Libc, the 32-bit end of a read in Initrd. Where a sum cannot wrap in
-- a state that the invariant describes, the model has the plain sum.
--
-- Bounds. Every loop is a recursion on the rounds it has left, as many as the source's bound gives: pages
-- left to search, blocks of an arena, the 16 slots of the task table. The walk through the memory map is
-- bounded in the source itself, by 4096 entries, and the model has that bound. The digits of a number
-- have the 32 bytes of the C buffer, enough for every unsigned int. The loop of getdents has fuel, a round for
-- every byte of the buffer and one, and `none` says that it ran out.
--
-- Not modelled. The contents of memory behind a pointer that the allocators hand out, but for what
-- sys_mmap_compat clears; port, MMIO and CPU
-- instructions, whose results are arguments; the context switch in assembly, which stands at the end
-- of a scheduler's step. An interrupt that comes in the middle of a function is not modelled: a call
-- is one step, but for the `pause` of sys_read_compat, at each of which a burst of keys arrives. The
-- USB core and its controllers, the nodes of the devices and random_read are not modelled,
-- and neither are the string functions of libc but strcmp, its format loop, the functions of
-- fs/initrd.c that change the list of files, the lines, sine table and set-up of lib/gfxlib.c, the other
-- calls of lib/syscalls.c and their dispatch, and compat_exec with its Mach-O images. Of the loader the traces on the
-- serial port are left out, and of the window system the pixels, the menus, the dock, the widgets, the start of
-- programs and the photos.
pub mod Axshell
pub mod Base
pub mod Compat
pub mod Dev
pub mod Gfx
pub mod Initrd
pub mod Keyboard
pub mod Kheap
pub mod Libc
pub mod Loader
pub mod Monitor
pub mod Mouse
pub mod Pci
pub mod Pmm
pub mod Syscalls
pub mod Task
pub mod Vfs
