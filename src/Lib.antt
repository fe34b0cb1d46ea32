-- ===== src/Lib.antt =====
-- Verification of Xinix, a kernel with a prekernel that a boot loader starts: the C code of
-- kernel/, prekernel/, loader/ and common/, translated function by function.
--
-- How the parts work together. The boot loader starts pkmain, prekernel/limine/src/main.c, with a
-- map of the memory. The prekernel takes the largest usable entry for its allocator, writes a map
-- in which its own memory is set apart, loads the kernel's ELF image behind it, enlarges what is
-- set apart by the block of the image, and jumps to the kernel with the map. The kernel starts its
-- heap in the largest usable entry of that map, reads the tables of the firmware, whose pages it
-- maps as it goes, reads the clock, counts the boot time with the timer, and serves the keyboard: the
-- prompt edits a line from the keys and runs it as a command. Everything prints through stdio.c. The
-- dynamic loader links a library against the tables of the ones that it linked before. Times between
-- interrupts go into a ring of events, whose contents are ingested, with what the processor gives,
-- into two generators of random bytes; these are built from two hashes, and a device hands their bytes
-- out.
--
-- Which file models what:
--   Base        numbers, tests, lists as arrays, machine words, and bit operations as arithmetic
--   ScanTable   the tables of scan codes, kernel/src/common/keyboard.c and kernel/include/keyboard.h
--   Keyboard    the driver of kernel/src/common/keyboard.c: kbd_process_scancode_byte is
--               process_scancode_byte, kbd_enqueue is enqueue, kbd_poll_key is poll_key,
--               kbd_get_char_for_scancode is get_char_for_scancode
--   Bytes       memcpy, memmove, memset, memcmp, strlen and strnlen of kernel/src/common/memory.c,
--               and strnlen of prekernel/shared/src/memory.c
--   Heap        init_heap, aligned_alloc, malloc, calloc and free of kernel/src/common/memory.c, with
--               the map of kernel/include/memmap.h
--   Clock       duration_add and duration_sub of common/include/time.h; init_rtc and
--               read_global_rtc of kernel/src/x86_64/rtc.c, init_rtc cut into confirm, normalise,
--               epoch_days and start_clock; the counter of kernel/src/common/boottime.c
--   Prekernel   init_alloc, aligned_alloc and malloc of prekernel/shared/src/alloc.c (with the prefix
--               prekernel_ where the kernel has the same name), find_and_init_alloc and the loop over
--               the map of prekernel/limine/src/main.c, and the loop of call_kmain,
--               prekernel/shared/src/entry.c
--   Elf         elf_validate_ident of common/include/elf.h and loader_map_elf of
--               prekernel/shared/src/entry.c
--   Loader      loader_map_elf of loader/src/loader.c, over the first loop of Elf, and the stubs valloc
--               and vprotect of kernel/src/common/memory.c
--   Keccack     the permutation and the sponge of common/include/keccack.h
--   Sha2        the tables and the compression of common/include/sha2.h, for both widths
--   Random      rand_init, rand_ingest and rand_poll of randlib/src/random.c
--   Entropy     the ring of events and rd_read of kernel/src/common/entropy.c; its two generators
--               with their lock, and rd_write, in Entropy.Generators
--   Paging      add_to_hhdm and set_flags of kernel/src/x86_64/paging.c; clone_page_table in
--               Paging.Clone; vprotect of prekernel/shared/x86_64/src/paging.c in Paging.Protect, its
--               four loops cut into protect_pages, protect_pds, protect_pdps and vprotect
--   Features    init_cpu_feature_array of prekernel/shared/x86_64/src/cpuid.c, cut into raw_words,
--               xsave_words, supported, clear_all_masks, avx10_words and run_clears
--   Acpi        load_madt, load_fadt, handle_sdt, load_rsdt, load_xsdt and write_io_redirect of
--               kernel/src/common/acpi.c, with the layouts of kernel/include/acpi.h
--   Auxv        getauxval and the loop at the start of kmain, kernel/src/common/main.c
--   Tsc         init_tsc and read_tsc of kernel/src/x86_64/tsc.c, and timer_irq of
--               kernel/src/common/main.c
--   Uuid        uuid_genv4 and uuid_genv7 of kernel/src/common/uuid.c
--   Console     run_prompt and eval of kernel/src/common/main.c: the inner loop is type_keys, a turn of
--               it type_key
--   Dynld       dynld_link and what it calls, loader/src/dynld.c, with the hashes of
--               loader/include/hash.h: the scan of the dynamic section in Dynld.Scan, bitmaps of
--               relocations in Dynld.Relr, relocations in Dynld.Apply, the whole in Dynld.Link
--   Stdio       vfprintf with its printers print_dec_int and print_unsigned_int,
--               kernel/src/common/stdio.c; the format is read in Stdio.Format, the conversions are in
--               Stdio.Convert, and Stdio.Errors has the names of common/include/sysresult.h
--
-- Conventions. A word of w bits is a natural number below 2^w, and every wrap is written out. A
-- memory is a function from addresses to bytes, the page tables are one from addresses to entries; a
-- C array is a list or a function from its indices. `none` is a null pointer, a
-- halt, a fault or undefined behaviour, as each file says.
--
-- Bounds and fuel. dec_digits has the 20 bytes of the buffer as fuel: a 64-bit number has at most
-- 20 digits. vfprintf_from counts the conversions, of which a format has fewer than characters.
-- poll_loop has two rounds, of which a poll without other callers takes at most two. add_rounds
-- takes at most two rounds at each of four levels. The inner loops of vprotect have 514 rounds, of
-- which the entries of a table take at most 513; its outermost one has as many as there are multiples
-- of 2^39 on the way, and two. write_chunks has the number of whole pieces of 64 bytes as fuel. The
-- two passes of load_madt have as many rounds as the table has bytes and one
-- more; a record takes at least two. relr_bits has the 64 digits of a bitmap. Every other loop is a
-- recursion on the data. The readings that the clock may take are a list, so that a loop without end
-- is seen.
--
-- Parameters. Stdio.Convert takes the width of int_fast32_t and the value of a call whose body ends
-- without a return. The program headers of the prekernel's image, the readings of the CMOS registers and the generator of a
-- random device, a function pointer in the source, are arguments. The boot loader's map is an
-- argument, with the hypotheses in Prekernel.Handover that its entries do not overlap and that the
-- allocator stayed in its entry. The memory of the firmware and the registers of an I/O APIC, with
-- the hypothesis that they keep what is written, are arguments, and so are the tables of an image
-- that is linked, the calls that its relocations make, the answers of cpuid, the count of rdtsc,
-- what random_global_gen gives, the processor's own entropy, and what stands in memory that the random
-- generator hashes before it is written. The hypothesis on an I/O APIC is on the bits of its registers
-- that are written.
--
-- Not modelled: what the prompt draws on the screen and the order of the start, the rest of
-- kernel/src/common/main.c; code on registers and descriptors of the processor, and assembly, for
-- which a model of the machine would be needed; the entries that the processor still holds after
-- vprotect; macros and builtins of headers such as common/include/stdbit.h, which are written out where
-- they are used; what is printed by the modelled functions; widths in a format that overflow an int;
-- concurrent calls.
pub mod Base
pub mod ScanTable
pub mod Keyboard
pub mod Bytes
pub mod Heap
pub mod Clock
pub mod Prekernel
pub mod Elf
pub mod Loader
pub mod Stdio
pub mod Keccack
pub mod Sha2
pub mod Random
pub mod Entropy
pub mod Paging
pub mod Features
pub mod Acpi
pub mod Dynld
pub mod Auxv
pub mod Tsc
pub mod Uuid
pub mod Console
