-- ===== src/Lib.antt =====
-- FlashVis runs real flash filesystems, compiled to WASM, against one emulated NOR chip and shows
-- what they do to it. This library models the C code that binds the filesystems to the chip, and
-- the chip.
--
-- Nor.antt is the chip of web/src/device.js: its bytes, wear counters, statistics and the events
-- it emits; read, readQuiet, prog, erase and reset. The bindings reach it through
-- build/flash_hal.js, whose functions forward to it. A transfer carries a list of bytes, as long
-- as the length argument.
--
-- Abi.antt is what the five bindings of bindings/ share. Abi/Backend.antt has a call of a
-- filesystem core as a tree of the backend requests it makes, which the callbacks of the shim
-- answer from the chip. Abi/Pool.antt has the handle pools, Abi/Name.antt the name copies,
-- Abi/Listing.antt the lines of ff_list, and Abi/Fill.antt the loop that fills a buffer by short
-- reads, whose end Abi/Return.antt turns into the result; Abi/Blank.antt and Abi/Spread.antt are
-- the blank scan and the spreading of classes over pages that the live maps share.
--
-- Fastffs.antt is bindings/fastffs/shim.c, one definition for each exported function: the
-- lifecycle in Fastffs.antt, files in Fastffs/Files.antt, operations by name in
-- Fastffs/Names.antt, listings and directory iterators in Fastffs/Dirs.antt, the visualizer hooks
-- in Fastffs/Inspect.antt. The FASTFFS core is a git submodule: its types, constants and functions
-- are the fields of the record Core, which every definition takes.
--
-- JesFs.antt is the JesFS binding. JesFs/Spi.antt is bindings/jesfs/jesfs_ll.c, the SPI state
-- machine that turns opcodes and transfers into operations of the chip; the constants of the JesFS
-- headers, which are in a git submodule, are the record Consts. JesFs/Io.antt has a call of JesFS
-- as a tree of the SPI calls it makes. JesFs/Shim.antt is bindings/jesfs/shim.c over the record
-- Core, which stands for JesFS: geometry and lifecycle in JesFs/Shim.antt, handles in
-- JesFs/Shim/Files.antt, operations by name in JesFs/Shim/Names.antt, the walks over the file
-- index in JesFs/Shim/Dirs.antt. JesFs/Inspect.antt is bindings/jesfs/jesfs_inspect.c.
--
-- Spiffs.antt is bindings/spiffs/shim.c over the record Core, which stands for SPIFFS and its
-- macros: the lifecycle in Spiffs.antt, files and operations by name in Spiffs/Files.antt, the
-- directory loops in Spiffs/Dirs.antt. Spiffs/Inspect.antt is bindings/spiffs/spiffs_inspect.c.
--
-- LittleFs.antt is bindings/littlefs/shim.c over the record Core, which stands for littlefs: the
-- callbacks and the lifecycle in LittleFs.antt, files and operations by name in
-- LittleFs/Files.antt, the directory loops and the recursive walk in LittleFs/Dirs.antt.
-- LittleFs/Inspect.antt is bindings/littlefs/lfs_inspect.c, over the record Internals, which
-- stands for the static functions of lfs.c that it calls.
--
-- FatFs.antt is the FatFs binding. FatFs/Disk.antt is bindings/fatfs/diskio.c over the record Wl,
-- which stands for the functions of bindings/fatfs/wl_api.h. bindings/fatfs/wl_hal.cpp fills that
-- record in FatFs/Hal.antt, over the record Core there, which stands for the class WL_Flash; its
-- partition over the chip is FatFs/Partition.antt, its random numbers and checksum
-- FatFs/Checksum.antt. bindings/fatfs/shim.c is FatFs/Shim.antt, FatFs/Shim/Files.antt and
-- FatFs/Shim/Dirs.antt, over the record Core of FatFs/Shim.antt, which stands for FatFs.
-- bindings/fatfs/fat_inspect.cpp is FatFs/Inspect.antt, the decoding and the marking,
-- FatFs/Inspect/Boot.antt, the boot record and what it fixes, and FatFs/Inspect/LiveMap.antt, the
-- map.
--
-- Integers are natural numbers with the wrap to 32 bits written out where the code relies on it;
-- results of C type int are the ℤ of Common/Int.antt, and a cast of an unsigned count to int comes
-- out negative from 2^31 up. The loop that fills a buffer has one round of fuel for each byte
-- asked for, which is enough because a round that reads nothing ends it. The loop of ff_list has
-- one round for each byte of the buffer, and every round that goes on adds a line of at least two
-- bytes. The walks over the JesFS index are recursive on the rounds that are left before their
-- limit, and the loop for the density on the 31 rounds that its guard lets go. The SPIFFS,
-- littlefs and FatFs directory loops end when the core reports the end, so their fuel is an
-- argument, and one round more than there are entries is enough; a walk over a tree of FatFs
-- directories takes one round more than the longest line of entries from the root down. The walk
-- along the littlefs metadata pairs ends by itself, a cycle included; more than three rounds for
-- each pair on the way to the null pair, or into the cycle and around it, are enough. The loops of
-- the FatFs live map are recursive on the rounds that their bounds or guards leave.
--
-- Not modelled: the filesystem cores, which are git submodules; the copies of FatFs and of the
-- wear levelling under fs/, which are other projects; and the JavaScript of the page.
pub mod Common
pub mod Nor
pub mod Abi
pub mod Fastffs
pub mod JesFs
pub mod Spiffs
pub mod LittleFs
pub mod FatFs
