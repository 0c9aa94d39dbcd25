-- ===== src/Lib.antt =====
-- The embedded-overlay crate and the tools beside it: the checksums and headers of what lies in flash,
-- the flash under it and the adapter that makes one of an SD card, the reader of the asset filesystem with
-- its sector cache, the manager that pages code modules from flash into slots of RAM and calls them, the
-- engine that finds the modules in flash and calls them by their ids, the host tool that packs the
-- images, and the bootloader.
--
-- How the parts interact. A module is packed as a container: an `OverlayHeader` of 32 bytes, then its
-- code. The host tool writes the containers of a program behind a directory of them. The engine reads the
-- directory into its registry, and asks the manager for a module at the offset that is registered. The
-- manager asks its flash for the header, checks it, chooses a slot, reads the code into the memory of the
-- slot, compares the checksum, runs the hook that synchronises instruction fetches, and marks the slot. The
-- flash is any implementation of the traits of embedded-storage-async; a partition, a shared bus and the
-- adapter of a block device are such implementations over something else.
--
-- The files, and the code that they are about:
-- - Crc (src/crc.rs): the table-driven `crc32`, and `fnv1a_hash`. Crc/Bits has the bit-serial shift
--   register that the CRC is compared with, Crc/Detect the detection of burst errors, Crc/Fnv the
--   arithmetic of the hash.
-- - Error (src/error.rs): `OverlayError` and `VfsError`; and `Result`, with a panic as a third
--   outcome.
-- - Header (src/header.rs): `OverlayHeader` in Header/Overlay, `VfsSuperblock` in Header/Vfs,
--   `OverlayDirectory` in Header/Directory, the entries of both index tables in Header/Entry.
--   `to_bytes`, `new` and `from_bytes` are the methods of these names; `fields` is the part of
--   `from_bytes` that reads the words. Header/Burst says what a damaged header is.
-- - Bundle (src/bundle.rs): `BundleHeader`, whose C layout has 52 bytes; its parser and its constructor
--   checksum 60.
-- - Flash: the traits `ReadNorFlash` and `NorFlash` as an interface, `Flash S E`, and what a client
--   relies on, `Serves`. Flash/Mock (src/mock.rs) is the simulated flash, with its array as the list
--   `content`; Flash/Partition (src/partition.rs) is `PartitionView`. Flash/Isolation has both
--   together.
-- - Overlay: Overlay/Slot (src/overlay/slot.rs), Overlay/Sync (src/overlay/sync.rs), and
--   `OverlayManager` (src/overlay/mod.rs) in Overlay/Manager, which has the state, the search, the
--   choice of a slot, eviction and pins, and in Overlay/Load, which has `ensure_resident`, `call_raw`,
--   `call_typed` and `execute`. `ensure_resident` is cut into `touch`, for a module that is resident,
--   `load`, up to the choice of a slot, `load_into`, from there on, and `finish` and `reject`, the two
--   ends. Overlay/Buffer (src/embassy/slots.rs) makes slots in static buffers. The other files of
--   Overlay hold the proofs: Rules has one rule about every way through `ensure_resident`, Thumb says
--   which address `make_thumb_entry` returns.
-- - Block (src/block.rs) is `BlockDeviceAdapter`, over an interface of the block device: the bodies of
--   the loops of `read` and `write` are `read_step` and `write_step`, cut by their two branches.
--   Block/Content says what the adapter relies on in a device, Block/Reading and Block/Writing have
--   the proofs.
-- - Engine (src/embassy/engine.rs, src/embassy/pipeline.rs) is `EmbassyOverlayEngine`; Engine/Mount
--   has `mount`, cut into `discover`, what it does under the lock, with `scan_directory` and
--   `sequential_loop`, and the registration. Engine/Registry compares the registry with a map,
--   Engine/Scan and Engine/Discovery say what a mount leaves alone, Engine/Directory what it finds,
--   Engine/Calls goes on to a call, and has `IsCalled`, the result of one with the state it leaves.
-- - Shared (src/embassy/shared_storage.rs) is the storage bus: a handle is the bus that it belongs to.
-- - Packer (overlay-packer/src/main.rs) has the commands of the packer: Packer/Numbers the numbers on
--   the command line, Packer/Sections what `auto_pack` finds in the output of readelf, Packer/Modules
--   the image that it builds, Packer/Assets `pack_vfs`. Packer/Layout, Packer/Listing and Packer/Image
--   have the proofs about `auto_pack`, Packer/Program those that go on to the engine;
--   Packer/Filesystem, Packer/Table and Packer/Roundtrip those about `pack_vfs` and the reader.
-- - Bootloader (bootloader/src/main.rs) is the test of the vector table and the start of the
--   application.
-- - Vfs: Vfs/Reader (src/vfs/mod.rs) is `VfsReader`; the loop of `find_entry` is `find_from`, and
--   `stream_chunk` and `read_asset` are cut into the search, and `stream_entry` and `read_entry`; the
--   first uses `chunk_addr` and `read_chunk`. Vfs/Indexed compares the search with a table of entries
--   in the flash, Vfs/Stream the streamed bytes, Vfs/Whole a whole asset. Vfs/Cache (src/vfs/cache.rs)
--   is `LruSectorCache`; its arrays are lists, and `load` is the part of `get_or_load` after a miss.
--   Vfs/Coherence compares it with the flash.
-- - Base, Bytes, Arith, Exec: lists and Boolean tests on the native numbers, bitwise operations,
--   little-endian words, arithmetic on `u32` in debug and release builds, and methods on `&mut self`
--   that may fail, with rules for what holds after them. Tests has runs and uses of the theorems on
--   concrete inputs.
--
-- How the code is represented. A method on `&mut self` is a function from the object to its outcome and
-- the object as it was left, on errors and panics too. A read of a flash returns the caller's buffer
-- whatever the outcome, since the code reads into memory that outlives the call: a slot has its memory
-- as a field, `ram`, the bytes from `ram_addr` on, which the contract of `OverlaySlot::new_raw` gives to
-- the slot alone. An `async` method is its result: a manager is borrowed exclusively for the whole call,
-- so no other call on it comes between. Addresses and words are natural numbers; `Profile` says whether
-- an overflowing `+` on `u32` panics or wraps, `checked_add` reports it, and the counter of the manager
-- is reduced modulo 2^64. The entry point of a module is a parameter, `invoke`, of the address and the
-- arguments; `call_raw` is the ARM branch of the code. All loops are structural recursions on the data,
-- except those of `make_table` and of `find_entry`, which count their 8, 256 and `asset_count` passes
-- down, the scans of `mount`, which count entries or free places down, and four that have fuel. The
-- loops of `BlockDeviceAdapter` have one round more than there are bytes, which is enough since every
-- round moves a byte at least; the padding loops of the packer pad up to three times, which is what a
-- multiple of 4 takes. When the fuel of a loop that can fail is gone it panics, so a proof that it
-- succeeds shows that it was enough. The mutexes of `embassy_sync` are held for whole operations, so
-- operations on one object follow one another.
--
-- Not modelled: src/macros.rs and the macro of src/embassy/slots.rs, src/build.rs, and the demo; of the
-- packer the file system, the argument list, the messages and the runs of readelf and objcopy, whose
-- results are arguments; of the bootloader the registers that the jump sets. The barriers and cache
-- registers of src/overlay/sync.rs are hardware; the `Display` texts of errors are output. The accessors
-- of the records are their fields. `capacity` of the adapter is modulo 2^32, the width of an address
-- there; its product of 64 bits is taken not to overflow.
pub mod Base
pub mod Error
pub mod Bytes
pub mod Crc
pub mod Header
pub mod Bundle
pub mod Arith
pub mod Exec
pub mod Flash
pub mod Overlay
pub mod Block
pub mod Engine
pub mod Shared
pub mod Packer
pub mod Bootloader
pub mod Vfs
pub mod Tests
