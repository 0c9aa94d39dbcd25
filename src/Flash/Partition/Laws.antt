-- ===== src/Flash/Partition/Laws.antt =====
-- The calls of a partition, against the calls of its store at the shifted addresses.
use embedded_overlay.Base.{ℕ, ◌+◌, ◌<◌, List, length, ◌≡◌, arith, if◌then◌else◌, ltb, leb, ◌&&◌}
use embedded_overlay.Arith.{Profile, u32_mod, u32_value_lem}
use embedded_overlay.Error.{Result, ok, err, panic, map_err}
use embedded_overlay.Flash.{Flash}
use embedded_overlay.Flash.Partition.{PartitionView, PartitionError, new, read, write, erase}

-- What `new` establishes.
abbrev pub IsValid : {S : Type 0} → PartitionView S → Type 0
IsValid v = v.base_offset + v.size < u32_mod

-- What `new` accepts is valid, and what it does not accept panics.
pub new_lem :
    {S E : Type 0} (store : S) (base_offset size : ℕ)
    → new {E = E} store base_offset size ≡ (
        if ltb (base_offset + size) u32_mod
        then ok (record { storage = store; base_offset = base_offset; size = size })
        else panic)
unfolding new
new_lem store base_offset size = ground arith

module _ {S E : Type 0} (flash : Flash S E) (v : PartitionView S) where
  -- The calls of the store at the shifted addresses.
  abbrev pub shifted_read :
      ℕ → List ℕ → Result (PartitionError E) (Unit {0}) × List ℕ × PartitionView S
  shifted_read offset bytes =
      let (r, bytes', store') = flash.read v.storage (v.base_offset + offset) bytes in
      (map_err PartitionError.storage r, bytes', record v { storage = store' })

  abbrev pub shifted_write : ℕ → List ℕ → Result (PartitionError E) (Unit {0}) × PartitionView S
  shifted_write offset bytes =
      let (r, store') = flash.write v.storage (v.base_offset + offset) bytes in
      (map_err PartitionError.storage r, record v { storage = store' })

  abbrev pub shifted_erase : ℕ → ℕ → Result (PartitionError E) (Unit {0}) × PartitionView S
  shifted_erase from to =
      let (r, store') = flash.erase v.storage (v.base_offset + from) (v.base_offset + to) in
      (map_err PartitionError.storage r, record v { storage = store' })

module _ {S E : Type 0} (profile : Profile) (flash : Flash S E) (v : PartitionView S)
    (valid : IsValid v) where
  -- A read through a valid partition, of a buffer shorter than 2^32, is the store's read at the address
  -- moved by the partition's start, with its error wrapped, when the range lies in the partition; else
  -- it is out of bounds, and buffer and store stay.
  pub read-shifted :
      (offset : ℕ) (bytes : List ℕ)
      → length bytes < u32_mod
      → read profile flash v offset bytes ≡ (
          if leb (offset + length bytes) v.size
          then shifted_read flash v offset bytes
          else (err PartitionError.out_of_bounds, bytes, v))
  unfolding read
  read-shifted offset bytes hl =
      ground (arith, u32_value_lem {E = PartitionError E} profile (v.base_offset + offset))

  -- A write through a valid partition, of fewer than 2^32 bytes, is the store's write at the address
  -- moved by the partition's start, with its error wrapped, when the range lies in the partition; else
  -- it is out of bounds, and the store stays.
  pub write-shifted :
      (offset : ℕ) (bytes : List ℕ)
      → length bytes < u32_mod
      → write profile flash v offset bytes ≡ (
          if leb (offset + length bytes) v.size
          then shifted_write flash v offset bytes
          else (err PartitionError.out_of_bounds, v))
  unfolding write
  write-shifted offset bytes hl =
      ground (arith, u32_value_lem {E = PartitionError E} profile (v.base_offset + offset))

  -- An erase through a valid partition is the store's erase of the range moved by the partition's
  -- start, with its error wrapped, when the range is ordered and ends in the partition; else it is out
  -- of bounds, and the store stays.
  pub erase-shifted :
      (from to : ℕ)
      → erase profile flash v from to ≡ (
          if leb from to && leb to v.size
          then shifted_erase flash v from to
          else (err PartitionError.out_of_bounds, v))
  unfolding erase
  erase-shifted from to = ground (
    arith,
    u32_value_lem {E = PartitionError E} profile (v.base_offset + from),
    u32_value_lem {E = PartitionError E} profile (v.base_offset + to),
  )
