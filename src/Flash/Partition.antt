-- ===== src/Flash/Partition.antt =====
-- src/partition.rs: a view of a range of a flash. The async and the blocking traits have the same
-- bodies.
pub mod Laws
use embedded_overlay.Base.{ℕ, ◌+◌, List, ◌||◌, ltb, if◌then◌else◌, length, Option, none, some}
use embedded_overlay.Arith.{Profile, as_u32, add_u32, u32_value, checked_add}
use embedded_overlay.Error.{Result, ok, err, panic, map_err}
use embedded_overlay.Flash.{Flash}

pub data PartitionError (E : Type 0) : Type 0 where
  storage : E → PartitionError E
  out_of_bounds misaligned : PartitionError E

pub record PartitionView (S : Type 0) : Type 0 where
  pub storage : S
  pub base_offset : ℕ
  pub size : ℕ

module _ {S E : Type 0} where
  -- The assertion of `new`.
  unfoldable pub new : S → ℕ → ℕ → Result E (PartitionView S)
  unfolding checked_add
  new store base_offset size = elim (checked_add base_offset size) [
    | none ↦ panic
    | some _ ↦ ok (record { storage = store; base_offset = base_offset; size = size })
  ]

  -- The guard of `read` and `write`: the range of `n` bytes lies in the partition.
  unfoldable pub check_range : PartitionView S → ℕ → ℕ → Result (PartitionError E) (Unit {0})
  unfolding checked_add
  check_range v offset n = elim (checked_add offset (as_u32 n)) [
    | none ↦ err PartitionError.out_of_bounds
    | some requested_end ↦
        if ltb v.size requested_end then err PartitionError.out_of_bounds else ok tt
  ]

module _ {S E : Type 0} (profile : Profile) (flash : Flash S E) where
  unfoldable pub read :
      PartitionView S → ℕ → List ℕ → Result (PartitionError E) (Unit {0}) × List ℕ × PartitionView S
  unfolding check_range u32_value
  read v offset bytes = elim (check_range {E = E} v offset (length bytes)) [
    | err e ↦ (err e, bytes, v)
    | panic ↦ (panic, bytes, v)
    | ok _ ↦ elim (add_u32 {E = PartitionError E} profile v.base_offset offset) [
      | err e ↦ (err e, bytes, v)
      | panic ↦ (panic, bytes, v)
      | ok physical_offset ↦
          let (r, bytes', storage') = flash.read v.storage physical_offset bytes in
          (map_err PartitionError.storage r, bytes', record v { storage = storage' })
    ]
  ]

  unfoldable pub write :
      PartitionView S → ℕ → List ℕ → Result (PartitionError E) (Unit {0}) × PartitionView S
  unfolding check_range u32_value
  write v offset bytes = elim (check_range {E = E} v offset (length bytes)) [
    | err e ↦ (err e, v)
    | panic ↦ (panic, v)
    | ok _ ↦ elim (add_u32 {E = PartitionError E} profile v.base_offset offset) [
      | err e ↦ (err e, v)
      | panic ↦ (panic, v)
      | ok physical_offset ↦
          let (r, storage') = flash.write v.storage physical_offset bytes in
          (map_err PartitionError.storage r, record v { storage = storage' })
    ]
  ]

  unfoldable pub erase :
      PartitionView S → ℕ → ℕ → Result (PartitionError E) (Unit {0}) × PartitionView S
  unfolding u32_value
  erase v from to =
      if ltb to from || ltb v.size to
      then (err PartitionError.out_of_bounds, v)
      else elim (add_u32 {E = PartitionError E} profile v.base_offset from) [
        | err e ↦ (err e, v)
        | panic ↦ (panic, v)
        | ok phys_from ↦ elim (add_u32 {E = PartitionError E} profile v.base_offset to) [
          | err e ↦ (err e, v)
          | panic ↦ (panic, v)
          | ok phys_to ↦
              let (r, storage') = flash.erase v.storage phys_from phys_to in
              (map_err PartitionError.storage r, record v { storage = storage' })
        ]
      ]

  unfoldable pub partition_flash : Flash (PartitionView S) (PartitionError E)
  unfolding read write erase
  partition_flash = record { read = read; capacity = λ v. v.size; erase = erase; write = write }
