-- ===== src/Tests/Storage.antt =====
-- src/mock.rs and src/partition.rs on concrete inputs.
use embedded_overlay.Base.{
  ◌+◌, ◌≤◌, ◌<◌, ◌-◌, [], ◌∷◌, replicate, get_or, bit_and, leb, ltb, ◌&&◌, if◌then◌else◌, ◌≡◌, ◌⊎◌,
  inl, refl, arith,
}
use embedded_overlay.Arith.{Profile}
use embedded_overlay.Error.{ok, err}
use embedded_overlay.Flash.Mock
use embedded_overlay.Flash.Mock.{MockFlash, MockFlashError, mock_flash}
use embedded_overlay.Flash.Mock.Laws.{erase-write-read, write_bytes}
use embedded_overlay.Flash.Partition
use embedded_overlay.Flash.Partition.{PartitionView, PartitionError}
use embedded_overlay.Flash.Partition.Laws.{
  IsValid, shifted_read, shifted_write, shifted_erase, read-shifted, write-shifted, erase-shifted,
}
use embedded_overlay.Flash.Isolation.{write_isolated, erase_isolated, disjoint_partitions}

-- A flash of 32 bytes with blocks of 8, all bytes 0xAA.
abbrev used : MockFlash
used = record { content = replicate 32 0xAA }

erase-write-read_example :
    (s1 : MockFlash) × (s2 : MockFlash) × (Mock.erase 32 8 used 8 16 ≡ (ok tt, s1))
    × (Mock.write 32 8 s1 10 (1 ∷ 2 ∷ []) ≡ (ok tt, s2))
    × (Mock.read 32 8 s2 10 (0 ∷ 0 ∷ []) ≡ (ok tt, 1 ∷ 2 ∷ [], s2))
erase-write-read_example =
    erase-write-read 32 8 used 8 16 10 (1 ∷ 2 ∷ []) (0 ∷ 0 ∷ []) refl (omega arith) refl refl
      (omega arith) (omega arith) (omega arith) refl (ground arith)

write_bytes_example :
    let (r, s') = Mock.write 32 8 used 10 (0x0F ∷ []) in
    ((10 + 1 ≤ 32)
      × (r ≡ ok tt)
      × (get_or s'.content 10 0 ≡ (
          if leb 10 10 && ltb 10 (10 + 1)
          then bit_and (get_or used.content 10 0) (get_or (0x0F ∷ []) (10 - 10) 0)
          else get_or used.content 10 0)))
    ⊎ ((32 < 10 + 1) × (r ≡ err MockFlashError.out_of_bounds) × (s' ≡ used))
write_bytes_example = write_bytes 32 8 used 10 (0x0F ∷ []) 10 refl

-- Two partitions of 16 bytes each.
abbrev left_half : PartitionView MockFlash
left_half = record { storage = used; base_offset = 0; size = 16 }

abbrev right_half : PartitionView MockFlash
right_half = record { storage = used; base_offset = 16; size = 16 }

right_half-IsValid : IsValid right_half
right_half-IsValid = omega arith

read-shifted_example : Partition.read Profile.debug (mock_flash 32 8) right_half 15 (0 ∷ 0 ∷ []) ≡ (
    if leb (15 + 2) 16
    then shifted_read (mock_flash 32 8) right_half 15 (0 ∷ 0 ∷ [])
    else (err PartitionError.out_of_bounds, 0 ∷ 0 ∷ [], right_half))
read-shifted_example =
    read-shifted Profile.debug (mock_flash 32 8) right_half right_half-IsValid 15 (0 ∷ 0 ∷ [])
      (omega arith)

write-shifted_example :
    Partition.write Profile.debug (mock_flash 32 8) right_half 4 (1 ∷ 2 ∷ []) ≡ (
      if leb (4 + 2) 16
      then shifted_write (mock_flash 32 8) right_half 4 (1 ∷ 2 ∷ [])
      else (err PartitionError.out_of_bounds, right_half))
write-shifted_example =
    write-shifted Profile.debug (mock_flash 32 8) right_half right_half-IsValid 4 (1 ∷ 2 ∷ [])
      (omega arith)

erase-shifted_example : Partition.erase Profile.release (mock_flash 32 8) right_half 8 16 ≡ (
    if leb 8 16 && leb 16 16
    then shifted_erase (mock_flash 32 8) right_half 8 16
    else (err PartitionError.out_of_bounds, right_half))
erase-shifted_example =
    erase-shifted Profile.release (mock_flash 32 8) right_half right_half-IsValid 8 16

write_isolated_example :
    get_or
      (Partition.write Profile.debug (mock_flash 32 8) right_half 0 (0 ∷ [])).1.storage.content
      15
      0
    ≡ get_or used.content 15 0
write_isolated_example =
    write_isolated Profile.debug 32 8 right_half 0 (0 ∷ []) 15 right_half-IsValid (omega arith)
      (inl (omega arith))

erase_isolated_example :
    get_or (Partition.erase Profile.debug (mock_flash 32 8) right_half 0 8).1.storage.content 15 0
    ≡ get_or used.content 15 0
erase_isolated_example =
    erase_isolated Profile.debug 32 8 right_half 0 8 15 right_half-IsValid (inl (omega arith))

disjoint_partitions_example :
    let flash = mock_flash 32 8 in
    let after = record right_half {
      storage = (Partition.write Profile.debug flash left_half 15 (0 ∷ [])).1.storage;
    } in
    ((Partition.read Profile.debug flash after 0 (0 ∷ 0 ∷ [])).0
      ≡ (Partition.read Profile.debug flash right_half 0 (0 ∷ 0 ∷ [])).0)
    × ((Partition.read Profile.debug flash after 0 (0 ∷ 0 ∷ [])).1
        ≡ (Partition.read Profile.debug flash right_half 0 (0 ∷ 0 ∷ [])).1)
disjoint_partitions_example =
    disjoint_partitions Profile.debug 32 8 left_half right_half 15 (0 ∷ []) 0 (0 ∷ 0 ∷ [])
      (omega arith) right_half-IsValid (inl (omega arith)) refl refl (omega arith) (omega arith)
