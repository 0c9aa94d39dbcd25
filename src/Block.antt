-- ===== src/Block.antt =====
-- src/block.rs: the adapter that serves a block device, such as an SD card, as a flash of bytes.
pub mod Content
pub mod Reading
pub mod Writing
use embedded_overlay.Base.{
  ℕ, zero, suc, ◌+◌, ◌-◌, ◌*◌, ◌/◌, ◌%◌, ◌^◌, min, List, [], ◌∷◌, ◌++◌, take, drop, slice,
  replicate, length, Bool, true, false, ◌&&◌, ◌||◌, ◌==◌, ltb, leb, if◌then◌else◌, Option, none,
  some,
}
use embedded_overlay.Arith.{Profile, as_u32, u32_value, add_u32, mul_u64, checked_add}
use embedded_overlay.Bytes.{copy_at}
use embedded_overlay.Error.{Result, ok, err, panic}
use embedded_overlay.Exec.{Exec, ◌>>=◌, ◌>>◌}
use embedded_overlay.Flash.{Flash}

-- The trait `AsyncBlockDevice`. A call takes the device and returns it changed; a read also returns
-- the caller's buffer, whatever the outcome.
pub record BlockDevice (D E : Type 0) : Type 0 where
  pub read_blocks : D → ℕ → List ℕ → Result E (Unit {0}) × List ℕ × D
  pub write_blocks : D → ℕ → List ℕ → Result E (Unit {0}) × D
  pub num_blocks : D → ℕ

pub data BlockAdapterError (E : Type 0) : Type 0 where
  device : E → BlockAdapterError E
  out_of_bounds invalid_alignment : BlockAdapterError E

pub record BlockDeviceAdapter (D : Type 0) : Type 0 where
  pub device : D
  pub cached_block : Option ℕ
  pub cache : List ℕ

-- The variables of the loop of `read`: `done` is the part of the buffer before `dest`.
pub record Reader (D : Type 0) : Type 0 where
  pub adapter : BlockDeviceAdapter D
  pub offset : ℕ
  pub done : List ℕ
  pub dest : List ℕ

-- The variables of the loop of `write`.
pub record Writer (D : Type 0) : Type 0 where
  pub adapter : BlockDeviceAdapter D
  pub offset : ℕ
  pub src : List ℕ

-- `self.cached_block == Some(block_idx)`
abbrev pub is_cached : Option ℕ → ℕ → Bool
is_cached none block_idx = false
is_cached (some cached) block_idx = cached == block_idx

module _ {D E : Type 0} (profile : Profile) (dev : BlockDevice D E) (block_size : ℕ) where
  unfoldable pub new : D → BlockDeviceAdapter D
  new d = record { device = d; cached_block = none; cache = replicate block_size 0 }

  -- The check of the range of `n` bytes that `read` and `write` begin with.
  unfoldable pub check_range :
      BlockDeviceAdapter D → ℕ → ℕ → Result (BlockAdapterError E) (Unit {0})
  unfolding checked_add mul_u64
  check_range a offset n =
      elim (mul_u64 {E = BlockAdapterError E} profile (dev.num_blocks a.device) block_size) [
        | err e ↦ err e
        | panic ↦ panic
        | ok capacity ↦ elim (checked_add offset (as_u32 n)) [
          | none ↦ err BlockAdapterError.out_of_bounds
          | some requested_end ↦
              if ltb (as_u32 capacity) requested_end
              then err BlockAdapterError.out_of_bounds
              else ok tt
        ]
      ]

  abbrev pub fetched :
      ℕ
      → BlockDeviceAdapter D
      → Result E (Unit {0})
      → List ℕ
      → D
      → Result (BlockAdapterError E) (Unit {0}) × BlockDeviceAdapter D
  fetched block_idx a (ok _) cache' device' =
      (ok tt, record { device = device'; cached_block = some block_idx; cache = cache' })
  fetched block_idx a (err e) cache' device' =
      (err (BlockAdapterError.device e), record a { device = device'; cache = cache' })
  fetched block_idx a panic cache' device' = (panic, record a { device = device'; cache = cache' })

  -- Bring a block into the bounce buffer. A failed read leaves what it put there, under the number of
  -- the block that was there before.
  unfoldable pub fetch : ℕ → Exec (BlockDeviceAdapter D) (BlockAdapterError E) (Unit {0})
  fetch block_idx a =
      if is_cached a.cached_block block_idx
      then (ok tt, a)
      else let (r, cache', device') = dev.read_blocks a.device block_idx a.cache in
        fetched block_idx a r cache' device'

  -- `bytes` were put at the start of `dest`: `offset += n; dest = &mut dest[n..]`.
  unfoldable pub received : ℕ → List ℕ → Exec (Reader D) (BlockAdapterError E) (Unit {0})
  unfolding u32_value
  received n bytes s = elim (add_u32 {E = BlockAdapterError E} profile s.offset (as_u32 n)) [
    | ok offset' ↦
        (ok tt, record s { offset = offset'; done = s.done ++ bytes; dest = drop n s.dest })
    | err e ↦ (err e, record s { dest = bytes ++ drop n s.dest })
    | panic ↦ (panic, record s { dest = bytes ++ drop n s.dest })
  ]

  abbrev pub after_read :
      ℕ
      → Reader D
      → Result E (Unit {0})
      → List ℕ
      → D
      → Result (BlockAdapterError E) (Unit {0}) × Reader D
  after_read n s (ok _) bytes device' =
      received n bytes (record s { adapter = record s.adapter { device = device' } })
  after_read n s (err e) bytes device' = (
    err (BlockAdapterError.device e),
    record s { adapter = record s.adapter { device = device' }; dest = bytes ++ drop n s.dest },
  )
  after_read n s panic bytes device' = (
    panic,
    record s { adapter = record s.adapter { device = device' }; dest = bytes ++ drop n s.dest },
  )

  -- Whole blocks, into the caller's buffer.
  unfoldable pub read_direct : ℕ → Exec (Reader D) (BlockAdapterError E) (Unit {0})
  unfolding received
  read_direct block_idx s =
      let bytes_to_read = length s.dest / block_size * block_size in
      let (r, bytes, device') =
        dev.read_blocks s.adapter.device block_idx (take bytes_to_read s.dest) in
      after_read bytes_to_read s r bytes device'

  abbrev pub after_fetch :
      ℕ
      → Reader D
      → Result (BlockAdapterError E) (Unit {0})
      → BlockDeviceAdapter D
      → Result (BlockAdapterError E) (Unit {0}) × Reader D
  after_fetch block_offset s (ok _) adapter' =
      let chunk_len = min (length s.dest) (block_size - block_offset) in
      received chunk_len (slice block_offset chunk_len adapter'.cache)
        (record s { adapter = adapter' })
  after_fetch block_offset s (err e) adapter' = (err e, record s { adapter = adapter' })
  after_fetch block_offset s panic adapter' = (panic, record s { adapter = adapter' })

  -- A part of a block, through the bounce buffer.
  unfoldable pub read_bounced : ℕ → ℕ → Exec (Reader D) (BlockAdapterError E) (Unit {0})
  unfolding fetch received
  read_bounced block_idx block_offset s =
      let (r, adapter') = fetch block_idx s.adapter in after_fetch block_offset s r adapter'

  -- The body of the loop of `read`; a division by zero panics.
  unfoldable pub read_step : Exec (Reader D) (BlockAdapterError E) (Unit {0})
  unfolding read_direct read_bounced
  read_step s =
      let size = as_u32 block_size in
      if size == 0
      then (panic, s)
      else if s.offset % size == 0 && leb block_size (length s.dest)
      then read_direct (s.offset / size) s
      else read_bounced (s.offset / size) (s.offset % size) s

  -- The loop, for at most `n` rounds; with none left it would panic.
  unfoldable pub read_loop : ℕ → Exec (Reader D) (BlockAdapterError E) (Unit {0})
  read_loop zero s = (panic, s)
  read_loop (suc n) s = elim s.dest [ [] ↦ (ok tt, s) | _ ∷ _ ↦ (read_step >>= λ _. read_loop n) s ]

  unfoldable pub read :
      BlockDeviceAdapter D
      → ℕ
      → List ℕ
      → Result (BlockAdapterError E) (Unit {0}) × List ℕ × BlockDeviceAdapter D
  unfolding check_range read_loop
  read a offset dest = elim (check_range a offset (length dest)) [
    | err e ↦ (err e, dest, a)
    | panic ↦ (panic, dest, a)
    | ok _ ↦
        let (r, s') =
          read_loop (suc (length dest))
            (record { adapter = a; offset = offset; done = []; dest = dest }) in
        (r, s'.done ++ s'.dest, s'.adapter)
  ]

  unfoldable pub erase :
      BlockDeviceAdapter D → ℕ → ℕ → Result (BlockAdapterError E) (Unit {0}) × BlockDeviceAdapter D
  unfolding mul_u64
  erase a from to =
      if ltb to from
      then (err BlockAdapterError.out_of_bounds, a)
      else elim (mul_u64 {E = BlockAdapterError E} profile (dev.num_blocks a.device) block_size) [
        | err e ↦ (err e, a)
        | panic ↦ (panic, a)
        | ok capacity ↦
            if ltb capacity to then (err BlockAdapterError.out_of_bounds, a) else (ok tt, a)
      ]

  -- `offset += n; src = &src[n..]`
  unfoldable pub sent : ℕ → Exec (Writer D) (BlockAdapterError E) (Unit {0})
  unfolding u32_value
  sent n s = elim (add_u32 {E = BlockAdapterError E} profile s.offset (as_u32 n)) [
    | ok offset' ↦ (ok tt, record s { offset = offset'; src = drop n s.src })
    | err e ↦ (err e, s)
    | panic ↦ (panic, s)
  ]

  -- The cached block after `whole_blocks` blocks were written from `block_idx` on.
  unfoldable pub still_cached : ℕ → ℕ → Option ℕ → Result (BlockAdapterError E) (Option ℕ)
  unfolding u32_value
  still_cached block_idx whole_blocks none = ok none
  still_cached block_idx whole_blocks (some cached) =
      if leb block_idx cached
      then elim (add_u32 {E = BlockAdapterError E} profile block_idx (as_u32 whole_blocks)) [
        | err e ↦ err e
        | panic ↦ panic
        | ok end_idx ↦ ok (if ltb cached end_idx then none else some cached)
      ]
      else ok (some cached)

  abbrev pub after_write :
      ℕ
      → ℕ
      → Writer D
      → Result E (Unit {0})
      → D
      → Result (BlockAdapterError E) (Unit {0}) × Writer D
  after_write block_idx whole_blocks s (err e) device' = (
    err (BlockAdapterError.device e),
    record s { adapter = record s.adapter { device = device' } },
  )
  after_write block_idx whole_blocks s panic device' =
      (panic, record s { adapter = record s.adapter { device = device' } })
  after_write block_idx whole_blocks s (ok _) device' =
      let a' = record s.adapter { device = device' } in
      elim (still_cached block_idx whole_blocks a'.cached_block) [
        | err e ↦ (err e, record s { adapter = a' })
        | panic ↦ (panic, record s { adapter = a' })
        | ok cached ↦
            sent (whole_blocks * block_size)
              (record s { adapter = record a' { cached_block = cached } })
      ]

  -- Whole blocks, from the caller's buffer.
  unfoldable pub write_direct : ℕ → Exec (Writer D) (BlockAdapterError E) (Unit {0})
  unfolding sent still_cached
  write_direct block_idx s =
      let whole_blocks = length s.src / block_size in
      let bytes = take (whole_blocks * block_size) s.src in
      let (r, device') = dev.write_blocks s.adapter.device block_idx bytes in
      after_write block_idx whole_blocks s r device'

  -- After the changed block was written back.
  abbrev pub after_write_back :
      ℕ → Writer D → Result E (Unit {0}) → D → Result (BlockAdapterError E) (Unit {0}) × Writer D
  after_write_back n s (ok _) device' =
      sent n (record s { adapter = record s.adapter { device = device' } })
  after_write_back n s (err e) device' = (
    err (BlockAdapterError.device e),
    record s { adapter = record s.adapter { device = device' } },
  )
  after_write_back n s panic device' =
      (panic, record s { adapter = record s.adapter { device = device' } })

  abbrev pub change :
      ℕ
      → ℕ
      → Writer D
      → Result (BlockAdapterError E) (Unit {0})
      → BlockDeviceAdapter D
      → Result (BlockAdapterError E) (Unit {0}) × Writer D
  change block_idx block_offset s (err e) a' = (err e, record s { adapter = a' })
  change block_idx block_offset s panic a' = (panic, record s { adapter = a' })
  change block_idx block_offset s (ok _) a' =
      let chunk_len = min (length s.src) (block_size - block_offset) in
      let cache' = copy_at block_offset (take chunk_len s.src) a'.cache in
      let (r, device') = dev.write_blocks a'.device block_idx cache' in
      after_write_back chunk_len (record s { adapter = record a' { cache = cache' } }) r device'

  -- A part of a block: the block is read, changed and written back.
  unfoldable pub write_bounced : ℕ → ℕ → Exec (Writer D) (BlockAdapterError E) (Unit {0})
  unfolding fetch sent copy_at
  write_bounced block_idx block_offset s =
      let (r, a') = fetch block_idx s.adapter in change block_idx block_offset s r a'

  unfoldable pub write_step : Exec (Writer D) (BlockAdapterError E) (Unit {0})
  unfolding write_direct write_bounced
  write_step s =
      let size = as_u32 block_size in
      if size == 0
      then (panic, s)
      else if s.offset % size == 0 && leb block_size (length s.src)
      then write_direct (s.offset / size) s
      else write_bounced (s.offset / size) (s.offset % size) s

  unfoldable pub write_loop : ℕ → Exec (Writer D) (BlockAdapterError E) (Unit {0})
  write_loop zero s = (panic, s)
  write_loop (suc n) s = elim s.src [
    | [] ↦ (ok tt, s)
    | _ ∷ _ ↦ (write_step >>= λ _. write_loop n) s
  ]

  unfoldable pub write :
      BlockDeviceAdapter D
      → ℕ
      → List ℕ
      → Result (BlockAdapterError E) (Unit {0}) × BlockDeviceAdapter D
  unfolding check_range write_loop
  write a offset src = elim (check_range a offset (length src)) [
    | err e ↦ (err e, a)
    | panic ↦ (panic, a)
    | ok _ ↦
        let (r, s') =
          write_loop (suc (length src)) (record { adapter = a; offset = offset; src = src }) in
        (r, s'.adapter)
  ]

  unfoldable pub block_flash : Flash (BlockDeviceAdapter D) (BlockAdapterError E)
  unfolding read write erase
  block_flash = record {
    read = read;
    capacity = λ a. dev.num_blocks a.device * block_size % 2 ^ 32;
    erase = erase;
    write = write;
  }
