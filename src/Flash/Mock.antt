-- ===== src/Flash/Mock.antt =====
-- src/mock.rs: the simulated NOR flash. The async and the blocking traits have the same bodies.
pub mod Laws
use embedded_overlay.Base.{
  ℕ, zero, suc, ◌+◌, ◌-◌, ◌%◌, List, [], ◌∷◌, not, ◌||◌, ◌==◌, ltb, if◌then◌else◌, length,
  replicate, get_or, set, slice, bit_and,
}
use embedded_overlay.Error.{Result, ok, err, panic}
use embedded_overlay.Flash.{Flash}

pub data MockFlashError : Type 0 where
  out_of_bounds not_aligned : MockFlashError

pub record MockFlash : Type 0 where
  pub content : List ℕ

-- The loop of `write`, from the byte `at` on: bits can only be cleared.
unfoldable pub clear_bits : ℕ → List ℕ → List ℕ → List ℕ
clear_bits at [] content = content
clear_bits at (b ∷ bytes) content =
    clear_bits (at + 1) bytes (set content at (bit_and (get_or content at 0) b))

-- `content[at..at + n].fill(0xFF)`
unfoldable pub fill : ℕ → ℕ → List ℕ → List ℕ
fill at zero content = content
fill at (suc n) content = fill (at + 1) n (set content at 0xFF)

module _ (capacity erase_size : ℕ) where
  unfoldable pub new : MockFlash
  new = record { content = replicate capacity 0xFF }

  unfoldable pub read :
      MockFlash → ℕ → List ℕ → Result MockFlashError (Unit {0}) × List ℕ × MockFlash
  read s offset bytes =
      if ltb capacity (offset + length bytes)
      then (err out_of_bounds, bytes, s)
      else (ok tt, slice offset (length bytes) s.content, s)

  -- A remainder by zero panics.
  unfoldable pub erase : MockFlash → ℕ → ℕ → Result MockFlashError (Unit {0}) × MockFlash
  erase s from to =
      if ltb capacity to || ltb to from
      then (err out_of_bounds, s)
      else if erase_size == 0
      then (panic, s)
      else if not (from % erase_size == 0) || not (to % erase_size == 0)
      then (err not_aligned, s)
      else (ok tt, record { content = fill from (to - from) s.content })

  unfoldable pub write : MockFlash → ℕ → List ℕ → Result MockFlashError (Unit {0}) × MockFlash
  write s offset bytes =
      if ltb capacity (offset + length bytes)
      then (err out_of_bounds, s)
      else (ok tt, record { content = clear_bits offset bytes s.content })

  unfoldable pub mock_flash : Flash MockFlash MockFlashError
  unfolding read erase write
  mock_flash = record { read = read; capacity = λ s. capacity; erase = erase; write = write }
