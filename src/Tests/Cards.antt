-- ===== src/Tests/Cards.antt =====
-- src/block.rs on concrete inputs: a card of blocks of 4 bytes that never fails.
use embedded_overlay.Base.{ℕ, ◌*◌, ◌/◌, ◌%◌, List, [], ◌∷◌, length, slice, ◌≡◌, refl, ap, arith}
use embedded_overlay.Arith.{Profile}
use embedded_overlay.Bytes.{copy_at}
use embedded_overlay.Bytes.Copy.{length-copy_at}
use embedded_overlay.Block.{
  BlockDevice, BlockDeviceAdapter, new, read_step, read, write_step, write, block_flash,
}
use embedded_overlay.Block.Content.{Backs, HoldsBehind}
use embedded_overlay.Block.Reading.{block_flash-Serves}
use embedded_overlay.Block.Writing.{write-HoldsBehind}
use embedded_overlay.Error.{ok}
use embedded_overlay.Exec.{◌>>=◌}
use embedded_overlay.Flash.{Serves}

abbrev card : BlockDevice (List ℕ) (Unit {0})
card = record {
  read_blocks = λ d start buf. (ok tt, slice (start * 4) (length buf) d, d);
  write_blocks = λ d start src. (ok tt, copy_at (start * 4) src d);
  num_blocks = λ d. length d / 4;
}

abbrev IsCard : List ℕ → List ℕ → Type 0
IsCard image d = (d ≡ image) × (length d % 4 ≡ 0)

card-Backs : Backs card 4 IsCard
card-Backs = record {
  num_blocks_lem =
      λ image d h. let e : length d ≡ length image = ap length h.0 in omega (arith, h.1);
  read_lem = λ image d start blocks buf h whole fits.
      (d, ap (λ t. (ok tt, slice (start * 4) (length buf) t, d)) h.0, h);
  write_lem = λ image d start blocks src h whole fits. (
    copy_at (start * 4) src d,
    refl,
    (ap (copy_at (start * 4) src) h.0, omega (arith, h.1, length-copy_at (start * 4) src d)),
  );
}

abbrev image : List ℕ
image = 0 ∷ 1 ∷ 2 ∷ 3 ∷ 4 ∷ 5 ∷ 6 ∷ 7 ∷ 8 ∷ 9 ∷ 10 ∷ 11 ∷ []

abbrev adapter : BlockDeviceAdapter (List ℕ)
adapter = new Profile.debug card 4 image

adapter-HoldsBehind : HoldsBehind 4 IsCard image adapter
unfolding new
adapter-HoldsBehind = record { below = (refl, refl); room = refl; caches = tt }

block_flash-Serves_example :
    Serves (block_flash Profile.debug card 4) image (HoldsBehind 4 IsCard image)
block_flash-Serves_example =
    block_flash-Serves Profile.debug card 4 IsCard card-Backs (omega arith) (omega arith) image
      (omega arith)

-- From the middle of one block over a whole one into a third.
read_across :
    (read Profile.debug card 4 adapter 3 (90 ∷ 91 ∷ 92 ∷ 93 ∷ 94 ∷ 95 ∷ 96 ∷ [])).1
    ≡ 3 ∷ 4 ∷ 5 ∷ 6 ∷ 7 ∷ 8 ∷ 9 ∷ []
unfolding read new ◌>>=◌ read_step
read_across = refl

write_across :
    (write Profile.debug card 4 adapter 3 (90 ∷ 91 ∷ 92 ∷ 93 ∷ 94 ∷ 95 ∷ [])).1.device
    ≡ 0 ∷ 1 ∷ 2 ∷ 90 ∷ 91 ∷ 92 ∷ 93 ∷ 94 ∷ 95 ∷ 9 ∷ 10 ∷ 11 ∷ []
unfolding write new ◌>>=◌ write_step
write_across = refl

write-HoldsBehind_example :
    (a' : BlockDeviceAdapter (List ℕ)) × (write Profile.debug card 4 adapter 3
        (90 ∷ 91 ∷ 92 ∷ 93 ∷ 94 ∷ 95 ∷ [])
      ≡ (ok tt, a'))
    × HoldsBehind 4 IsCard (copy_at 3 (90 ∷ 91 ∷ 92 ∷ 93 ∷ 94 ∷ 95 ∷ []) image) a'
write-HoldsBehind_example =
    write-HoldsBehind Profile.debug card 4 IsCard card-Backs (omega arith) (omega arith) image
      adapter 3 (90 ∷ 91 ∷ 92 ∷ 93 ∷ 94 ∷ 95 ∷ []) adapter-HoldsBehind (omega arith) (omega arith)
