-- ===== src/Block/Writing.antt =====
-- src/block.rs: a write through the adapter, and the bounce buffer after it.
use embedded_overlay.Base.{
  ℕ, zero, suc, ◌+◌, ◌-◌, ◌*◌, ◌/◌, ◌%◌, ◌^◌, ◌≤◌, ◌<◌, min, List, take, drop, slice, length,
  Option, none, some, false, ◌&&◌, ◌==◌, leb, ltb, Bool-cases, inl, inr, length-take, length-drop,
  List-cases, take-append-drop_same, ◌≡◌, refl, sym, ap, ◌∙◌, arith,
}
use mathlib.Core.Path.{subst}
use native.Mathlib.Nat.{
  div-add-mod', mod-lt, div-mul-le_self, lt-div-mul-add, mul-le-mul_right, le-mul_of_pos_right,
}
use embedded_overlay.Arith.{Profile, as_u32, u32_value_lem}
use embedded_overlay.Bytes.{copy_at}
use embedded_overlay.Bytes.Copy.{
  length-copy_at, slice-copy_at, copy_at_nil, slice-copy_at_before, slice-copy_at_after,
  copy_at-append, copy_at-slice,
}
use embedded_overlay.Block.{
  BlockDevice, BlockDeviceAdapter, BlockAdapterError, Writer, sent, still_cached, write_direct,
  write_bounced, write_step, write_loop, write, after_write, after_write_back, change,
}
use embedded_overlay.Block.Content.{
  Backs, HoldsBehind, Caches, block_inside, fetch_lem, check_range_lem,
}
use embedded_overlay.Error.{ok}
use embedded_overlay.Exec.{Exec, >>=-ok}

module _ {D E : Type 0} (profile : Profile) (dev : BlockDevice D E) (block_size : ℕ)
    (Holds : List ℕ → D → Type 0) (backs : Backs dev block_size Holds) (pos : 0 < block_size)
    (word : block_size < 2 ^ 32) where
  -- `s` is a state of the loop on a device that holds `image`, whose bytes fit there.
  record IsWriting (image : List ℕ) (s : Writer D) : Type 0 where
    behind : HoldsBehind block_size Holds image s.adapter
    inside : s.offset + length s.src ≤ length image
    image_word : length image < 2 ^ 32

  abbrev advanced : ℕ → Writer D → BlockDeviceAdapter D → Writer D
  advanced n s a' = record { adapter = a'; offset = s.offset + n; src = drop n s.src }

  -- A step writes bytes of the source into the image, one at least.
  record Advances (image : List ℕ) (step : Exec (Writer D) (BlockAdapterError E) (Unit {0}))
      (s : Writer D) : Type 0 where
    count : ℕ
    adapter' : BlockDeviceAdapter D
    some_written : 0 < count
    whole : count ≤ length s.src
    behind : HoldsBehind block_size Holds (copy_at s.offset (take count s.src) image) adapter'
    result : step s ≡ (ok tt, advanced count s adapter')

  sent_lem :
      (s : Writer D) (n : ℕ)
      → s.offset + n < 2 ^ 32
      → sent profile dev block_size n s
        ≡ (ok tt, record s { offset = s.offset + n; src = drop n s.src })
  unfolding sent
  sent_lem s n h =
      let same : as_u32 n ≡ n = omega arith in
      let e = u32_value_lem {E = BlockAdapterError E} profile (s.offset + n) h in
      rw (sent, same) (rw e refl)

  -- The cached block that `still_cached` keeps was not overwritten.
  still_cached_lem :
      (k blocks : ℕ) (cached : Option ℕ) (cache bytes image : List ℕ)
      → length bytes ≡ blocks * block_size
      → k * block_size + length bytes ≤ length image
      → length image < 2 ^ 32
      → Caches block_size image cached cache
      → (cached' : Option ℕ) × (still_cached profile dev block_size k blocks cached ≡ ok cached')
        × Caches block_size (copy_at (k * block_size) bytes image) cached' cache
  unfolding still_cached
  still_cached_lem k blocks none cache bytes image size inside small h = (none, refl, tt)
  still_cached_lem k blocks (some c) cache bytes image size inside small h =
      elim (Bool-cases (leb k c)) [
        | inr before ↦
            let up : suc c ≤ k = ground arith in
            let apart : c * block_size + block_size ≤ k * block_size =
              omega (arith, mul-le-mul_right block_size up) in
            (
              some c,
              rw before refl,
              (
                h.0
                    ∙ sym (
                        slice-copy_at_before (c * block_size) block_size (k * block_size) bytes
                          image apart),
                omega (arith, h.1, length-copy_at (k * block_size) bytes image),
              ),
            )
        | inl from ↦
            let k_small : k ≤ k * block_size = le-mul_of_pos_right k pos in
            let blocks_small : blocks ≤ blocks * block_size = le-mul_of_pos_right blocks pos in
            let same : as_u32 blocks ≡ blocks = omega arith in
            let e = u32_value_lem {E = BlockAdapterError E} profile (k + blocks) (omega arith) in
            elim (Bool-cases (ltb c (k + blocks))) [
              | inl over ↦ (none, rw (from, same) (rw e (rw over refl)), tt)
              | inr past ↦
                  let up : k + blocks ≤ c = ground arith in
                  let apart : k * block_size + length bytes ≤ c * block_size =
                    omega (arith, mul-le-mul_right block_size up) in
                  (
                    some c,
                    rw (from, same) (rw e (rw past refl)),
                    (
                      h.0
                          ∙ sym (
                              slice-copy_at_after (c * block_size) block_size (k * block_size) bytes
                                image apart),
                      omega (arith, h.1, length-copy_at (k * block_size) bytes image),
                    ),
                  )
            ]
      ]

  after_write_lem :
      (k blocks : ℕ) (s : Writer D) (d' : D) (cached' : Option ℕ)
      → still_cached profile dev block_size k blocks s.adapter.cached_block ≡ ok cached'
      → after_write profile dev block_size k blocks s (ok tt) d'
        ≡ sent profile dev block_size
            (blocks * block_size)
            (record s { adapter = record s.adapter { device = d'; cached_block = cached' } })
  after_write_lem k blocks s d' cached' e = rw (after_write, e) refl

  direct_lem :
      (image : List ℕ) (s : Writer D)
      → IsWriting image s
      → s.offset % block_size ≡ 0
      → block_size ≤ length s.src
      → Advances image (write_direct profile dev block_size (s.offset / block_size)) s
  unfolding write_direct
  direct_lem image s h aligned long =
      let k = s.offset / block_size in
      let blocks = length s.src / block_size in
      let n = blocks * block_size in
      let bytes = take n s.src in
      let whole : n ≤ length s.src = div-mul-le_self (length s.src) block_size in
      let some_written : 0 < n = omega (arith, lt-div-mul-add {a = length s.src} pos) in
      let start : k * block_size ≡ s.offset = omega (arith, div-add-mod' s.offset block_size) in
      let taken : length bytes ≡ n = omega (arith, length-take n s.src) in
      let fits : k * block_size + length bytes ≤ length image = omega (arith, h.inside) in
      let (d', e, below) =
        backs.write_lem image s.adapter.device k blocks bytes h.behind.below taken fits in
      let (cached', e', caches) =
        still_cached_lem k blocks s.adapter.cached_block s.adapter.cache bytes image taken fits
          h.image_word h.behind.caches in
      let a' = record s.adapter { device = d'; cached_block = cached' } in
      let behind : HoldsBehind block_size Holds (copy_at (k * block_size) bytes image) a' = record {
        below = below;
        room = h.behind.room;
        caches = caches;
      } in
      record {
        count = n;
        adapter' = a';
        some_written = some_written;
        whole = whole;
        behind = subst (λ o. HoldsBehind block_size Holds (copy_at o bytes image) a') start behind;
        result =
            ap (λ (r, d). after_write profile dev block_size k blocks s r d) e
            ∙ after_write_lem k blocks s d' cached' e'
            ∙ sent_lem (record s { adapter = a' }) n (omega (arith, h.inside, h.image_word));
      }

  bounced_lem :
      (image : List ℕ) (s : Writer D)
      → IsWriting image s
      → 0 < length s.src
      → Advances image
          (write_bounced profile dev block_size (s.offset / block_size) (s.offset % block_size))
          s
  unfolding write_bounced
  bounced_lem image s h more =
      let k = s.offset / block_size in
      let within = s.offset % block_size in
      let n = min (length s.src) (block_size - within) in
      let bytes = take n s.src in
      let start : k * block_size + within ≡ s.offset = div-add-mod' s.offset block_size in
      let small : within < block_size = mod-lt s.offset pos in
      let taken : length bytes ≡ n = omega (arith, length-take n s.src) in
      let blocks = backs.num_blocks_lem image s.adapter.device h.behind.below in
      let inside : k * block_size + block_size ≤ length image =
        block_inside s.offset block_size (dev.num_blocks s.adapter.device) (length image) pos blocks
          (omega (arith, h.inside)) in
      let (a', e, behind, content, here) =
        fetch_lem profile dev block_size Holds backs image s.adapter k h.behind inside in
      let cache' = copy_at within bytes a'.cache in
      let room : length cache' ≡ block_size = length-copy_at within bytes a'.cache ∙ behind.room in
      let one : length cache' ≡ 1 * block_size = omega (arith, room) in
      let fits : k * block_size + length cache' ≤ length image = omega (arith, room) in
      let (d', e', below) = backs.write_lem image a'.device k 1 cache' behind.below one fits in
      let image' = copy_at (k * block_size) cache' image in
      let same : image' ≡ copy_at s.offset bytes image =
        ap (λ t. copy_at (k * block_size) (copy_at within bytes t) image) content
        ∙ copy_at-slice (k * block_size) within block_size bytes image (omega arith) inside
        ∙ ap (λ o. copy_at o bytes image) start in
      let known : cache' ≡ slice (k * block_size) block_size image' =
        sym (slice-copy_at (k * block_size) cache' image fits)
        ∙ ap (λ m. slice (k * block_size) m image') room in
      let a'' = record a' { device = d'; cache = cache' } in
      let caches : Caches block_size image' a'.cached_block cache' =
        subst (λ c. Caches block_size image' c cache') (sym here)
          (known, omega (arith, length-copy_at (k * block_size) cache' image)) in
      let behind' : HoldsBehind block_size Holds image' a'' = record {
        below = below;
        room = room;
        caches = caches;
      } in
      record {
        count = n;
        adapter' = a'';
        some_written = omega arith;
        whole = omega arith;
        behind = subst (λ i. HoldsBehind block_size Holds i a'') same behind';
        result =
            ap (λ (r, t). change profile dev block_size k within s r t) e
            ∙ ap
                (λ (r, d).
                  after_write_back profile dev block_size n
                    (record s { adapter = record a' { cache = cache' } }) r d)
                e'
            ∙ sent_lem (record s { adapter = a'' }) n (omega (arith, h.inside, h.image_word));
      }

  step_lem :
      (image : List ℕ) (s : Writer D)
      → IsWriting image s
      → 0 < length s.src
      → Advances image (write_step profile dev block_size) s
  unfolding write_step
  step_lem image s h more =
      elim (Bool-cases (s.offset % block_size == 0 && leb block_size (length s.src))) [
        | inl direct ↦
            let aligned : s.offset % block_size ≡ 0 = ground arith in
            let long : block_size ≤ length s.src = ground arith in
            step_of (direct_lem image s h aligned long)
              (rw (write_step, size) (rw not_zero (rw direct refl)))
        | inr part ↦
            step_of (bounced_lem image s h more)
              (rw (write_step, size) (rw not_zero (rw part refl)))
      ]
    where
      size : as_u32 block_size ≡ block_size
      size = omega arith

      not_zero : (block_size == 0) ≡ false
      not_zero = ground arith

      step_of :
          {step : Exec (Writer D) (BlockAdapterError E) (Unit {0})}
          → Advances image step s
          → write_step profile dev block_size s ≡ step s
          → Advances image (write_step profile dev block_size) s
      step_of adv e = record {
        count = adv.count;
        adapter' = adv.adapter';
        some_written = adv.some_written;
        whole = adv.whole;
        behind = adv.behind;
        result = e ∙ adv.result;
      }

  -- The loop puts the source into the image, given a round for each of its bytes and one more.
  loop_lem :
      (n : ℕ) (image : List ℕ) (s : Writer D)
      → IsWriting image s
      → length s.src < n
      → (t : Writer D) × HoldsBehind block_size Holds (copy_at s.offset s.src image) t.adapter
        × (write_loop profile dev block_size n s ≡ (ok tt, t))
  unfolding write_loop copy_at
  loop_lem zero image s h lt = absurd (omega arith)
  loop_lem (suc n) image s h lt = elim (List-cases s.src) [
    | inl empty ↦ (
      s,
      subst (λ i. HoldsBehind block_size Holds i s.adapter)
          (sym (ap (λ t. copy_at s.offset t image) empty ∙ copy_at_nil s.offset image)) h.behind,
      rw empty refl,
    )
    | inr (x, rest, e) ↦
        let more : 0 < length s.src = omega (arith, ap length e) in
        let adv = step_lem image s h more in
        let s' = advanced adv.count s adv.adapter' in
        let bytes = take adv.count s.src in
        let image' = copy_at s.offset bytes image in
        let taken : length bytes ≡ adv.count =
          omega (arith, length-take adv.count s.src, adv.whole) in
        let left : length s'.src ≡ length s.src - adv.count = length-drop adv.count s.src in
        let kept : length image' ≡ length image = length-copy_at s.offset bytes image in
        let inside : s'.offset + length s'.src ≤ length image' =
          omega (arith, h.inside, left, adv.whole, kept) in
        let (t, behind, looped) =
          loop_lem n image' s'
            (record {
              behind = adv.behind;
              inside = inside;
              image_word = omega (arith, kept, h.image_word);
            })
            (omega (arith, left, adv.some_written, adv.whole)) in
        let same : copy_at (s.offset + adv.count) (drop adv.count s.src) image'
            ≡ copy_at s.offset s.src image =
          ap (λ m. copy_at (s.offset + m) (drop adv.count s.src) image') (sym taken)
          ∙ copy_at-append s.offset bytes (drop adv.count s.src) image
          ∙ ap (λ b. copy_at s.offset b image) (take-append-drop_same adv.count s.src) in
        (
          t,
          subst (λ i. HoldsBehind block_size Holds i t.adapter) same behind,
          rw e refl
              ∙ >>=-ok (write_step profile dev block_size)
                  (λ _. write_loop profile dev block_size n) s adv.result
              ∙ looped,
        )
  ]

  -- On a device that reads and writes its blocks without errors, of at least one and fewer than 2^32
  -- bytes each, and holds an image shorter than 2^32 bytes, a write of a range inside the image, by an
  -- adapter whose bounce buffer agrees with the image, succeeds: then the device holds the image with
  -- the bytes there and all others as before, and the bounce buffer agrees with it.
  pub write-HoldsBehind :
      (image : List ℕ) (a : BlockDeviceAdapter D) (offset : ℕ) (src : List ℕ)
      → HoldsBehind block_size Holds image a
      → length image < 2 ^ 32
      → offset + length src ≤ length image
      → (a' : BlockDeviceAdapter D) × (write profile dev block_size a offset src ≡ (ok tt, a'))
        × HoldsBehind block_size Holds (copy_at offset src image) a'
  unfolding write
  write-HoldsBehind image a offset src h small inside =
      let s : Writer D = record { adapter = a; offset = offset; src = src } in
      let (t, behind, e) =
        loop_lem (suc (length src)) image s
          (record { behind = h; inside = inside; image_word = small }) (omega arith) in
      let in_range =
        check_range_lem profile dev block_size Holds backs image a offset (length src) h small
          inside in
      (t.adapter, rw (write, in_range) (ap (λ (r, t). (r, t.adapter)) e), behind)
