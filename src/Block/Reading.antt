-- ===== src/Block/Reading.antt =====
-- src/block.rs: the adapter over a device that holds an image serves the image.
use embedded_overlay.Base.{
  slice-append, slice-slice, ℕ, zero, suc, ◌+◌, ◌-◌, ◌*◌, ◌/◌, ◌%◌, ◌^◌, ◌≤◌, ◌<◌, min, List, [],
  ◌++◌, take, drop, slice, length, false, ◌&&◌, ◌==◌, leb, Bool-cases, inl, inr, length-take,
  length-drop, append_assoc, List-cases, drop_length, ◌≡◌, refl, sym, ap, ◌∙◌, arith,
}
use mathlib.Core.Path.{ap₂}
use mathlib.Core.List.{append-nil}
use native.Mathlib.Nat.{div-add-mod', mod-lt, div-mul-le_self, lt-div-mul-add}
use embedded_overlay.Arith.{Profile, as_u32, u32_value_lem}
use embedded_overlay.Block.{
  BlockDevice, BlockDeviceAdapter, BlockAdapterError, Reader, received, read_direct, read_bounced,
  read_step, read_loop, read, block_flash, after_read, after_fetch,
}
use embedded_overlay.Block.Content.{Backs, HoldsBehind, block_inside, fetch_lem, check_range_lem}
use embedded_overlay.Error.{ok}
use embedded_overlay.Flash.{Serves}
use embedded_overlay.Exec.{Exec, >>=-ok}

module _ {D E : Type 0} (profile : Profile) (dev : BlockDevice D E) (block_size : ℕ)
    (Holds : List ℕ → D → Type 0) (backs : Backs dev block_size Holds) (pos : 0 < block_size)
    (word : block_size < 2 ^ 32) (image : List ℕ) (image_word : length image < 2 ^ 32) where
  -- `s` is a state of the loop whose destination lies in the image.
  record IsReading (s : Reader D) : Type 0 where
    behind : HoldsBehind block_size Holds image s.adapter
    inside : s.offset + length s.dest ≤ length image

  -- The state after `n` bytes.
  abbrev advanced : ℕ → Reader D → BlockDeviceAdapter D → Reader D
  advanced n s a' = record {
    adapter = a';
    offset = s.offset + n;
    done = s.done ++ slice s.offset n image;
    dest = drop n s.dest;
  }

  received_lem :
      (s : Reader D) (n : ℕ) (bytes : List ℕ)
      → s.offset + n < 2 ^ 32
      → received profile dev block_size n bytes s
        ≡ (ok tt, record s { offset = s.offset + n; done = s.done ++ bytes; dest = drop n s.dest })
  unfolding received
  received_lem s n bytes h =
      let same : as_u32 n ≡ n = omega arith in
      let e = u32_value_lem {E = BlockAdapterError E} profile (s.offset + n) h in
      rw (received, same) (rw e refl)

  -- A step puts bytes of the image into the destination, one at least.
  record Advances (step : Exec (Reader D) (BlockAdapterError E) (Unit {0})) (s : Reader D)
      : Type 0 where
    count : ℕ
    adapter' : BlockDeviceAdapter D
    some_read : 0 < count
    whole : count ≤ length s.dest
    behind : HoldsBehind block_size Holds image adapter'
    result : step s ≡ (ok tt, advanced count s adapter')

  direct_lem :
      (s : Reader D)
      → IsReading s
      → s.offset % block_size ≡ 0
      → block_size ≤ length s.dest
      → Advances (read_direct profile dev block_size (s.offset / block_size)) s
  unfolding read_direct
  direct_lem s h aligned long =
      let n = length s.dest / block_size * block_size in
      let whole : n ≤ length s.dest = div-mul-le_self (length s.dest) block_size in
      let some_read : 0 < n = omega (arith, lt-div-mul-add {a = length s.dest} pos) in
      let start : s.offset / block_size * block_size ≡ s.offset =
        omega (arith, div-add-mod' s.offset block_size) in
      let taken : length (take n s.dest) ≡ n = omega (arith, length-take n s.dest) in
      let fits : s.offset / block_size * block_size + length (take n s.dest) ≤ length image =
        omega (arith, h.inside) in
      let (d', e, below) =
        backs.read_lem image s.adapter.device (s.offset / block_size) (length s.dest / block_size)
          (take n s.dest) h.behind.below taken fits in
      let same : slice (s.offset / block_size * block_size) (length (take n s.dest)) image
          ≡ slice s.offset n image =
        rw (start, taken) refl in
      record {
        count = n;
        adapter' = record s.adapter { device = d' };
        some_read = some_read;
        whole = whole;
        behind = record { below = below; room = h.behind.room; caches = h.behind.caches };
        result =
            ap (λ (r, c, d). after_read profile dev block_size n s r c d)
              (e ∙ ap (λ t. (ok tt, t, d')) same)
            ∙ received_lem (record s { adapter = record s.adapter { device = d' } }) n
                (slice s.offset n image) (omega (arith, h.inside));
      }

  bounced_lem :
      (s : Reader D)
      → IsReading s
      → 0 < length s.dest
      → Advances
          (read_bounced profile dev block_size (s.offset / block_size) (s.offset % block_size))
          s
  unfolding read_bounced
  bounced_lem s h more =
      let within = s.offset % block_size in
      let n = min (length s.dest) (block_size - within) in
      let start : s.offset / block_size * block_size + within ≡ s.offset =
        div-add-mod' s.offset block_size in
      let small : within < block_size = mod-lt s.offset pos in
      let blocks = backs.num_blocks_lem image s.adapter.device h.behind.below in
      let inside =
        block_inside s.offset block_size (dev.num_blocks s.adapter.device) (length image) pos blocks
          (omega (arith, h.inside)) in
      let (a', e, behind, content, here) =
        fetch_lem profile dev block_size Holds backs image s.adapter (s.offset / block_size)
          h.behind inside in
      let same : slice within n a'.cache ≡ slice s.offset n image =
        ap (slice within n) content
        ∙ slice-slice (s.offset / block_size * block_size) block_size within n image (omega arith)
        ∙ ap (λ o. slice o n image) start in
      record {
        count = n;
        adapter' = a';
        some_read = omega arith;
        whole = omega arith;
        behind = behind;
        result =
            ap (λ (r, t). after_fetch profile dev block_size within s r t) e
            ∙ received_lem (record s { adapter = a' }) n (slice within n a'.cache)
                (omega (arith, h.inside))
            ∙ ap
                (λ t. (
                  ok tt,
                  record {
                    adapter = a';
                    offset = s.offset + n;
                    done = s.done ++ t;
                    dest = drop n s.dest;
                  },
                ))
                same;
      }

  step_lem :
      (s : Reader D)
      → IsReading s
      → 0 < length s.dest
      → Advances (read_step profile dev block_size) s
  unfolding read_step
  step_lem s h more =
      elim (Bool-cases (s.offset % block_size == 0 && leb block_size (length s.dest))) [
        | inl direct ↦
            let aligned : s.offset % block_size ≡ 0 = ground arith in
            let long : block_size ≤ length s.dest = ground arith in
            step_of (direct_lem s h aligned long)
              (rw (read_step, size) (rw not_zero (rw direct refl)))
        | inr part ↦
            step_of (bounced_lem s h more) (rw (read_step, size) (rw not_zero (rw part refl)))
      ]
    where
      size : as_u32 block_size ≡ block_size
      size = omega arith

      not_zero : (block_size == 0) ≡ false
      not_zero = ground arith

      step_of :
          {step : Exec (Reader D) (BlockAdapterError E) (Unit {0})}
          → Advances step s
          → read_step profile dev block_size s ≡ step s
          → Advances (read_step profile dev block_size) s
      step_of adv e = record {
        count = adv.count;
        adapter' = adv.adapter';
        some_read = adv.some_read;
        whole = adv.whole;
        behind = adv.behind;
        result = e ∙ adv.result;
      }

  -- The loop fills the destination from the image, given a round for each of its bytes and one more.
  loop_lem :
      (n : ℕ) (s : Reader D)
      → IsReading s
      → length s.dest < n
      → (a' : BlockDeviceAdapter D) × HoldsBehind block_size Holds image a'
        × (read_loop profile dev block_size n s ≡ (ok tt, advanced (length s.dest) s a'))
  unfolding read_loop
  loop_lem zero s h lt = absurd (omega arith)
  loop_lem (suc n) s h lt = elim (List-cases s.dest) [
    | inl empty ↦
        let none_left : length s.dest ≡ 0 = ap length empty in
        let same : advanced (length s.dest) s s.adapter ≡ s =
          ap (λ k. advanced k s s.adapter) none_left
          ∙ ap₂ (λ o d. record { adapter = s.adapter; offset = o; done = d; dest = s.dest })
              (omega arith) (append-nil s.done) in
        (s.adapter, h.behind, rw empty refl ∙ ap (λ t. (ok tt, t)) (sym same))
    | inr (x, rest, e) ↦
        let more : 0 < length s.dest = omega (arith, ap length e) in
        let adv = step_lem s h more in
        let s' = advanced adv.count s adv.adapter' in
        let left : length s'.dest ≡ length s.dest - adv.count = length-drop adv.count s.dest in
        let inside : s'.offset + length s'.dest ≤ length image =
          omega (arith, h.inside, left, adv.whole) in
        let (a', behind, looped) =
          loop_lem n s' (record { behind = adv.behind; inside = inside })
            (omega (arith, left, adv.some_read, adv.whole)) in
        let total : adv.count + length s'.dest ≡ length s.dest = omega (arith, left, adv.whole) in
        let end : s.offset + adv.count + length s'.dest ≡ s.offset + length s.dest = omega arith in
        let filled : (s.done ++ slice s.offset adv.count image)
              ++ slice (s.offset + adv.count) (length s'.dest) image
            ≡ s.done ++ slice s.offset (length s.dest) image =
          append_assoc s.done (slice s.offset adv.count image)
            (slice (s.offset + adv.count) (length s'.dest) image)
          ∙ ap (λ t. s.done ++ t)
              (slice-append s.offset adv.count (length s'.dest) image
                ∙ ap (λ k. slice s.offset k image) total) in
        (
          a',
          behind,
          rw e refl
              ∙ >>=-ok (read_step profile dev block_size) (λ _. read_loop profile dev block_size n)
                  s adv.result
              ∙ looped
              ∙ ap (λ t. (ok tt, t))
                  (ap₂
                      (λ o d. record {
                        adapter = a';
                        offset = o;
                        done = d;
                        dest = drop (length s'.dest) s'.dest;
                      })
                      end filled
                    ∙ ap
                        (λ r. record {
                          adapter = a';
                          offset = s.offset + length s.dest;
                          done = s.done ++ slice s.offset (length s.dest) image;
                          dest = r;
                        })
                        (drop_length s'.dest ∙ sym (drop_length s.dest))),
        )
  ]

  read_lem :
      (a : BlockDeviceAdapter D) (offset : ℕ) (buf : List ℕ)
      → HoldsBehind block_size Holds image a
      → offset + length buf ≤ length image
      → (a' : BlockDeviceAdapter D) × (read profile dev block_size a offset buf
          ≡ (ok tt, slice offset (length buf) image, a'))
        × HoldsBehind block_size Holds image a'
  unfolding read
  read_lem a offset buf h inside =
      let s : Reader D = record { adapter = a; offset = offset; done = []; dest = buf } in
      let (a', behind, e) =
        loop_lem (suc (length buf)) s (record { behind = h; inside = inside }) (omega arith) in
      let in_range =
        check_range_lem profile dev block_size Holds backs image a offset (length buf) h image_word
          inside in
      let whole : slice offset (length buf) image ++ drop (length buf) buf
          ≡ slice offset (length buf) image =
        ap (λ t. slice offset (length buf) image ++ t) (drop_length buf)
        ∙ append-nil (slice offset (length buf) image) in
      (
        a',
        rw (read, in_range) (ap (λ (r, t). (r, t.done ++ t.dest, t.adapter)) e)
            ∙ ap (λ t. (ok tt, t, a')) whole,
        behind,
      )

  -- The adapter over a device that holds an image, of blocks that make up the image, serves that
  -- image: a read of any range inside it, aligned or not, succeeds, fills the buffer from the
  -- image, and leaves such an adapter, when the image is shorter than 2^32.
  pub block_flash-Serves :
      Serves (block_flash profile dev block_size) image (HoldsBehind block_size Holds image)
  unfolding block_flash
  block_flash-Serves = record { read_lem = read_lem }
