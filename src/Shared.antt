-- ===== src/Shared.antt =====
-- src/embassy/shared_storage.rs: a storage behind a mutex, with handles for its clients. A handle is the
-- bus it belongs to; each of its operations holds the mutex from beginning to end.
use embedded_overlay.Base.{ℕ, List, ap}
use embedded_overlay.Error.{Result}
use embedded_overlay.Flash.{Flash, Serves}

pub record SharedStorageBus (S : Type 0) : Type 0 where
  pub mutex : S
  pub capacity : ℕ

module _ {S E : Type 0} (flash : Flash S E) where
  unfoldable pub new : S → SharedStorageBus S
  new storage = record { mutex = storage; capacity = flash.capacity storage }

  unfoldable pub read :
      SharedStorageBus S → ℕ → List ℕ → Result E (Unit {0}) × List ℕ × SharedStorageBus S
  read bus offset bytes =
      let (r, bytes', guard) = flash.read bus.mutex offset bytes in
      (r, bytes', record bus { mutex = guard })

  unfoldable pub erase : SharedStorageBus S → ℕ → ℕ → Result E (Unit {0}) × SharedStorageBus S
  erase bus from to =
      let (r, guard) = flash.erase bus.mutex from to in (r, record bus { mutex = guard })

  unfoldable pub write : SharedStorageBus S → ℕ → List ℕ → Result E (Unit {0}) × SharedStorageBus S
  write bus offset bytes =
      let (r, guard) = flash.write bus.mutex offset bytes in (r, record bus { mutex = guard })

  -- The traits of a handle; `capacity` is what it was when the bus was made.
  unfoldable pub shared_flash : Flash (SharedStorageBus S) E
  unfolding read erase write
  shared_flash = record {
    read = read;
    capacity = λ bus. bus.capacity;
    erase = erase;
    write = write;
  }

  -- A handle serves what the storage serves.
  pub shared_flash-Serves :
      (image : List ℕ) (Holds : S → Type 0)
      → Serves flash image Holds
      → Serves shared_flash image (λ bus. Holds bus.mutex)
  unfolding shared_flash
  shared_flash-Serves image Holds serves = record {
    read_lem = λ bus offset buf holds inside.
        let (storage', e, holds') = serves.read_lem bus.mutex offset buf holds inside in
        (
          record bus { mutex = storage' },
          ap (λ (r, b, t). (r, b, record bus { mutex = t })) e,
          holds',
        );
  }
