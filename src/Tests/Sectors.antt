-- ===== src/Tests/Sectors.antt =====
-- src/vfs/cache.rs on concrete inputs: sectors of 4 bytes, from the address 4 on.
use embedded_overlay.Base.{ℕ, ◌<◌, List, [], ◌∷◌, length, ◌≡◌, refl, arith}
use embedded_overlay.Arith.{Profile}
use embedded_overlay.Error.{ok}
use embedded_overlay.Flash.Mock.{MockFlash, mock_flash}
use embedded_overlay.Flash.Mock.Laws.{mock_flash-Serves}
use embedded_overlay.Vfs.Cache
use embedded_overlay.Vfs.Cache.{LruSectorCache, get_or_load}
use embedded_overlay.Vfs.Coherence.{sector, IsCoherent, get_or_load-sector}

abbrev image : List ℕ
image = 0 ∷ 1 ∷ 2 ∷ 3 ∷ 4 ∷ 5 ∷ 6 ∷ 7 ∷ 8 ∷ 9 ∷ 10 ∷ 11 ∷ []

abbrev storage : MockFlash
storage = record { content = image }

abbrev empty : LruSectorCache
empty = Cache.new 2 4

empty-IsCoherent : IsCoherent 4 (sector 4 4 image) empty
unfolding Cache.new
empty-IsCoherent = ((refl, tt), ((refl, tt), tt))

empty_lem : 0 < length empty.entries
unfolding Cache.new
empty_lem = omega arith

get_or_load-sector_example :
    (c' : LruSectorCache) × (storage' : MockFlash) × (get_or_load Profile.debug
        (mock_flash 64 8)
        4
        empty
        storage
        1
        4
      ≡ (ok (8 ∷ 9 ∷ 10 ∷ 11 ∷ []), c', storage'))
    × IsCoherent 4 (sector 4 4 image) c'
    × (length c'.entries ≡ length empty.entries)
    × (storage'.content ≡ image)
get_or_load-sector_example =
    get_or_load-sector Profile.debug (mock_flash 64 8) 4 4 image (λ s. s.content ≡ image)
      (mock_flash-Serves 64 8 image (omega arith)) empty storage 1 refl empty-IsCoherent empty_lem
      (omega arith) (omega arith)
