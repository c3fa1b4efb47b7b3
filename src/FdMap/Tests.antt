-- ===== src/FdMap/Tests.antt =====
-- A table of two entries.
use pega_s.Prelude.{
  ℕ, ◌≡◌, refl, true, none, some, [], ◌∷◌, arith, pos, Returns, if◌then◌else◌, ◌==◌, ◌&&◌, ltb,
}
use pega_s.FdMap.{FdMap, fd_map_set, fd_map_get, fd_map_remove, fd_map_get_first_null_id}
use pega_s.FdMap.Laws.{
  IsValid, entry, FirstNull, fd_map_set-Returns, fd_map_set_wraps, fd_map_remove-Returns,
  fd_map_get_first_null_id-FirstNull,
}

abbrev small_map : FdMap ℕ
small_map = record { buffer = some 10 ∷ some 20 ∷ none ∷ []; capacity = 3 }

small_map-IsValid : IsValid small_map
small_map-IsValid = record { block = refl; word = omega arith }

fd_map_set-Returns_example : Returns (fd_map_set true small_map (pos 5) (some 30)) (λ r.
    (r.0 ≡ pos 0)
    × IsValid r.1
    × ((i : ℕ) → fd_map_get r.1 (pos i) ≡ some (if 5 == i then some 30 else entry small_map i)))
fd_map_set-Returns_example = fd_map_set-Returns 5 (some 30) small_map-IsValid (omega arith)

fd_map_set_wraps_example :
    Returns
      (fd_map_set true small_map (pos 32767) (some 30))
      (λ r. (r.0 ≡ pos 0) × ((i : ℕ) → fd_map_get r.1 (pos i) ≡ some none))
fd_map_set_wraps_example = fd_map_set_wraps (some 30) small_map-IsValid (omega arith)

fd_map_remove-Returns_example : Returns (fd_map_remove small_map (pos 1)) (λ r.
    IsValid r
    × ((i : ℕ)
        → fd_map_get r (pos i) ≡ some (if ltb 0 1 && (1 == i) then none else entry small_map i)))
fd_map_remove-Returns_example = fd_map_remove-Returns 1 small_map-IsValid

fd_map_get_first_null_id-FirstNull_example :
    Returns (fd_map_get_first_null_id small_map (pos 9)) (FirstNull small_map 2)
fd_map_get_first_null_id-FirstNull_example = fd_map_get_first_null_id-FirstNull 9 small_map-IsValid
