-- ===== src/Dirent/Tests.antt =====
-- The theorem on src/dirent.c at a directory of one buffer with one record of 20 bytes.
use neoos_libneoos.Base.{ℕ, ◌≡◌, refl, arith, List, [], ◌∷◌, ◌++◌}
use neoos_libneoos.Base.Int.{pos}
use neoos_libneoos.Dirent.{reclen}
use neoos_libneoos.Dirent.Listing.{
  listing, stream, answers_of, entries, all_entries, Records, listing_lem,
}

abbrev buffer : List ℕ
buffer = 0 ∷ 0 ∷ 0 ∷ 0 ∷ 0 ∷ 0 ∷ 0 ∷ 0 ∷ 0 ∷ 0 ∷ 0 ∷ 0 ∷ 0 ∷ 0 ∷ 0 ∷ 0 ∷ 20 ∷ 0 ∷ 8 ∷ 0 ∷ []

abbrev lengths : List ℕ
lengths = 20 ∷ []

buffer-Records : Records buffer 0 lengths
unfolding reclen
buffer-Records = (refl, omega arith, refl)

listing_lem_example :
    listing 3 (stream (pos 4) buffer 0) (answers_of ((buffer, lengths) ∷ []))
    ≡ entries buffer 0 lengths ++ all_entries ((buffer, lengths) ∷ [])
listing_lem_example =
    listing_lem lengths 3 (pos 4) buffer 0 ((buffer, lengths) ∷ []) buffer-Records
      (buffer-Records, tt) (omega arith)
