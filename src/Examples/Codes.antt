-- ===== src/Examples/Codes.antt =====
-- The theorems on confirmation codes at concrete draws.
use hotelsb2b.Common.{◌≡◌, refl, false, [], ◌∷◌, text_eq, any, ok}
use hotelsb2b.Bookings.Create.{insert_with_unique_code}
use hotelsb2b.Examples.{codes, sample_booking}

second_code : insert_with_unique_code false codes (sample_booking ∷ []) ≡ ok (codes 1)
unfolding insert_with_unique_code any text_eq
second_code = refl
