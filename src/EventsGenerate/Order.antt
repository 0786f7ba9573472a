-- ===== src/EventsGenerate/Order.antt =====
-- The order of the strings.
use point_c.Base.{◌≡◌, refl, true, false, [], ◌∷◌, Bytes, arith}
use point_c.EventsGenerate.{bytes_leb}

pub bytes_leb_total : (a b : Bytes) → bytes_leb a b ≡ false → bytes_leb b a ≡ true
bytes_leb_total [] b h = ground arith
bytes_leb_total (x ∷ a) [] h = refl
bytes_leb_total (x ∷ a) (y ∷ b) h = ground (arith, bytes_leb_total a b)

pub bytes_leb_trans :
    (a b c : Bytes) → bytes_leb a b ≡ true → bytes_leb b c ≡ true → bytes_leb a c ≡ true
bytes_leb_trans [] b c h k = refl
bytes_leb_trans (x ∷ a) [] c h k = ground arith
bytes_leb_trans (x ∷ a) (y ∷ b) [] h k = ground arith
bytes_leb_trans (x ∷ a) (y ∷ b) (z ∷ c) h k = ground (arith, bytes_leb_trans a b c)

pub bytes_leb_antisym : (a b : Bytes) → bytes_leb a b ≡ true → bytes_leb b a ≡ true → a ≡ b
bytes_leb_antisym [] [] h k = refl
bytes_leb_antisym [] (y ∷ b) h k = ground arith
bytes_leb_antisym (x ∷ a) [] h k = ground arith
bytes_leb_antisym (x ∷ a) (y ∷ b) h k = ground (arith, bytes_leb_antisym a b)
