-- ===== src/Memory.antt =====
-- The bytes of a block of memory, with the little-endian reads and writes that the packed
-- structs of include/msg.h, include/wagon.h and include/applicationMessage.h stand for.
pub mod Laws
use protocol_pfe.Base.{ℕ, ◌+◌, ◌*◌, ◌/◌, ◌%◌, ◌==◌, if◌then◌else◌}

-- The byte at each offset.
abbrev pub Bytes : Type 0
Bytes = ℕ → ℕ

unfoldable pub put8 : Bytes → ℕ → ℕ → Bytes
put8 b o v q = if q == o then v % 256 else b q

unfoldable pub put16 : Bytes → ℕ → ℕ → Bytes
unfolding put8
put16 b o v = put8 (put8 b o v) (o + 1) (v / 256)

unfoldable pub put32 : Bytes → ℕ → ℕ → Bytes
unfolding put16
put32 b o v = put16 (put16 b o v) (o + 2) (v / 65536)

unfoldable pub get16 : Bytes → ℕ → ℕ
get16 b o = b o + 256 * b (o + 1)

unfoldable pub get32 : Bytes → ℕ → ℕ
unfolding get16
get32 b o = get16 b o + 65536 * get16 b (o + 2)
