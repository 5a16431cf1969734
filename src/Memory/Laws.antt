-- ===== src/Memory/Laws.antt =====
-- Reads after writes.
use protocol_pfe.Base.{ℕ, ◌+◌, ◌^◌, ◌≤◌, ◌<◌, ◌≡◌, ◌⊎◌, arith}
use protocol_pfe.Memory.{Bytes, put16, put32, get16, get32}

pub get16-put16 : (b : Bytes) (o v : ℕ) → v < 2 ^ 16 → get16 (put16 b o v) o ≡ v
unfolding get16 put16
get16-put16 b o v h = ground arith

pub get32-put32 : (b : Bytes) (o v : ℕ) → v < 2 ^ 32 → get32 (put32 b o v) o ≡ v
unfolding get32 put32
get32-put32 b o v h = ground arith

-- A write changes no byte outside its own.
pub put16_outside : (b : Bytes) (o v q : ℕ) → (q < o) ⊎ (o + 2 ≤ q) → put16 b o v q ≡ b q
unfolding put16
put16_outside b o v q h = ground arith

pub put32_outside : (b : Bytes) (o v q : ℕ) → (q < o) ⊎ (o + 4 ≤ q) → put32 b o v q ≡ b q
unfolding put32
put32_outside b o v q h = ground arith

-- Reads depend on their own bytes alone.
pub get16_cong : (a b : Bytes) (o : ℕ) → a o ≡ b o → a (o + 1) ≡ b (o + 1) → get16 a o ≡ get16 b o
unfolding get16
get16_cong a b o p q = omega arith

pub get32_cong :
    (a b : Bytes) (o : ℕ) → ((q : ℕ) → o ≤ q → q < o + 4 → a q ≡ b q) → get32 a o ≡ get32 b o
unfolding get32
get32_cong a b o h = omega (arith, h o, h (o + 1), h (o + 2), h (o + 2 + 1))
