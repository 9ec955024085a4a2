-- ===== src/Protocol/Words.antt =====
-- service_protocol.cpp and activation_protocol.cpp: the little-endian words of a frame.
use pokrov_app.Base.{
  ℕ, zero, suc, ◌+◌, ◌*◌, ◌/◌, ◌%◌, ◌^◌, ◌<◌, ◌≡◌, List, [], ◌∷◌, ◌++◌, arith, get_or,
}

-- `static_cast<std::uint8_t>((value >> shift) & 0xFF)`.
abbrev byte_at : ℕ → ℕ → ℕ
byte_at value shift = value / 2 ^ shift % 256

unfoldable pub append_uint16 : List ℕ → ℕ → List ℕ
append_uint16 output value = output ++ byte_at value 0 ∷ byte_at value 8 ∷ []

-- The loop `for (shift; shift < limit; shift += 8)` with the rounds that are left.
abbrev append_loop : ℕ → List ℕ → ℕ → ℕ → List ℕ
append_loop zero output value shift = output
append_loop (suc rounds) output value shift =
    append_loop rounds (output ++ byte_at value shift ∷ []) value (shift + 8)

unfoldable pub append_uint32 : List ℕ → ℕ → List ℕ
append_uint32 output value = append_loop 4 output value 0

unfoldable pub append_uint64 : List ℕ → ℕ → List ℕ
append_uint64 output value = append_loop 8 output value 0

-- The bytes are disjoint, so `|` of the shifted bytes is their sum.
unfoldable pub read_uint16 : List ℕ → ℕ
read_uint16 input = get_or input 0 0 + get_or input 1 0 * 2 ^ 8

abbrev read_loop : ℕ → List ℕ → ℕ → ℕ → ℕ
read_loop zero input offset value = value
read_loop (suc rounds) input offset value =
    read_loop rounds input (offset + 1) (value + get_or input offset 0 * 2 ^ (offset * 8))

unfoldable pub read_uint32 : List ℕ → ℕ
read_uint32 input = read_loop 4 input 0 0

unfoldable pub read_uint64 : List ℕ → ℕ
read_uint64 input = read_loop 8 input 0 0

pub read-append_uint16 :
    (value : ℕ) (rest : List ℕ)
    → value < 2 ^ 16
    → read_uint16 (append_uint16 [] value ++ rest) ≡ value
unfolding read_uint16 append_uint16
read-append_uint16 value rest h = omega arith

pub read-append_uint32 :
    (value : ℕ) (rest : List ℕ)
    → value < 2 ^ 32
    → read_uint32 (append_uint32 [] value ++ rest) ≡ value
unfolding read_uint32 append_uint32
read-append_uint32 value rest h = omega arith

pub read-append_uint64 :
    (value : ℕ) (rest : List ℕ)
    → value < 2 ^ 64
    → read_uint64 (append_uint64 [] value ++ rest) ≡ value
unfolding read_uint64 append_uint64
read-append_uint64 value rest h = omega arith
