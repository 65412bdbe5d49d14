-- ===== src/Bytes.antt =====
-- Byte arrays as the parsers read them: a `DataView` with little-endian reads, indexing, and
-- `subarray`. A byte is a number below 256. A read past the end throws: `none`.
pub mod Words
pub mod Slices
use winny.Base.{
  ℕ, zero, suc, ◌+◌, ◌-◌, ◌*◌, ◌/◌, ◌%◌, ◌^◌, Option, none, some, List, [], ◌∷◌, length, take, drop,
  get_elem?, ltb, leb, if◌then◌else◌,
}
use winny.Base.Int.{ℤ, pos, negsuc}

abbrev pub Buffer : Type 0
Buffer = List ℕ

infixl 5 ◌>>=◌
abbrev pub ◌>>=◌ {ℓ} : {A B : Type ℓ} → Option A → (A → Option B) → Option B
none >>= next = none
some value >>= next = next value

-- d.subarray(from, to), for from ≤ to: what of it is there.
unfoldable pub subarray : Buffer → ℕ → ℕ → Buffer
subarray d from to = take (to - from) (drop from d)

-- The value of little-endian bytes.
unfoldable pub le_value : Buffer → ℕ
le_value [] = 0
le_value (b ∷ d) = b + 256 * le_value d

-- The low bytes of a number, the lowest first.
unfoldable pub le_bytes : ℕ → ℕ → Buffer
le_bytes zero n = []
le_bytes (suc w) n = (n % 256) ∷ le_bytes w (n / 256)

-- An unsigned read of `w` bytes.
unfoldable pub get_uint : ℕ → Buffer → ℕ → Option ℕ
unfolding subarray
get_uint w d offset =
    if leb (offset + w) (length d) then some (le_value (subarray d offset (offset + w))) else none

abbrev pub get_uint16 : Buffer → ℕ → Option ℕ
get_uint16 d offset = get_uint 2 d offset

abbrev pub get_uint32 : Buffer → ℕ → Option ℕ
get_uint32 d offset = get_uint 4 d offset

abbrev pub get_big_uint64 : Buffer → ℕ → Option ℕ
get_big_uint64 d offset = get_uint 8 d offset

-- A 64-bit pattern read as a signed number.
unfoldable pub to_signed64 : ℕ → ℤ
to_signed64 n = if ltb n (2 ^ 63) then pos n else negsuc (2 ^ 64 - 1 - n)

unfoldable pub get_big_int64 : Buffer → ℕ → Option ℤ
unfolding to_signed64 get_uint
get_big_int64 d offset = do n ← get_uint 8 d offset; some (to_signed64 n)
