-- ===== src/Bytes/Slices.antt =====
-- What a read finds in an array that is built of segments.
use mathlib.Core.List.{append_assoc}
use winny.Base.{
  ℕ, zero, suc, ◌+◌, ◌-◌, ◌≤◌, ◌<◌, ◌^◌, ◌≡◌, refl, ap, ◌∙◌, some, List, [], ◌∷◌, ◌++◌, length,
  length-append, take, drop, get_elem?, arith, le→leb,
}
use winny.Bytes.{Buffer, subarray, le_value, le_bytes, get_uint}
use winny.Bytes.Words.{length-le_bytes, le_value-le_bytes}

abbrev pub concat : List Buffer → Buffer
concat [] = []
concat (segment ∷ segments) = segment ++ concat segments

-- The bytes before segment `k`.
abbrev pub offset_of : List Buffer → ℕ → ℕ
offset_of segments zero = 0
offset_of [] (suc k) = 0
offset_of (segment ∷ segments) (suc k) = length segment + offset_of segments k

drop-append : (a b : Buffer) (m n : ℕ) → m ≡ length a + n → drop m (a ++ b) ≡ drop n b
drop-append [] b m n e = let e' : m ≡ n = omega arith in rw e'
drop-append (x ∷ a) b zero n e = absurd (omega arith)
drop-append (x ∷ a) b (suc m) n e = drop-append a b m n (omega arith)

take-append : (a b : Buffer) (n : ℕ) → n ≡ length a → take n (a ++ b) ≡ a
take-append [] b zero e = refl
take-append [] b (suc n) e = absurd (omega arith)
take-append (x ∷ a) b zero e = absurd (omega arith)
take-append (x ∷ a) b (suc n) e = ap (λ t. x ∷ t) (take-append a b n (omega arith))

-- A part of an array that stands behind `before` is found by its offset.
pub subarray-append :
    (before part after : Buffer) (from to : ℕ)
    → from ≡ length before
    → to ≡ from + length part
    → subarray (before ++ (part ++ after)) from to ≡ part
unfolding subarray
subarray-append before part after from to e f =
    ap (take (to - from)) (drop-append before (part ++ after) from 0 (omega arith))
    ∙ take-append part after (to - from) (omega arith)

pub split_at :
    (segments : List Buffer) (k : ℕ) (part : Buffer)
    → get_elem? segments k ≡ some part
    → (before : Buffer) × (after : Buffer) × (concat segments ≡ before ++ (part ++ after))
      × (length before ≡ offset_of segments k)
split_at [] k part e = cc
split_at (segment ∷ segments) zero part e =
    let same : segment ≡ part = cc in ([], concat segments, rw same, omega arith)
split_at (segment ∷ segments) (suc k) part e =
    let (before, after, same, at) = split_at segments k part e in
    (segment ++ before, after, rw (same, append_assoc), omega (arith, length-append segment before))

-- Segment `k` is found at its offset.
pub subarray-concat :
    (segments : List Buffer) (k : ℕ) (part : Buffer) (from to : ℕ)
    → get_elem? segments k ≡ some part
    → from ≡ offset_of segments k
    → to ≡ from + length part
    → subarray (concat segments) from to ≡ part
subarray-concat segments k part from to e f g =
    let (before, after, same, at) = split_at segments k part e in
    rw same (subarray-append before part after from to (omega arith) g)

length-concat :
    (segments : List Buffer) (k : ℕ) (part : Buffer)
    → get_elem? segments k ≡ some part
    → offset_of segments k + length part ≤ length (concat segments)
length-concat segments k part e =
    let (before, after, same, at) = split_at segments k part e in
    rw same (omega (arith, length-append before (part ++ after), length-append part after))

-- An unsigned number that was written as segment `k` is read back.
pub get_uint-concat :
    (segments : List Buffer) (k w n offset : ℕ)
    → n < 256 ^ w
    → get_elem? segments k ≡ some (le_bytes w n)
    → offset ≡ offset_of segments k
    → get_uint w (concat segments) offset ≡ some n
unfolding get_uint
get_uint-concat segments k w n offset fits e f =
    let inside : offset + w ≤ length (concat segments) =
      omega (arith, length-concat segments k (le_bytes w n) e, length-le_bytes w n) in
    rw (le→leb _ _ inside) (
      ap (λ t. some (le_value t))
        (subarray-concat segments k (le_bytes w n) offset (offset + w) e f
          (omega (arith, length-le_bytes w n)))
      ∙ ap some (le_value-le_bytes w n fits))

get_elem?-append :
    (before : Buffer) (b : ℕ) (after : Buffer) (i : ℕ)
    → i ≡ length before
    → get_elem? (before ++ (b ∷ after)) i ≡ some b
get_elem?-append [] b after zero e = refl
get_elem?-append [] b after (suc i) e = absurd (omega arith)
get_elem?-append (x ∷ before) b after zero e = absurd (omega arith)
get_elem?-append (x ∷ before) b after (suc i) e = get_elem?-append before b after i (omega arith)

-- A byte that is a segment of its own is read back.
pub get_elem?-concat :
    (segments : List Buffer) (k b i : ℕ)
    → get_elem? segments k ≡ some (b ∷ [])
    → i ≡ offset_of segments k
    → get_elem? (concat segments) i ≡ some b
get_elem?-concat segments k b i e f =
    let (before, after, same, at) = split_at segments k (b ∷ []) e in
    rw same (get_elem?-append before b after i (omega arith))
