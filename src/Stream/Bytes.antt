-- ===== src/Stream/Bytes.antt =====
-- Binary data as `DataView` and `Uint8Array` see it: a list of bytes, with big-endian fields.
use mathlib.Core.Path.{subst}
use world_celld.Common.{
  eqb, ap, match_option, ℕ, zero, suc, ◌+◌, ◌*◌, ◌-◌, ◌/◌, ◌%◌, ◌<◌, ◌≡◌, refl, Bool, true, Option,
  none, some, List, [], ◌∷◌, ◌++◌, arith, length, ltb, leb, if◌then◌else◌,
}

abbrev pub Bytes : Type 0
Bytes = List ℕ

-- `setUint16` and `setUint32` of a number
unfoldable pub u16 : ℕ → Bytes
u16 n = n / 256 % 256 ∷ n % 256 ∷ []

unfoldable pub u32 : ℕ → Bytes
u32 n = n / 16777216 % 256 ∷ n / 65536 % 256 ∷ n / 256 % 256 ∷ n % 256 ∷ []

-- A field at an offset, with the bytes after it; none where the data ends before the field does.
unfoldable pub get_u8 : Bytes → Option (ℕ × Bytes)
get_u8 [] = none
get_u8 (a ∷ rest) = some (a, rest)

unfoldable pub get_u16 : Bytes → Option (ℕ × Bytes)
get_u16 (a ∷ b ∷ rest) = some (a * 256 + b, rest)
get_u16 _ = none

unfoldable pub get_u32 : Bytes → Option (ℕ × Bytes)
get_u32 (a ∷ b ∷ c ∷ d ∷ rest) = some (a * 16777216 + b * 65536 + c * 256 + d, rest)
get_u32 _ = none

u32_bytes :
    (n : ℕ)
    → n < 4294967296
    → n / 16777216 % 256 * 16777216 + n / 65536 % 256 * 65536 + n / 256 % 256 * 256 + n % 256 ≡ n
u32_bytes n h = omega arith

pub get_u32-u32 : (n : ℕ) (rest : Bytes) → n < 4294967296 → get_u32 (u32 n ++ rest) ≡ some (n, rest)
unfolding u32 get_u32
get_u32-u32 n rest h = rw (u32_bytes n h) refl

pub get_u16-u16 : (n : ℕ) (rest : Bytes) → n < 65536 → get_u16 (u16 n ++ rest) ≡ some (n, rest)
unfolding u16 get_u16
get_u16-u16 n rest h = ground arith

-- `setInt32` and `getInt32`
pub data ℤ : Type 0 where
  pos negsuc : ℕ → ℤ

unfoldable pub i32 : ℤ → Bytes
i32 (pos n) = u32 n
i32 (negsuc n) = u32 (4294967295 - n)

unfoldable pub get_i32 : Bytes → Option (ℤ × Bytes)
get_i32 bs =
    match_option (get_u32 bs) none
      (λ r. some (if ltb r.0 2147483648 then pos r.0 else negsuc (4294967295 - r.0), r.1))

-- An index that a message may carry: from -1 to the largest 32-bit integer.
abbrev pub is_index : ℤ → Bool
is_index (pos n) = leb n 2147483647
is_index (negsuc n) = eqb n 0

pub get_i32-i32 :
    (z : ℤ) (rest : Bytes) → is_index z ≡ true → get_i32 (i32 z ++ rest) ≡ some (z, rest)
unfolding i32 get_i32
get_i32-i32 (pos n) rest h = rw (get_u32-u32 n rest (ground (arith, h))) (ground (arith, h))
get_i32-i32 (negsuc n) rest h =
    rw (get_u32-u32 (4294967295 - n) rest (ground (arith, h))) (ground (arith, h))

-- `subarray` of a length from the start of the data, and the rest; none where it is too short.
unfoldable pub get_bytes : ℕ → Bytes → Option (Bytes × Bytes)
get_bytes zero bs = some ([], bs)
get_bytes (suc n) [] = none
get_bytes (suc n) (b ∷ bs) = match_option (get_bytes n bs) none (λ r. some (b ∷ r.0, r.1))

pub get_bytes-length : (a b : Bytes) → get_bytes (length a) (a ++ b) ≡ some (a, b)
unfolding get_bytes
get_bytes-length [] b = refl
get_bytes-length (x ∷ a) b = rw (get_bytes-length a b) refl

-- Chunks, each after its length.
unfoldable pub put_chunks : List Bytes → Bytes
put_chunks [] = []
put_chunks (c ∷ cs) = u32 (length c) ++ (c ++ put_chunks cs)

unfoldable pub get_chunks : ℕ → Bytes → Option (List Bytes × Bytes)
get_chunks zero bs = some ([], bs)
get_chunks (suc n) bs = match_option (get_u32 bs) none (λ l.
    match_option (get_bytes l.0 l.1) none
      (λ c. match_option (get_chunks n c.1) none (λ r. some (c.0 ∷ r.0, r.1))))

abbrev pub Fits : List Bytes → Type 0
Fits [] = Unit
Fits (c ∷ cs) = (length c < 4294967296) × Fits cs

pub append_assoc : (a b c : Bytes) → (a ++ b) ++ c ≡ a ++ (b ++ c)
append_assoc [] b c = refl
append_assoc (x ∷ a) b c = ap (λ l. x ∷ l) (append_assoc a b c)

pub get_chunks-put_chunks :
    (cs : List Bytes) (rest : Bytes)
    → Fits cs
    → get_chunks (length cs) (put_chunks cs ++ rest) ≡ some (cs, rest)
unfolding get_chunks put_chunks
get_chunks-put_chunks [] rest h = refl
get_chunks-put_chunks (c ∷ cs) rest h =
    rw (append_assoc (u32 (length c)) (c ++ put_chunks cs) rest) (
      rw (append_assoc c (put_chunks cs) rest) (
        rw (get_u32-u32 (length c) (c ++ (put_chunks cs ++ rest)) h.0) (
          rw (get_bytes-length c (put_chunks cs ++ rest))
            (rw (get_chunks-put_chunks cs rest h.1) refl))))

pub append_nil : (a : Bytes) → a ++ [] ≡ a
append_nil [] = refl
append_nil (x ∷ a) = ap (λ l. x ∷ l) (append_nil a)

pub get_bytes-length_end : (a : Bytes) → get_bytes (length a) a ≡ some (a, [])
get_bytes-length_end a =
    subst (λ (b : Bytes). get_bytes (length a) b ≡ some (a, [])) (append_nil a)
      (get_bytes-length a [])
