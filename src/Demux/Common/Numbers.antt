-- ===== src/Demux/Common/Numbers.antt =====
-- A number and its bytes, in both byte orders.
use mathlib.Core.List.{foldl}
use native.Mathlib.Nat.{mod-eq_of_lt}
use leo_telemetry.Base.{
  ℕ, zero, suc, ◌+◌, ◌*◌, ◌/◌, ◌%◌, ◌^◌, ◌<◌, ◌≡◌, refl, sym, ap, ◌∙◌, List, [], ◌∷◌, All, IsByte,
  arith, length, get_or,
}
use leo_telemetry.Base.Powers.{pow_pos, pow_byte, below_product, mod_split}
use leo_telemetry.Decode.Crc16.{little_endian}
use leo_telemetry.Demux.Common.{ByteOrder, little, big, big_endian, number, index}
use leo_telemetry.Base.Result.{ok}

abbrev put_byte : ℕ → ℕ → ℕ
put_byte n b = n * 256 + b

shift_byte : (a b p q r : ℕ) → q ≡ 256 * p → (a * 256 + b) * p + r ≡ a * q + ((0 * 256 + b) * p + r)
shift_byte a b p q r h = omega (arith, ap (λ n. a * n) h)

-- The first byte is the most significant.
big_endian_from :
    (a : ℕ) (bytes : List ℕ)
    → foldl put_byte a bytes ≡ a * 2 ^ (8 * length bytes) + foldl put_byte 0 bytes
big_endian_from a [] = omega arith
big_endian_from a (b ∷ bytes) =
    big_endian_from (a * 256 + b) bytes
    ∙ shift_byte a b (2 ^ (8 * length bytes)) (2 ^ (8 * suc (length bytes)))
        (foldl put_byte 0 bytes) (pow_byte (length bytes))
    ∙ ap (λ n. a * 2 ^ (8 * suc (length bytes)) + n) (sym (big_endian_from (0 * 256 + b) bytes))

pub big_endian-cons :
    (b : ℕ) (bytes : List ℕ)
    → big_endian (b ∷ bytes) ≡ b * 2 ^ (8 * length bytes) + big_endian bytes
big_endian-cons b bytes =
    big_endian_from (0 * 256 + b) bytes
    ∙ ap (λ n. n * 2 ^ (8 * length bytes) + big_endian bytes) (omega arith)

pub big_endian_bound :
    (bytes : List ℕ) → All IsByte bytes → big_endian bytes < 2 ^ (8 * length bytes)
big_endian_bound [] h = omega arith
big_endian_bound (b ∷ bytes) h =
    let below =
      below_product b 256 (2 ^ (8 * length bytes)) (big_endian bytes) h.0
        (big_endian_bound bytes h.1) in
    rw (big_endian-cons b bytes, pow_byte (length bytes)) (omega (arith, below))

unfoldable pub little_bytes : ℕ → ℕ → List ℕ
little_bytes zero n = []
little_bytes (suc w) n = n % 256 ∷ little_bytes w (n / 256)

unfoldable pub big_bytes : ℕ → ℕ → List ℕ
big_bytes zero n = []
big_bytes (suc w) n = n / 2 ^ (8 * w) % 256 ∷ big_bytes w n

-- The bytes of a number in a field of a width.
unfoldable pub number_bytes : ByteOrder → ℕ → ℕ → List ℕ
number_bytes little w n = little_bytes w n
number_bytes big w n = big_bytes w n

length-little_bytes : (w n : ℕ) → length (little_bytes w n) ≡ w
unfolding little_bytes
length-little_bytes zero n = refl
length-little_bytes (suc w) n = ap (λ k. suc k) (length-little_bytes w (n / 256))

length-big_bytes : (w n : ℕ) → length (big_bytes w n) ≡ w
unfolding big_bytes
length-big_bytes zero n = refl
length-big_bytes (suc w) n = ap (λ k. suc k) (length-big_bytes w n)

pub length-number_bytes : (order : ByteOrder) (w n : ℕ) → length (number_bytes order w n) ≡ w
unfolding number_bytes
length-number_bytes little w n = length-little_bytes w n
length-number_bytes big w n = length-big_bytes w n

little_endian-little_bytes : (w n : ℕ) → n < 2 ^ (8 * w) → little_endian (little_bytes w n) ≡ n
unfolding little_bytes
little_endian-little_bytes zero n h = omega arith
little_endian-little_bytes (suc w) n h =
    let grown = pow_byte w in
    let rest = little_endian-little_bytes w (n / 256) (omega (arith, h, grown)) in
    omega (arith, rest)

big_endian-big_bytes : (w n : ℕ) → big_endian (big_bytes w n) ≡ n % 2 ^ (8 * w)
unfolding big_bytes
big_endian-big_bytes zero n = omega arith
big_endian-big_bytes (suc w) n =
    let rest = big_endian-big_bytes w n in
    let split = mod_split n (2 ^ (8 * w)) 256 (pow_pos (8 * w)) (omega arith) in
    let grown = pow_byte w in
    rw (big_endian-cons (n / 2 ^ (8 * w) % 256) (big_bytes w n), length-big_bytes w n, rest)
      (sym split ∙ ap (λ k. n % k) (omega (arith, grown)))

-- The number that a field of its bytes is read as.
pub number-number_bytes :
    (order : ByteOrder) (w n : ℕ) → n < 2 ^ (8 * w) → number order (number_bytes order w n) ≡ n
unfolding number_bytes
number-number_bytes little w n h = little_endian-little_bytes w n h
number-number_bytes big w n h = big_endian-big_bytes w n ∙ mod-eq_of_lt h

-- Inside the data, an index raises nothing.
pub index-get_or :
    (bytes : List ℕ) (i : ℕ) → i < length bytes → index bytes i ≡ ok (get_or bytes i 0)
index-get_or [] i h = absurd (omega arith)
index-get_or (b ∷ bytes) zero h = refl
index-get_or (b ∷ bytes) (suc i) h = index-get_or bytes i (omega arith)
