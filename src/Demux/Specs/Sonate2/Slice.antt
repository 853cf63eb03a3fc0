-- ===== src/Demux/Specs/Sonate2/Slice.antt =====
-- A bit field is a slice of the data read as one number.
use leo_telemetry.Base.{
  ℕ, zero, suc, ◌+◌, ◌*◌, ◌/◌, ◌%◌, ◌-◌, ◌^◌, ◌<◌, ◌≤◌, ◌≡◌, refl, ap, ◌∙◌, List, [], ◌∷◌, All,
  IsByte, ltb, arith, length, get_or, low_bits, shr, Bool-cases, true, false, inl, inr,
  if◌then◌else◌,
}
use leo_telemetry.Base.Powers.{pow_pos, pow_add, quotient_upper, div_mul, mod_double}
use leo_telemetry.Base.Result.{ok, raise, value_error}
use leo_telemetry.Demux.Common.{big_endian}
use leo_telemetry.Demux.Common.Numbers.{big_endian-cons, big_endian_bound, index-get_or}
use leo_telemetry.Demux.Specs.Sonate2.{extract_loop, extract_bits}
use native.Mathlib.Nat.{mul-add-div_right}

abbrev bit_at : List ℕ → ℕ → ℕ
bit_at bytes bit = low_bits (shr (get_or bytes (bit / 8) 0) (7 - bit % 8)) 1

-- A bit of the first byte.
bit_first :
    (b k l r : ℕ)
    → k < 8
    → r < 2 ^ (8 * l)
    → (b * 2 ^ (8 * l) + r) / 2 ^ (8 * suc l - 1 - k) ≡ b / 2 ^ (7 - k)
bit_first b k l r h small =
    let size : 8 * suc l - 1 - k ≡ 8 * l + (7 - k) = omega arith in
    rw
      (
        size,
        pow_add (8 * l) (7 - k),
        div_mul (b * 2 ^ (8 * l) + r) (2 ^ (8 * l)) (2 ^ (7 - k)),
        quotient_upper b (2 ^ (8 * l)) r small,
      )
      refl

-- A bit of a later byte.
bit_later :
    (b k l r : ℕ)
    → k < 8 * l
    → (b * 2 ^ (8 * l) + r) / 2 ^ (8 * l - 1 - k) % 2 ≡ r / 2 ^ (8 * l - 1 - k) % 2
bit_later b k l r h =
    let j = 8 * l - 1 - k in
    let size : 8 * l ≡ suc k + j = omega arith in
    let twice : 2 ^ suc k ≡ 2 * 2 ^ k = omega arith in
    let power : 2 ^ (8 * l) ≡ 2 * 2 ^ k * 2 ^ j =
      ap (λ n. 2 ^ n) size ∙ pow_add (suc k) j ∙ ap (λ n. n * 2 ^ j) twice in
    let parts : b * 2 ^ (8 * l) + r ≡ (b * 2 ^ k * 2) * 2 ^ j + r =
      omega (arith, ap (λ n. b * n) power) in
    let divided : (b * 2 ^ (8 * l) + r) / 2 ^ j ≡ (b * 2 ^ k) * 2 + r / 2 ^ j =
      ap (λ n. n / 2 ^ j) parts ∙ mul-add-div_right (pow_pos j) (b * 2 ^ k * 2) r in
    rw divided (omega arith)

bit_at-big_endian :
    (bytes : List ℕ) (k : ℕ)
    → All IsByte bytes
    → k < 8 * length bytes
    → bit_at bytes k ≡ big_endian bytes / 2 ^ (8 * length bytes - 1 - k) % 2
bit_at-big_endian [] k h inside = absurd (omega arith)
bit_at-big_endian (b ∷ bytes) k h inside =
    let l = length bytes in
    let small = big_endian_bound bytes h.1 in
    elim (Bool-cases (ltb k 8)) [
      | inl early ↦
          let first : k < 8 = ground arith in
          let byte : k / 8 ≡ 0 = omega arith in
          let place : k % 8 ≡ k = omega arith in
          rw (byte, place, big_endian-cons b bytes, bit_first b k l (big_endian bytes) first small)
            refl
      | inr late ↦
          let beyond : 8 ≤ k = ground arith in
          let byte : k / 8 ≡ suc ((k - 8) / 8) = omega arith in
          let place : k % 8 ≡ (k - 8) % 8 = omega arith in
          let power : 8 * suc l - 1 - k ≡ 8 * l - 1 - (k - 8) = omega arith in
          rw
            (
              byte,
              place,
              power,
              big_endian-cons b bytes,
              bit_later b (k - 8) l (big_endian bytes) (omega arith),
            )
            (bit_at-big_endian bytes (k - 8) h.1 (omega arith))
    ]

next_bit :
    (n t bit r v b : ℕ)
    → bit + suc r ≤ t
    → b ≡ n / 2 ^ (t - (bit + 1)) % 2
    → (v * 2 + b) * 2 ^ r + n / 2 ^ (t - (bit + 1 + r)) % 2 ^ r
      ≡ v * 2 ^ suc r + n / 2 ^ (t - (bit + suc r)) % 2 ^ suc r
next_bit n t bit r v b inside is =
    let m = n / 2 ^ (t - (bit + suc r)) in
    let same : n / 2 ^ (t - (bit + 1 + r)) ≡ m = ap (λ k. n / 2 ^ k) (omega arith) in
    let place : t - (bit + 1) ≡ (t - (bit + suc r)) + r = omega arith in
    let top : n / 2 ^ (t - (bit + 1)) ≡ m / 2 ^ r =
      ap (λ k. n / 2 ^ k) place
      ∙ ap (λ k. n / k) (pow_add (t - (bit + suc r)) r)
      ∙ div_mul n (2 ^ (t - (bit + suc r))) (2 ^ r) in
    let twice : 2 ^ suc r ≡ 2 ^ r * 2 = omega arith in
    let b_is : b ≡ m / 2 ^ r % 2 = is ∙ ap (λ k. k % 2) top in
    let split = mod_double m (2 ^ r) (pow_pos r) in rw (same, twice, split, b_is) (omega arith)

extract_loop-big_endian :
    (rounds : ℕ) (bytes : List ℕ) (bit value : ℕ)
    → All IsByte bytes
    → bit + rounds ≤ 8 * length bytes
    → extract_loop rounds bytes bit value
      ≡ ok (
          value * 2 ^ rounds
          + big_endian bytes / 2 ^ (8 * length bytes - (bit + rounds)) % 2 ^ rounds)
unfolding extract_loop
extract_loop-big_endian zero bytes bit value h inside = ap (λ n. ok n) (omega arith)
extract_loop-big_endian (suc r) bytes bit value h inside =
    rw (extract_loop, index-get_or bytes (bit / 8) (omega arith))
      (extract_loop-big_endian r bytes (bit + 1) (value * 2 + bit_at bytes bit) h (omega arith)
        ∙ ap (λ n. ok n)
            (next_bit (big_endian bytes) (8 * length bytes) bit r value (bit_at bytes bit) inside (
              bit_at-big_endian bytes bit h (omega arith)
              ∙ ap (λ k. big_endian bytes / 2 ^ k % 2) (omega arith))))

-- Every bit field that is read is the slice of the data as one big-endian number, its first bit the
-- most significant: `bit_len` bits after `bit_pos` ones. A field is refused with ValueError exactly if
-- it ends beyond the data. The data are bytes.
pub extract_bits-big_endian :
    (bytes : List ℕ) (bit_pos bit_len : ℕ)
    → All IsByte bytes
    → extract_bits bytes bit_pos bit_len ≡ (
        if ltb (8 * length bytes) (bit_pos + bit_len)
        then raise value_error
        else ok (big_endian bytes / 2 ^ (8 * length bytes - (bit_pos + bit_len)) % 2 ^ bit_len))
unfolding extract_bits
extract_bits-big_endian bytes bit_pos bit_len h =
    elim (Bool-cases (ltb (8 * length bytes) (bit_pos + bit_len))) [
      | inl outside ↦
          let short : ltb (length bytes) ((bit_pos + bit_len + 7) / 8) ≡ true = ground arith in
          rw (outside, short) refl
      | inr inside ↦
          let long : ltb (length bytes) ((bit_pos + bit_len + 7) / 8) ≡ false = ground arith in
          let fits : bit_pos + bit_len ≤ 8 * length bytes = ground arith in
          rw (inside, long)
            (extract_loop-big_endian bit_len bytes bit_pos 0 h fits ∙ ap (λ n. ok n) (omega arith))
    ]
