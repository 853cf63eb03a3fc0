-- ===== src/Decode/FrameSync.antt =====
-- leo_telemetry/decode/frame_sync.py: flag detection, bit-destuffing and octet packing.
-- A bitstring is the list of its code points. The `bytes` form of the input of
-- `find_frame_boundaries` is decoded as ASCII first, which raises a ValueError where the test on the
-- characters does, so one function on code points serves both.
pub mod Stuffing
pub mod Octets
pub mod Flags
pub mod Streams
pub mod Bounds
use mathlib.Core.List.{reverse, foldl}
use leo_telemetry.Base.{
  ℕ, zero, suc, ◌+◌, ◌-◌, ◌*◌, ◌/◌, ◌%◌, List, [], ◌∷◌, ◌++◌, Bool, true, false, not, ◌&&◌, ◌||◌,
  Option, none, some, ltb, ◌==◌, if◌then◌else◌, length, take, drop, slice, all, any, codes,
}
use leo_telemetry.Base.Result.{Result, ok, raise, value_error, ◌>>=◌}

-- AX25_FLAG_BITS
abbrev pub flag_bits : List ℕ
flag_bits = b'0' ∷ b'1' ∷ b'1' ∷ b'1' ∷ b'1' ∷ b'1' ∷ b'1' ∷ b'0' ∷ []

-- `bit in "01"` for a string of one character
abbrev pub is_bit : ℕ → Bool
is_bit b = b == b'0' || b == b'1'

-- int(text, 2) for a text of '0' and '1'
abbrev pub int_base2 : List ℕ → ℕ
int_base2 = foldl (λ n b. n * 2 + (b - b'0')) 0

-- One octet for each index of range(0, len(bits), 8): `rounds` of them.
pub octets : ℕ → List ℕ → List ℕ
octets zero bits = []
octets (suc rounds) bits = int_base2 (reverse (take 8 bits)) ∷ octets rounds (drop 8 bits)

pub bits_to_bytes : List ℕ → Result (List ℕ)
unfolding octets
bits_to_bytes bits =
    if not (length bits % 8 == 0)
    then raise value_error
    else if any (λ b. not (is_bit b)) bits
    then raise value_error
    else ok (octets (length bits / 8) bits)

-- One round of the loop of `bit_destuff`: the next count of ones and the bits that are kept, or
-- `none` where it raises.
abbrev pub destuff_step : ℕ → ℕ → Option (ℕ × List ℕ)
destuff_step b ones =
    if b == b'1'
    then (if ltb 5 (ones + 1) then none else some (ones + 1, b ∷ []))
    else if ones == 5
    then some (0, [])
    else some (0, b ∷ [])

pub destuff_from : List ℕ → ℕ → List ℕ → Result (List ℕ)
destuff_from [] ones unstuffed = ok unstuffed
destuff_from (b ∷ bits) ones unstuffed = elim (destuff_step b ones) [
  | none ↦ raise value_error
  | some (ones', kept) ↦ destuff_from bits ones' (unstuffed ++ kept)
]

pub bit_destuff : List ℕ → Result (List ℕ)
unfolding destuff_from
bit_destuff [] = raise value_error
bit_destuff (b ∷ bits) =
    if not (all is_bit (b ∷ bits)) then raise value_error else destuff_from (b ∷ bits) 0 []

abbrev pub starts_with : List ℕ → List ℕ → Bool
starts_with [] bits = true
starts_with (p ∷ ps) [] = false
starts_with (p ∷ ps) (b ∷ bits) = p == b && starts_with ps bits

-- The index of the first occurrence of `pattern`, where the head of the list has index `i`.
unfoldable pub find_in : List ℕ → List ℕ → ℕ → Option ℕ
find_in pattern [] i = if starts_with pattern [] then some i else none
find_in pattern (b ∷ bits) i =
    let rest = find_in pattern bits (i + 1) in
    if starts_with pattern (b ∷ bits) then some i else rest

-- bits.find(pattern, start), for a pattern that is not empty
unfoldable pub find : List ℕ → List ℕ → ℕ → Option ℕ
find pattern bits start = find_in pattern (drop start bits) start

-- The `while` loop that collects the flags, on fuel.
unfoldable pub flag_loop : ℕ → List ℕ → ℕ → List ℕ
flag_loop zero bits start = []
flag_loop (suc fuel) bits start = elim (find flag_bits bits start) [
  | none ↦ []
  | some index ↦ index ∷ flag_loop fuel bits (index + length flag_bits)
]

-- The comprehension over zip(flags, flags[1:])
unfoldable pub pair_up : List ℕ → List (ℕ × ℕ)
pair_up (left ∷ right ∷ flags) =
    let rest = pair_up (right ∷ flags) in
    if ltb (left + length flag_bits) right then (left + length flag_bits, right) ∷ rest else rest
pair_up _ = []

-- A round of the loop moves `start` on by eight at least, so this fuel is enough.
unfoldable pub find_frame_boundaries : List ℕ → Result (List (ℕ × ℕ))
unfolding flag_loop find pair_up
find_frame_boundaries bits =
    if any (λ b. not (is_bit b)) bits
    then raise value_error
    else ok (pair_up (flag_loop (suc (length bits)) bits 0))

-- One round of the loop of `extract_frames`: a ValueError skips the frame.
abbrev pub append_frame : Result (List ℕ) → List (List ℕ) → List (List ℕ)
append_frame (ok frame) frames = frame ∷ frames
append_frame (raise e) frames = frames

pub frames_between : List ℕ → List (ℕ × ℕ) → List (List ℕ)
unfolding bit_destuff bits_to_bytes
frames_between bits [] = []
frames_between bits ((start, end) ∷ bounds) =
    append_frame (bit_destuff (slice bits start end) >>= bits_to_bytes) (frames_between bits bounds)

pub extract_frames : List ℕ → Result (List (List ℕ))
unfolding find_frame_boundaries frames_between
extract_frames bits = do bounds ← find_frame_boundaries bits; ok (frames_between bits bounds)
