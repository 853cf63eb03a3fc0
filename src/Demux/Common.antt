-- ===== src/Demux/Common.antt =====
-- leo_telemetry/demux/specs/common.py: bounds-checked struct unpacking and ASCII-hex parsing.
-- `struct` formats with an explicit byte order have no padding. Offsets and lengths are numbers, so
-- the source's tests for negative ones have no counterpart.
pub mod Numbers
pub mod Packing
use mathlib.Core.List.{foldl}
use leo_telemetry.Base.{
  ℕ, zero, suc, ◌+◌, ◌-◌, ◌*◌, ◌^◌, List, [], ◌∷◌, Bool, true, false, ◌&&◌, ◌||◌, Option, none,
  some, ltb, leb, ◌==◌, if◌then◌else◌, length, slice, all, String,
}
use leo_telemetry.Base.Int.{ℤ, pos, negsuc, neg, sub_ℕ}
use leo_telemetry.Base.Result.{Result, ok, raise, value_error, index_error, struct_error, ◌>>=◌}
use leo_telemetry.Chars.{decode_ascii}
use leo_telemetry.Float.{FloatOps}
use leo_telemetry.Models.{TelemetryMetric}
use leo_telemetry.Decode.Crc16.{little_endian}

pub data ByteOrder : Type 0 where
  little big : ByteOrder

-- struct.Struct: the byte order, and the width in bytes of each field (B is 1, H is 2, I is 4).
pub record Struct : Type 0 where
  pub order : ByteOrder
  pub widths : List ℕ

abbrev pub sum : List ℕ → ℕ
sum [] = 0
sum (w ∷ ws) = w + sum ws

abbrev pub size : Struct → ℕ
size s = sum s.widths

abbrev pub big_endian : List ℕ → ℕ
big_endian = foldl (λ n b. n * 256 + b) 0

abbrev pub number : ByteOrder → List ℕ → ℕ
number little bytes = little_endian bytes
number big bytes = big_endian bytes

-- The fields of a buffer that is long enough.
unfoldable pub unpack : ByteOrder → List ℕ → List ℕ → ℕ → List ℕ
unpack order [] buffer offset = []
unpack order (w ∷ widths) buffer offset =
    number order (slice buffer offset (offset + w)) ∷ unpack order widths buffer (offset + w)

-- Struct.unpack_from, which raises struct.error on a buffer that is too short.
unfoldable pub unpack_from : Struct → List ℕ → ℕ → Result (List ℕ)
unfolding unpack
unpack_from s buffer offset =
    if ltb (length buffer) (offset + size s)
    then raise struct_error
    else ok (unpack s.order s.widths buffer offset)

unfoldable pub unpack_from_view : Struct → List ℕ → ℕ → Result (List ℕ)
unfolding unpack_from
unpack_from_view format_str buffer offset =
    if ltb (length buffer) (offset + size format_str)
    then raise value_error
    else unpack_from format_str buffer offset

-- view[i], which raises IndexError behind the end.
abbrev pub index : List ℕ → ℕ → Result ℕ
index [] i = raise index_error
index (b ∷ bytes) zero = ok b
index (b ∷ bytes) (suc i) = index bytes i

-- The value of a hex digit.
abbrev pub hex_value : ℕ → Option ℕ
hex_value c =
    if leb b'0' c && leb c b'9'
    then some (c - b'0')
    else if leb b'A' c && leb c b'F'
    then some (c - b'A' + 10)
    else if leb b'a' c && leb c b'f'
    then some (c - b'a' + 10)
    else none

-- The white space that `int` skips in ASCII text.
abbrev pub is_int_space : ℕ → Bool
is_int_space c = (leb 9 c && leb c 13) || c == 32

-- The digits of int(text, 16): single underscores may stand between digits, and white space behind
-- them. `need` says that a digit must come next.
unfoldable pub hex_digits : Bool → ℕ → List ℕ → Option ℕ
hex_digits need acc [] = if need then none else some acc
hex_digits need acc (c ∷ cs) =
    let more = hex_digits true acc cs in
    elim (hex_value c) [
      | some v ↦ hex_digits false (acc * 16 + v) cs
      | none ↦
          if need
          then none
          else if c == b'_'
          then more
          else if all is_int_space (c ∷ cs)
          then some acc
          else none
    ]

-- An optional 0x, and an optional underscore behind it.
abbrev pub skip_underscore : List ℕ → List ℕ
skip_underscore [] = []
skip_underscore (c ∷ cs) = if c == b'_' then cs else c ∷ cs

abbrev pub skip_prefix : List ℕ → List ℕ
skip_prefix (c ∷ d ∷ cs) =
    if c == b'0' && (d == b'x' || d == b'X') then skip_underscore cs else c ∷ d ∷ cs
skip_prefix cs = cs

abbrev pub magnitude : List ℕ → Option ℕ
magnitude cs = hex_digits true 0 (skip_prefix cs)

abbrev pub with_sign : (ℕ → ℤ) → Option ℕ → Option ℤ
with_sign f none = none
with_sign f (some n) = some (f n)

-- int(text, 16), `none` where it raises a ValueError
unfoldable pub int_base16 : List ℕ → Option ℤ
unfolding hex_digits
int_base16 [] = none
int_base16 (c ∷ cs) =
    if is_int_space c
    then int_base16 cs
    else if c == b'-'
    then with_sign (λ n. neg (pos n)) (magnitude cs)
    else if c == b'+'
    then with_sign pos (magnitude cs)
    else with_sign pos (magnitude (c ∷ cs))

-- val -= 1 << bit_width, if it is at least 1 << (bit_width - 1)
abbrev pub twos_complement : ℕ → ℤ → ℤ
twos_complement bit_width (pos n) =
    if leb (2 ^ (bit_width - 1)) n then sub_ℕ n (2 ^ bit_width) else pos n
twos_complement bit_width (negsuc n) = negsuc n

-- The integer that `parse_ascii_hex` scales.
unfoldable pub ascii_hex_int : List ℕ → ℕ → ℕ → Bool → Result ℤ
unfolding decode_ascii int_base16
ascii_hex_int buffer start width signed =
    if ltb (length buffer) (start + width)
    then raise value_error
    else decode_ascii (slice buffer start (start + width)) >>= λ raw_str.
        elim (int_base16 raw_str) [
          | none ↦ raise value_error
          | some val ↦ ok (if signed then twos_complement (width * 4) val else val)
        ]

module _ (fl : FloatOps) where
  unfoldable pub parse_ascii_hex : List ℕ → ℕ → ℕ → Bool → fl.F → Result fl.F
  unfolding ascii_hex_int
  parse_ascii_hex buffer start width signed scale = do
    val ← ascii_hex_int buffer start width signed
    ok (fl.mul (fl.of_ℤ val) scale)

  abbrev pub metric : String → fl.F → String → TelemetryMetric fl.F
  metric name value unit = record { name = name; value = value; unit = unit }

  -- TelemetryMetric(name, float(n), unit) of an unpacked number
  abbrev pub raw_metric : String → ℕ → String → TelemetryMetric fl.F
  raw_metric name n unit = metric name (fl.of_ℤ (pos n)) unit

  abbrev pub Metrics : Type 0
  Metrics = List (TelemetryMetric fl.F)
