-- ===== src/Demux/Specs/Layouts/HexPairs.antt =====
-- Two hex digits as parse_ascii_hex of leo_telemetry/demux/specs/common.py reads them.
use leo_telemetry.Base.{
  ℕ, zero, suc, ◌+◌, ◌*◌, ◌-◌, ◌≤◌, ◌<◌, ◌≡◌, refl, ap, ◌∙◌, List, [], ◌∷◌, ◌++◌, Bool, true, false,
  ◌&&◌, ◌||◌, some, arith, length, drop, slice, slice_of_drop, all, ltb, leb, ◌==◌, le→ltb, get_or,
  if◌then◌else◌, length-drop,
}
use leo_telemetry.Base.Int.{ℤ, pos}
use leo_telemetry.Base.Result.{Result, ok, raise, value_error, ◌>>=◌}
use leo_telemetry.Float.{FloatOps}
use leo_telemetry.Chars.{is_ascii, decode_ascii}
use leo_telemetry.Decode.Cw.{is_hex_digit}
use leo_telemetry.Demux.Errors.{OnlyValueError}
use leo_telemetry.Demux.Common.{
  hex_value, is_int_space, hex_digits, magnitude, int_base16, twos_complement, ascii_hex_int,
  parse_ascii_hex,
}

-- The value of an upper-case hex digit.
abbrev pub digit : ℕ → ℕ
digit c = if leb c b'9' then c - b'0' else c - b'A' + 10

hex_value-digit : (c : ℕ) → is_hex_digit c ≡ true → hex_value c ≡ some (digit c)
hex_value-digit c h = ground arith

-- A hex digit is neither a sign nor a space, and it is ASCII.
plain :
    (c : ℕ)
    → is_hex_digit c ≡ true
    → (is_int_space c ≡ false) × ((c == b'-') ≡ false) × ((c == b'+') ≡ false) × (is_ascii c ≡ true)
plain c h = (ground arith, ground arith, ground arith, ground arith)

no_prefix : (c d : ℕ) → is_hex_digit d ≡ true → (c == b'0' && (d == b'x' || d == b'X')) ≡ false
no_prefix c d h = ground arith

hex_digits-one :
    (need : Bool) (acc c : ℕ) (cs : List ℕ)
    → is_hex_digit c ≡ true
    → hex_digits need acc (c ∷ cs) ≡ hex_digits false (acc * 16 + digit c) cs
unfolding hex_digits
hex_digits-one need acc c cs h = rw (hex_value-digit c h, hex_digits) refl

magnitude-pair :
    (c d : ℕ)
    → is_hex_digit c ≡ true
    → is_hex_digit d ≡ true
    → magnitude (c ∷ d ∷ []) ≡ some (digit c * 16 + digit d)
unfolding hex_digits
magnitude-pair c d hc hd = rw (no_prefix c d hd) (
    hex_digits-one true 0 c (d ∷ []) hc
    ∙ hex_digits-one false (0 * 16 + digit c) d [] hd
    ∙ ap (λ n. some (n * 16 + digit d)) (omega arith))

int_base16-pair :
    (c d : ℕ)
    → is_hex_digit c ≡ true
    → is_hex_digit d ≡ true
    → int_base16 (c ∷ d ∷ []) ≡ some (pos (digit c * 16 + digit d))
unfolding int_base16
int_base16-pair c d hc hd =
    let (space, minus, plus, ascii) = plain c hc in
    rw (space, minus, plus, magnitude-pair c d hc hd) refl

decode_ascii-pair :
    (c d : ℕ)
    → is_hex_digit c ≡ true
    → is_hex_digit d ≡ true
    → decode_ascii (c ∷ d ∷ []) ≡ ok (c ∷ d ∷ [])
unfolding decode_ascii
decode_ascii-pair c d hc hd =
    let ascii : all is_ascii (c ∷ d ∷ []) ≡ true = rw ((plain c hc).3, (plain d hd).3) refl in
    rw ascii refl

both : (a b : Bool) → (a && b) ≡ true → (a ≡ true) × (b ≡ true)
both true true h = (refl, refl)
both true false h = cc
both false b h = cc

-- The two characters from a place on.
pair_at :
    (fields : List ℕ) (j : ℕ)
    → all is_hex_digit fields ≡ true
    → suc (suc j) ≤ length fields
    → (is_hex_digit (get_or fields j 0) ≡ true)
      × (is_hex_digit (get_or fields (suc j) 0) ≡ true)
      × (drop j fields
          ≡ (get_or fields j 0 ∷ get_or fields (suc j) 0 ∷ []) ++ drop (suc (suc j)) fields)
pair_at [] j h long = absurd (omega arith)
pair_at (c ∷ []) zero h long = absurd (omega arith)
pair_at (c ∷ d ∷ fields) zero h long =
    let (hc, rest) = both (is_hex_digit c) (all is_hex_digit (d ∷ fields)) h in
    let (hd, more) = both (is_hex_digit d) (all is_hex_digit fields) rest in (hc, hd, refl)
pair_at (c ∷ fields) (suc j) h long =
    let (hc, rest) = both (is_hex_digit c) (all is_hex_digit fields) h in
    pair_at fields j rest (omega arith)

-- The number that two hex digits stand for.
abbrev pub pair : List ℕ → ℕ → ℕ
pair fields j = digit (get_or fields j 0) * 16 + digit (get_or fields (suc j) 0)

abbrev pub signed_pair : Bool → List ℕ → ℕ → ℤ
signed_pair signed fields j =
    if signed then twos_complement 8 (pos (pair fields j)) else pos (pair fields j)

pub bind_fails :
    {A B : Type 0} (r : Result A) (f : A → Result B)
    → OnlyValueError r
    → ((a : A) → f a ≡ raise value_error)
    → (r >>= f) ≡ raise value_error
bind_fails (ok a) f only rest = rest a
bind_fails (raise e) f only rest = ap (λ x. raise x) (only.only e refl)

module _ (fl : FloatOps) (view fields : List ℕ) (hex : all is_hex_digit fields ≡ true) where
  -- Two hex digits are read, whatever the field.
  pub parse_ascii_hex-pair :
      (start j : ℕ) (signed : Bool) (scale : fl.F)
      → drop start view ≡ drop j fields
      → start ≤ length view
      → suc (suc j) ≤ length fields
      → parse_ascii_hex fl view start 2 signed scale
        ≡ ok (fl.mul (fl.of_ℤ (signed_pair signed fields j)) scale)
  unfolding parse_ascii_hex ascii_hex_int
  parse_ascii_hex-pair start j signed scale same inside long =
      let (hc, hd, here) = pair_at fields j hex long in
      let c = get_or fields j 0 in
      let d = get_or fields (suc j) 0 in
      let found : drop start view ≡ (c ∷ d ∷ []) ++ drop (suc (suc j)) fields = same ∙ here in
      let enough : ltb (length view) (start + 2) ≡ false =
        le→ltb _ _ (omega (arith, length-drop start view, ap length found, inside)) in
      let chars : slice view start (start + 2) ≡ c ∷ d ∷ [] =
        slice_of_drop view start (c ∷ d ∷ []) (drop (suc (suc j)) fields) found in
      rw (enough, chars, decode_ascii-pair c d hc hd, ◌>>=◌, int_base16-pair c d hc hd) refl

  -- A field that is cut off is refused.
  pub parse_ascii_hex-short :
      (start : ℕ) (signed : Bool) (scale : fl.F)
      → length view < start + 2
      → parse_ascii_hex fl view start 2 signed scale ≡ raise value_error
  unfolding parse_ascii_hex ascii_hex_int
  parse_ascii_hex-short start signed scale short =
      let cut : ltb (length view) (start + 2) ≡ true = ground arith in rw cut refl
