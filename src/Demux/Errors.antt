-- ===== src/Demux/Errors.antt =====
-- Which exceptions the demux stage raises: the worker catches ValueError and nothing else.
use leo_telemetry.Base.{
  ℕ, zero, suc, ◌+◌, ◌*◌, ◌/◌, ◌≤◌, ◌<◌, ◌≡◌, refl, List, [], ◌∷◌, Bool, true, false, if◌then◌else◌,
  arith, ltb, length, Bool-cases, inl, inr,
}
use leo_telemetry.Base.Result.{Error, Result, ok, raise, value_error, ◌>>=◌, traverse}
use leo_telemetry.Float.{FloatOps}
use leo_telemetry.Chars.{decode_ascii}
use leo_telemetry.Demux.Specs.Sonate2.{extract_loop, extract_bits}
use leo_telemetry.Demux.Common.Numbers.{index-get_or}
use leo_telemetry.Demux.Common.{
  Struct, index, size, unpack_from, unpack_from_view, ascii_hex_int, parse_ascii_hex,
}

-- `r` raises ValueError or nothing.
pub record OnlyValueError {ℓ} {A : Type ℓ} (r : Result A) : Type ℓ where
  pub only : (e : Error) → r ≡ raise e → e ≡ value_error

pub OnlyValueError-ok {ℓ} : {A : Type ℓ} (a : A) → OnlyValueError (ok a)
OnlyValueError-ok a = record { only = λ e h. cc }

pub OnlyValueError-raise {ℓ} :
    {A : Type ℓ} (r : Result A) → r ≡ raise value_error → OnlyValueError r
OnlyValueError-raise r q = record { only = λ e h. cc }

pub OnlyValueError-if {ℓ} :
    {A : Type ℓ} (b : Bool) {r s : Result A}
    → OnlyValueError r
    → OnlyValueError s
    → OnlyValueError (if b then r else s)
OnlyValueError-if true hr hs = hr
OnlyValueError-if false hr hs = hs

pub OnlyValueError-bind {ℓ κ} :
    {A : Type ℓ} {B : Type κ} (r : Result A) (f : A → Result B)
    → OnlyValueError r
    → ((a : A) → OnlyValueError (f a))
    → OnlyValueError (r >>= f)
OnlyValueError-bind (ok a) f hr hf = hf a
OnlyValueError-bind (raise e) f hr hf = record { only = λ e' h. hr.only e' (cc) }

pub OnlyValueError-traverse {ℓ κ} :
    {A : Type ℓ} {B : Type κ} (f : A → Result B) (xs : List A)
    → ((a : A) → OnlyValueError (f a))
    → OnlyValueError (traverse f xs)
OnlyValueError-traverse f [] h = OnlyValueError-ok []
OnlyValueError-traverse f (x ∷ xs) h =
    OnlyValueError-bind (f x) (λ y. traverse f xs >>= λ ys. ok (y ∷ ys)) (h x)
      (λ y.
        OnlyValueError-bind (traverse f xs) (λ ys. ok (y ∷ ys)) (OnlyValueError-traverse f xs h)
          (λ ys. OnlyValueError-ok (y ∷ ys)))

pub OnlyValueError-unpack_from_view :
    (s : Struct) (buffer : List ℕ) (offset : ℕ) → OnlyValueError (unpack_from_view s buffer offset)
unfolding unpack_from_view unpack_from
OnlyValueError-unpack_from_view s buffer offset =
    elim (Bool-cases (ltb (length buffer) (offset + size s))) [
      | inl short ↦ rw short (OnlyValueError-raise _ refl)
      | inr long ↦ rw long (OnlyValueError-ok _)
    ]

pub OnlyValueError-decode_ascii : (bytes : List ℕ) → OnlyValueError (decode_ascii bytes)
unfolding decode_ascii
OnlyValueError-decode_ascii bytes =
    OnlyValueError-if _ (OnlyValueError-ok _) (OnlyValueError-raise _ refl)

pub OnlyValueError-ascii_hex_int :
    (buffer : List ℕ) (start width : ℕ) (signed : Bool)
    → OnlyValueError (ascii_hex_int buffer start width signed)
unfolding ascii_hex_int
OnlyValueError-ascii_hex_int buffer start width signed = record { only = λ e h. ground arith }

pub OnlyValueError-parse_ascii_hex :
    (fl : FloatOps) (buffer : List ℕ) (start width : ℕ) (signed : Bool) (scale : fl.F)
    → OnlyValueError (parse_ascii_hex fl buffer start width signed scale)
unfolding parse_ascii_hex
OnlyValueError-parse_ascii_hex fl buffer start width signed scale =
    OnlyValueError-bind (ascii_hex_int buffer start width signed) _
      (OnlyValueError-ascii_hex_int buffer start width signed) (λ val. OnlyValueError-ok _)

-- An index inside the data raises nothing.
pub OnlyValueError-index :
    (bytes : List ℕ) (i : ℕ) → i < length bytes → OnlyValueError (index bytes i)
OnlyValueError-index bytes i inside = rw (index-get_or bytes i inside) (OnlyValueError-ok _)

OnlyValueError-extract_loop :
    (rounds : ℕ) (bytes : List ℕ) (bit value : ℕ)
    → bit + rounds ≤ 8 * length bytes
    → OnlyValueError (extract_loop rounds bytes bit value)
unfolding extract_loop
OnlyValueError-extract_loop zero bytes bit value inside = OnlyValueError-ok value
OnlyValueError-extract_loop (suc rounds) bytes bit value inside =
    rw (extract_loop, index-get_or bytes (bit / 8) (omega arith))
      (OnlyValueError-extract_loop rounds bytes (bit + 1) _ (omega arith))

pub OnlyValueError-extract_bits :
    (bytes : List ℕ) (bit_pos bit_len : ℕ) → OnlyValueError (extract_bits bytes bit_pos bit_len)
unfolding extract_bits
OnlyValueError-extract_bits bytes bit_pos bit_len =
    elim (Bool-cases (ltb (length bytes) ((bit_pos + bit_len + 7) / 8))) [
      | inl outside ↦ rw outside (OnlyValueError-raise _ refl)
      | inr inside ↦
          rw (inside, extract_bits)
            (OnlyValueError-extract_loop bit_len bytes bit_pos 0 (ground arith))
    ]

pub ruleset value_errors = (
  OnlyValueError-ok, OnlyValueError-raise, OnlyValueError-if, OnlyValueError-bind,
  OnlyValueError-traverse, OnlyValueError-unpack_from_view, OnlyValueError-parse_ascii_hex,
)
