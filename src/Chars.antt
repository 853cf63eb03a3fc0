-- ===== src/Chars.antt =====
-- The methods of Python's `str` and `bytes` that the decoders call, on lists of code points. They are
-- written for ASCII text, which is what the code calls them on.
use leo_telemetry.Base.{
  ℕ, zero, suc, ◌-◌, ◌≡◌, refl, List, [], ◌∷◌, ◌++◌, Bool, true, false, ◌&&◌, ◌||◌, ltb, leb,
  if◌then◌else◌, arith, all,
}
use leo_telemetry.Base.Result.{Result, ok, raise, value_error}

abbrev pub is_ascii : ℕ → Bool
is_ascii c = ltb c 128

-- bytes.decode("ascii"); its UnicodeDecodeError is a ValueError.
unfoldable pub decode_ascii : List ℕ → Result (List ℕ)
decode_ascii bytes = if all is_ascii bytes then ok bytes else raise value_error

-- str.isspace of one character
abbrev pub is_space : ℕ → Bool
is_space c = (leb 9 c && leb c 13) || (leb 28 c && leb c 32)

unfoldable pub lstrip : List ℕ → List ℕ
lstrip [] = []
lstrip (c ∷ cs) = if is_space c then lstrip cs else c ∷ cs

-- A character is dropped when it is a space and nothing is kept behind it.
abbrev pub rstrip_cons : ℕ → List ℕ → List ℕ
rstrip_cons c [] = if is_space c then [] else c ∷ []
rstrip_cons c (d ∷ ds) = c ∷ d ∷ ds

unfoldable pub rstrip : List ℕ → List ℕ
rstrip [] = []
rstrip (c ∷ cs) = rstrip_cons c (rstrip cs)

-- str.strip()
unfoldable pub strip : List ℕ → List ℕ
unfolding lstrip rstrip
strip cs = rstrip (lstrip cs)

-- str.upper()
unfoldable pub upper : ℕ → ℕ
upper c = if leb b'a' c && leb c b'z' then c - 32 else c

-- "".join(text.split())
unfoldable pub collapse : List ℕ → List ℕ
collapse [] = []
collapse (c ∷ cs) = if is_space c then collapse cs else c ∷ collapse cs

abbrev pub spaces : ℕ → List ℕ
spaces zero = []
spaces (suc n) = b' ' ∷ spaces n

-- Printable ASCII without the space: what a callsign is made of.
abbrev pub is_graphic : ℕ → Bool
is_graphic c = leb 33 c && leb c 126

rstrip-spaces : (n : ℕ) → rstrip (spaces n) ≡ []
unfolding rstrip
rstrip-spaces zero = refl
rstrip-spaces (suc n) = rw (rstrip-spaces n)

rstrip_cons-graphic : (c : ℕ) (cs : List ℕ) → is_graphic c ≡ true → rstrip_cons c cs ≡ c ∷ cs
rstrip_cons-graphic c [] h = ground arith
rstrip_cons-graphic c (d ∷ cs) h = refl

rstrip-append : (cs : List ℕ) (n : ℕ) → all is_graphic cs ≡ true → rstrip (cs ++ spaces n) ≡ cs
unfolding rstrip
rstrip-append [] n h = rstrip-spaces n
rstrip-append (c ∷ cs) n h =
    rw (rstrip-append cs n (ground arith)) (rstrip_cons-graphic c cs (ground arith))

lstrip-spaces : (n : ℕ) → lstrip (spaces n) ≡ []
unfolding lstrip
lstrip-spaces zero = refl
lstrip-spaces (suc n) = lstrip-spaces n

-- Stripping a text without spaces that was padded on the right gives the text.
pub strip-pad : (cs : List ℕ) (n : ℕ) → all is_graphic cs ≡ true → strip (cs ++ spaces n) ≡ cs
unfolding strip
strip-pad [] n h = rw lstrip-spaces
strip-pad (c ∷ cs) n h =
    let first : is_space c ≡ false = ground arith in rw first (rstrip-append (c ∷ cs) n h)

pub decode_ascii-all : (bytes : List ℕ) → all is_ascii bytes ≡ true → decode_ascii bytes ≡ ok bytes
unfolding decode_ascii
decode_ascii-all bytes h = rw h
