-- ===== src/Config/Ids.antt =====
-- The list of satellites that the environment names.
use mathlib.Core.List.{foldl}
use leo_telemetry.Base.{
  ℕ, zero, suc, ◌+◌, ◌-◌, ◌*◌, ◌/◌, ◌%◌, ◌<◌, ◌≡◌, refl, ap, sym, ◌∙◌, List, [], ◌∷◌, ◌++◌, map,
  append-nil, Bool, true, false, ◌==◌, ◌&&◌, leb, ltb, Bool-cases, inl, inr, Option, none, some,
  all, arith,
}
use leo_telemetry.Base.Int.{pos}
use leo_telemetry.Base.Result.{ok, traverse}
use leo_telemetry.Chars.{is_graphic, strip, strip-pad}
use leo_telemetry.Models.{digits_of, show_ℕ}
use leo_telemetry.Config.{digit_step, natural, signed, int, split, parse_ids}

abbrev pub is_digit : ℕ → Bool
is_digit c = leb b'0' c && leb c b'9'

-- ",".join(str(n) for n in ids)
abbrev pub join_ids : List ℕ → List ℕ
join_ids [] = []
join_ids (n ∷ []) = show_ℕ n
join_ids (n ∷ m ∷ ids) = show_ℕ n ++ (b',' ∷ join_ids (m ∷ ids))

all_digits-append :
    (xs : List ℕ) (d : ℕ)
    → all is_digit xs ≡ true
    → is_digit d ≡ true
    → all is_digit (xs ++ d ∷ []) ≡ true
all_digits-append [] d h e = ground arith
all_digits-append (x ∷ xs) d h e = ground (arith, all_digits-append xs d)

foldl_last :
    (f : Option (ℕ × Bool) → ℕ → Option (ℕ × Bool)) (s : Option (ℕ × Bool)) (xs : List ℕ) (d : ℕ)
    → foldl f s (xs ++ d ∷ []) ≡ f (foldl f s xs) d
foldl_last f s [] d = refl
foldl_last f s (x ∷ xs) d = foldl_last f (f s x) xs d

digit_step-digit :
    (n d : ℕ) (after : Bool)
    → d < 10
    → digit_step (some (n, after)) (b'0' + d) ≡ some (n * 10 + d, true)
digit_step-digit n d after h =
    let low : leb 48 (48 + d) ≡ true = ground arith in
    let high : leb (48 + d) 57 ≡ true = ground arith in
    let same : n * 10 + (48 + d - 48) ≡ n * 10 + d = omega arith in rw (low, high, same) refl

is_digit-digit : (d : ℕ) → d < 10 → is_digit (b'0' + d) ≡ true
is_digit-digit d h =
    let low : leb 48 (48 + d) ≡ true = ground arith in
    let high : leb (48 + d) 57 ≡ true = ground arith in rw (low, high) refl

digits_of-digits : (fuel n : ℕ) → n < fuel → all is_digit (digits_of fuel n) ≡ true
unfolding digits_of
digits_of-digits zero n h = absurd (omega arith)
digits_of-digits (suc fuel) n h = elim (Bool-cases (ltb n 10)) [
  | inl one ↦
      rw (digits_of, one)
        (all_digits-append [] (b'0' + n % 10) refl (is_digit-digit (n % 10) (omega arith)))
  | inr more ↦
      rw (digits_of, more)
        (all_digits-append (digits_of fuel (n / 10)) (b'0' + n % 10)
          (digits_of-digits fuel (n / 10) (ground arith)) (is_digit-digit (n % 10) (omega arith)))
]

foldl-digits_of :
    (fuel n : ℕ) → n < fuel → foldl digit_step (some (0, false)) (digits_of fuel n) ≡ some (n, true)
unfolding digits_of
foldl-digits_of zero n h = absurd (omega arith)
foldl-digits_of (suc fuel) n h = elim (Bool-cases (ltb n 10)) [
  | inl one ↦
      rw (digits_of, one)
        (digit_step-digit 0 (n % 10) false (omega arith) ∙ ap (λ k. some (k, true)) (ground arith))
  | inr more ↦
      rw (digits_of, more, foldl_last, foldl-digits_of fuel (n / 10) (ground arith))
        (digit_step-digit (n / 10) (n % 10) true (omega arith)
          ∙ ap (λ k. some (k, true)) (omega arith))
]

show_ℕ-digits : (n : ℕ) → all is_digit (show_ℕ n) ≡ true
unfolding show_ℕ
show_ℕ-digits n = digits_of-digits (suc n) n (omega arith)

-- A text of digits has no sign, no space and no comma.
signed-natural :
    (text : List ℕ)
    → all is_digit text ≡ true
    → signed text ≡ (elim (natural text) [ none ↦ none | some n ↦ some (pos n) ])
signed-natural [] h = refl
signed-natural (c ∷ cs) h =
    let minus : (c == b'-') ≡ false = ground arith in
    let plus : (c == b'+') ≡ false = ground arith in rw (minus, plus) refl

strip-digits : (text : List ℕ) → all is_digit text ≡ true → strip text ≡ text
strip-digits text h = ap strip (sym (append-nil text)) ∙ strip-pad text 0 (all_graphic text h)
  where
    all_graphic : (text : List ℕ) → all is_digit text ≡ true → all is_graphic text ≡ true
    all_graphic [] h = refl
    all_graphic (c ∷ cs) h = ground (arith, all_graphic cs)

natural-show_ℕ : (n : ℕ) → natural (show_ℕ n) ≡ some n
unfolding show_ℕ
natural-show_ℕ n = rw (natural, foldl-digits_of (suc n) n (omega arith)) refl

int-show_ℕ : (n : ℕ) → int (show_ℕ n) ≡ ok (pos n)
unfolding int
int-show_ℕ n =
    rw
      (
        int,
        strip-digits (show_ℕ n) (show_ℕ-digits n),
        signed-natural (show_ℕ n) (show_ℕ-digits n),
        natural-show_ℕ n,
      )
      refl

split-digits : (text : List ℕ) → all is_digit text ≡ true → split text ≡ text ∷ []
unfolding split
split-digits [] h = refl
split-digits (c ∷ cs) h =
    let comma : (c == b',') ≡ false = ground arith in
    rw (split-digits cs (ground arith), comma) refl

split-comma :
    (text rest : List ℕ)
    → all is_digit text ≡ true
    → split (text ++ (b',' ∷ rest)) ≡ text ∷ split rest
unfolding split
split-comma [] rest h = refl
split-comma (c ∷ cs) rest h =
    let comma : (c == b',') ≡ false = ground arith in
    rw (split-comma cs rest (ground arith), comma) refl

split-join_ids : (n : ℕ) (ids : List ℕ) → split (join_ids (n ∷ ids)) ≡ map show_ℕ (n ∷ ids)
split-join_ids n [] = split-digits (show_ℕ n) (show_ℕ-digits n)
split-join_ids n (m ∷ ids) =
    split-comma (show_ℕ n) (join_ids (m ∷ ids)) (show_ℕ-digits n)
    ∙ ap (λ parts. show_ℕ n ∷ parts) (split-join_ids m ids)

read_all :
    (ids : List ℕ) → traverse (λ value. int (strip value)) (map show_ℕ ids) ≡ ok (map pos ids)
read_all [] = refl
read_all (n ∷ ids) = rw (strip-digits (show_ℕ n) (show_ℕ-digits n), int-show_ℕ n, read_all ids) refl

-- A list of satellite numbers, not empty and written in decimal with commas between them, is read as
-- these numbers in that order, and raises nothing.
pub parse_ids-join_ids :
    (n : ℕ) (ids : List ℕ) → parse_ids (join_ids (n ∷ ids)) ≡ ok (map pos (n ∷ ids))
unfolding parse_ids
parse_ids-join_ids n ids = rw (split-join_ids n ids) (read_all (n ∷ ids))
