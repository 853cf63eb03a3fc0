-- ===== src/Decode/FrameSync/Bounds.antt =====
-- The slices that `extract_frames` takes: `find_frame_boundaries` returns only bounds inside the
-- bitstring, between two flags with no flag in between, and its loop never runs out of fuel.
use leo_telemetry.Base.{
  ℕ, zero, suc, ◌+◌, ◌-◌, ◌≤◌, ◌<◌, ◌≡◌, refl, ◌∙◌, ap, sym, inl, inr, List, [], ◌∷◌, true, not,
  none, some, ltb, arith, length, drop, any, All, length-drop, Bool-cases, Option-cases, drop-drop,
  ltb→lt,
}
use leo_telemetry.Base.Result.{ok-injective, ok}
use leo_telemetry.Decode.FrameSync.{
  is_bit, flag_bits, starts_with, find_in, find, flag_loop, pair_up, find_frame_boundaries,
}

starts_with-length :
    (pattern bits : List ℕ) → starts_with pattern bits ≡ true → length pattern ≤ length bits
starts_with-length [] bits h = omega arith
starts_with-length (p ∷ ps) [] h = absurd (cc)
starts_with-length (p ∷ ps) (b ∷ bits) h = ground (arith, starts_with-length ps bits)

-- What `find_in` returns: an index where the whole pattern stands.
find_in-some :
    (pattern bits : List ℕ) (i j : ℕ)
    → find_in pattern bits i ≡ some j
    → (i ≤ j)
      × (j + length pattern ≤ i + length bits)
      × (starts_with pattern (drop (j - i) bits) ≡ true)
unfolding find_in
find_in-some pattern [] i j h = elim (Bool-cases (starts_with pattern [])) [
  | inl here ↦
      let e : i ≡ j = ground (arith, rw here at h) in
      let z : j - i ≡ 0 = omega arith in
      (omega arith, omega (arith, starts_with-length pattern [] here), rw z here)
  | inr later ↦ cc (rw later at h)
]
find_in-some pattern (b ∷ bits) i j h = elim (Bool-cases (starts_with pattern (b ∷ bits))) [
  | inl here ↦
      let e : i ≡ j = ground (arith, rw here at h) in
      let z : j - i ≡ 0 = omega arith in
      (omega arith, omega (arith, starts_with-length pattern (b ∷ bits) here), rw z here)
  | inr later ↦
      let (low, high, there) = find_in-some pattern bits (i + 1) j (rw later at h) in
      let s : j - i ≡ suc (j - (i + 1)) = omega arith in (omega arith, omega arith, rw s there)
]

-- What `find` returns lies at or behind `start`, inside the bits, and the flag stands there.
pub find-some :
    (bits : List ℕ) (start index : ℕ)
    → find flag_bits bits start ≡ some index
    → (start ≤ index) × (index + 8 ≤ length bits) × (starts_with flag_bits (drop index bits) ≡ true)
unfolding find
find-some bits start index h =
    let (low, high, there) = find_in-some flag_bits (drop start bits) start index h in
    let at_index : start + (index - start) ≡ index = omega arith in
    (
      low,
      omega (arith, length-drop start bits),
      ap (λ n. starts_with flag_bits (drop n bits)) (sym at_index)
          ∙ ap (starts_with flag_bits) (sym (drop-drop (index - start) start bits))
          ∙ there,
    )

-- A flag found at `left` and the search that finds the next one at `right`.
abbrev IsGap : List ℕ → ℕ → ℕ → Type 0
IsGap bits left right =
    (starts_with flag_bits (drop left bits) ≡ true)
    × (right + 8 ≤ length bits)
    × (starts_with flag_bits (drop right bits) ≡ true)
    × (find flag_bits bits (left + 8) ≡ some right)

abbrev Linked : List ℕ → List ℕ → Type 0
Linked bits (left ∷ right ∷ flags) = IsGap bits left right × Linked bits (right ∷ flags)
Linked bits _ = Unit

flag_loop-Linked :
    (fuel : ℕ) (bits : List ℕ) (left : ℕ)
    → starts_with flag_bits (drop left bits) ≡ true
    → Linked bits (left ∷ flag_loop fuel bits (left + 8))
unfolding flag_loop
flag_loop-Linked zero bits left h = tt
flag_loop-Linked (suc fuel) bits left h = elim (Option-cases (find flag_bits bits (left + 8))) [
  | inl e ↦ rw (e, flag_loop) tt
  | inr (right, e) ↦
      let (low, high, there) = find-some bits (left + 8) right e in
      rw (e, flag_loop) ((h, high, there, e), flag_loop-Linked fuel bits right there)
]

flag_loop-Linked_first : (fuel : ℕ) (bits : List ℕ) → Linked bits (flag_loop fuel bits 0)
unfolding flag_loop
flag_loop-Linked_first zero bits = tt
flag_loop-Linked_first (suc fuel) bits = elim (Option-cases (find flag_bits bits 0)) [
  | inl e ↦ rw (e, flag_loop) tt
  | inr (index, e) ↦
      rw (e, flag_loop) (flag_loop-Linked fuel bits index (find-some bits 0 index e).2)
]

-- The bounds of a frame: not empty, inside the bits, with a flag directly before and a flag directly
-- behind, the first that a search from the frame's start finds.
abbrev pub IsBoundary : List ℕ → ℕ × ℕ → Type 0
IsBoundary bits b =
    (8 ≤ b.0)
    × (b.0 < b.1)
    × (b.1 + 8 ≤ length bits)
    × (starts_with flag_bits (drop (b.0 - 8) bits) ≡ true)
    × (starts_with flag_bits (drop b.1 bits) ≡ true)
    × (find flag_bits bits b.0 ≡ some b.1)

pair_up-IsBoundary :
    (bits flags : List ℕ) → Linked bits flags → All (IsBoundary bits) (pair_up flags)
unfolding pair_up
pair_up-IsBoundary bits [] h = tt
pair_up-IsBoundary bits (left ∷ []) h = tt
pair_up-IsBoundary bits (left ∷ right ∷ flags) h =
    let rest = pair_up-IsBoundary bits (right ∷ flags) h.1 in
    let back : left + 8 - 8 ≡ left = omega arith in
    elim (Bool-cases (ltb (left + length flag_bits) right)) [
      | inl room ↦
          rw room ((omega arith, ltb→lt _ _ room, h.0.1, rw back h.0.0, h.0.2, h.0.3), rest)
      | inr none_between ↦ rw none_between rest
    ]

-- Every pair that `find_frame_boundaries` returns bounds a frame that is not empty and lies inside
-- the bits, between a flag and the next flag found behind it.
pub find_frame_boundaries-IsBoundary :
    (bits : List ℕ) (bounds : List (ℕ × ℕ))
    → find_frame_boundaries bits ≡ ok bounds
    → All (IsBoundary bits) bounds
unfolding find_frame_boundaries
find_frame_boundaries-IsBoundary bits bounds h =
    elim (Bool-cases (any (λ b. not (is_bit b)) bits)) [
      | inl bad ↦ cc (rw bad at h)
      | inr good ↦
          let flags = flag_loop (suc (length bits)) bits 0 in
          let e : pair_up flags ≡ bounds = ok-injective (rw good at h) in
          rw (← e) (pair_up-IsBoundary bits flags (flag_loop-Linked_first (suc (length bits)) bits))
    ]

find-past : (bits : List ℕ) (start : ℕ) → length bits < start + 8 → find flag_bits bits start ≡ none
find-past bits start h = elim (Option-cases (find flag_bits bits start)) [
  | inl e ↦ e
  | inr (index, e) ↦ absurd (omega (arith, find-some bits start index e))
]

flag_loop-past :
    (fuel : ℕ) (bits : List ℕ) (start : ℕ) → length bits < start → flag_loop fuel bits start ≡ []
unfolding flag_loop
flag_loop-past zero bits start h = refl
flag_loop-past (suc fuel) bits start h = rw (find-past bits start (omega arith), flag_loop)

-- The fuel of `find_frame_boundaries` is enough: from `start`, any two amounts of fuel above the
-- number of bits that are left give the same flags.
pub flag_loop_fuel :
    (fuel more : ℕ) (bits : List ℕ) (start : ℕ)
    → length bits < fuel + start
    → length bits < more + start
    → flag_loop fuel bits start ≡ flag_loop more bits start
unfolding flag_loop
flag_loop_fuel zero more bits start h k = sym (flag_loop-past more bits start (omega arith))
flag_loop_fuel (suc fuel) zero bits start h k = flag_loop-past (suc fuel) bits start (omega arith)
flag_loop_fuel (suc fuel) (suc more) bits start h k =
    elim (Option-cases (find flag_bits bits start)) [
      | inl e ↦ rw (e, flag_loop)
      | inr (index, e) ↦
          let (low, high, there) = find-some bits start index e in
          rw (e, flag_loop)
            (ap (◌∷◌ index) (flag_loop_fuel fuel more bits (index + 8) (omega arith) (omega arith)))
    ]
