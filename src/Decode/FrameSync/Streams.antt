-- ===== src/Decode/FrameSync/Streams.antt =====
-- `extract_frames` on the bitstream of a transmitter: any number of frames, each stuffed and sent
-- between flags that neighbours share, with noise before and after.
use leo_telemetry.Base.{
  ℕ, zero, suc, ◌+◌, ◌≤◌, ◌<◌, ◌≡◌, ◌≢◌, refl, ◌∙◌, ap, sym, List, [], ◌∷◌, ◌++◌, true, none, some,
  ltb, arith, length, drop, All, IsByte, append_assoc, length-append, drop-length, drop-drop,
  slice_of_drop, lt→ltb,
}
use leo_telemetry.Base.Result.{ok, ◌>>=◌}
use leo_telemetry.Decode.FrameSync.{
  flag_bits, find_in, find, flag_loop, pair_up, find_frame_boundaries, frames_between,
  extract_frames, bit_destuff, bits_to_bytes,
}
use leo_telemetry.Decode.FrameSync.Stuffing.{
  AllBits, stuff_bits, stuff_from, AllBits-stuff_bits, bit_destuff-stuff_bits,
}
use leo_telemetry.Decode.FrameSync.Octets.{
  any-not, bytes_bits, AllBits-bytes_bits, bits_to_bytes-bytes_bits,
}
use leo_telemetry.Decode.FrameSync.Flags.{no_six, no_six-stuff_bits, find_in-flag, find_in-none}

-- The bits of one frame between its flags.
pub sent : List ℕ → List ℕ
unfolding stuff_bits
sent frame = stuff_bits (bytes_bits frame)

-- The bits from the first flag on; `tail` is what is received after the last one.
pub stream : List (List ℕ) → List ℕ → List ℕ
unfolding sent
stream [] tail = flag_bits ++ tail
stream (frame ∷ frames) tail = flag_bits ++ (sent frame ++ stream frames tail)

abbrev pub IsFrame : List ℕ → Type 0
IsFrame frame = All IsByte frame × (frame ≢ [])

-- The positions of the flags of a stream whose first flag stands at `p`.
abbrev next_flags : ℕ → List (List ℕ) → List ℕ
next_flags p [] = []
next_flags p (frame ∷ frames) =
    (p + 8 + length (sent frame)) ∷ next_flags (p + 8 + length (sent frame)) frames

abbrev flags_from : ℕ → List (List ℕ) → List ℕ
flags_from p frames = p ∷ next_flags p frames

-- Dropping the bits up to and with a flag leaves those behind it.
drop_flag :
    (bits w r : List ℕ) (start : ℕ)
    → drop start bits ≡ w ++ (flag_bits ++ r)
    → drop (start + length w + 8) bits ≡ r
drop_flag bits w r start e =
    let end : start + length w + 8 ≡ start + length (w ++ flag_bits) =
      omega (arith, length-append w flag_bits) in
    let split : drop start bits ≡ (w ++ flag_bits) ++ r = e ∙ sym (append_assoc w flag_bits r) in
    ap (λ n. drop n bits) end
    ∙ sym (drop-drop (length (w ++ flag_bits)) start bits)
    ∙ ap (drop (length (w ++ flag_bits))) split
    ∙ drop-length (w ++ flag_bits) r

find-flag :
    (bits w r : List ℕ) (start : ℕ)
    → no_six 0 w ≡ true
    → drop start bits ≡ w ++ (flag_bits ++ r)
    → find flag_bits bits start ≡ some (start + length w)
unfolding find
find-flag bits w r start hw e = ap (λ l. find_in flag_bits l start) e ∙ find_in-flag w r 0 start hw

find-none :
    (bits tail : List ℕ) (start : ℕ)
    → no_six 0 tail ≡ true
    → drop start bits ≡ tail
    → find flag_bits bits start ≡ none
unfolding find
find-none bits tail start ht e =
    ap (λ l. find_in flag_bits l start) e ∙ find_in-none tail 0 start ht

no_six-sent : (frame : List ℕ) → no_six 0 (sent frame) ≡ true
unfolding sent
no_six-sent frame = no_six-stuff_bits (bytes_bits frame)

-- Where no flag is left the loop ends, with or without fuel.
flag_loop-none :
    (fuel : ℕ) (bits : List ℕ) (start : ℕ)
    → find flag_bits bits start ≡ none
    → flag_loop fuel bits start ≡ []
unfolding flag_loop
flag_loop-none zero bits start e = refl
flag_loop-none (suc fuel) bits start e = rw (e, flag_loop)

flag_loop-some :
    (fuel : ℕ) (bits : List ℕ) (start : ℕ) {index : ℕ}
    → find flag_bits bits start ≡ some index
    → flag_loop (suc fuel) bits start ≡ index ∷ flag_loop fuel bits (index + 8)
unfolding flag_loop
flag_loop-some fuel bits start e = rw (e, flag_loop)

flag_loop-stream :
    (frames : List (List ℕ)) (fuel : ℕ) (bits w tail : List ℕ) (start : ℕ)
    → no_six 0 w ≡ true
    → no_six 0 tail ≡ true
    → drop start bits ≡ w ++ stream frames tail
    → length frames < fuel
    → flag_loop fuel bits start ≡ flags_from (start + length w) frames
unfolding stream
flag_loop-stream frames zero bits w tail start hw ht e k = absurd (omega arith)
flag_loop-stream [] (suc fuel) bits w tail start hw ht e k =
    flag_loop-some fuel bits start (find-flag bits w tail start hw e)
    ∙ ap (◌∷◌ (start + length w)) (
        flag_loop-none fuel bits (start + length w + 8)
          (find-none bits tail (start + length w + 8) ht (drop_flag bits w tail start e)))
flag_loop-stream (frame ∷ frames) (suc fuel) bits w tail start hw ht e k =
    let behind = sent frame ++ stream frames tail in
    flag_loop-some fuel bits start (find-flag bits w behind start hw e)
    ∙ ap (◌∷◌ (start + length w)) (
        flag_loop-stream frames fuel bits (sent frame) tail (start + length w + 8)
          (no_six-sent frame) ht (drop_flag bits w behind start e) (omega arith))

length-sent : (frame : List ℕ) → frame ≢ [] → 0 < length (sent frame)
unfolding sent stuff_bits stuff_from
length-sent [] ne = absurd (ne refl)
length-sent (b ∷ frame) ne = omega arith

unpack-sent :
    (frame : List ℕ) → IsFrame frame → (bit_destuff (sent frame) >>= bits_to_bytes) ≡ ok frame
unfolding sent
unpack-sent [] h = absurd (h.1 refl)
unpack-sent (b ∷ frame) h =
    rw (bit_destuff-stuff_bits (bytes_bits (b ∷ frame)) (AllBits-bytes_bits (b ∷ frame)) (λ e. cc))
      (bits_to_bytes-bytes_bits (b ∷ frame) h.0)

frames_between-stream :
    (frames : List (List ℕ)) (bits tail : List ℕ) (p : ℕ)
    → All IsFrame frames
    → drop p bits ≡ stream frames tail
    → frames_between bits (pair_up (flags_from p frames)) ≡ frames
unfolding frames_between pair_up stream
frames_between-stream [] bits tail p h e = refl
frames_between-stream (frame ∷ frames) bits tail p h e =
    let z : p + length flag_bits ≡ p + 0 + 8 = omega arith in
    let here : drop (p + 8) bits ≡ sent frame ++ stream frames tail =
      ap (λ n. drop n bits) z ∙ drop_flag bits [] (sent frame ++ stream frames tail) p e in
    let next : drop (p + 8 + length (sent frame)) bits ≡ stream frames tail =
      sym (drop-drop (length (sent frame)) (p + 8) bits)
      ∙ ap (drop (length (sent frame))) here
      ∙ drop-length (sent frame) (stream frames tail) in
    let room : ltb (p + 8) (p + 8 + length (sent frame)) ≡ true =
      lt→ltb _ _ (omega (arith, length-sent frame h.0.1)) in
    rw
      (
        room,
        slice_of_drop bits (p + 8) (sent frame) (stream frames tail) here,
        unpack-sent frame h.0,
      )
      (ap (◌∷◌ frame)
        (frames_between-stream frames bits tail (p + 8 + length (sent frame)) h.1 next))

length-stream :
    (frames : List (List ℕ)) (tail : List ℕ) → length frames ≤ length (stream frames tail)
unfolding stream
length-stream [] tail = omega arith
length-stream (frame ∷ frames) tail =
    omega (arith, length-stream frames tail, length-append (sent frame) (stream frames tail))

all-append : (xs ys : List ℕ) → AllBits xs → AllBits ys → AllBits (xs ++ ys)
all-append [] ys hx hy = hy
all-append (x ∷ xs) ys hx hy = ground (arith, all-append xs ys)

AllBits-stream :
    (frames : List (List ℕ)) (tail : List ℕ) → AllBits tail → AllBits (stream frames tail)
unfolding stream sent
AllBits-stream [] tail h = h
AllBits-stream (frame ∷ frames) tail h =
    all-append (stuff_bits (bytes_bits frame)) (stream frames tail)
      (AllBits-stuff_bits (bytes_bits frame) (AllBits-bytes_bits frame))
      (AllBits-stream frames tail h)

-- From the bits that a transmitter sends for any number of frames (stuffed, with a flag between two
-- frames that both share), `extract_frames` returns exactly these frames in order, and raises
-- nothing. The frames are not empty and hold bytes; before the first flag and behind the last one
-- stands noise, any bits without a run of six ones.
pub extract_frames-stream :
    (lead : List ℕ) (frames : List (List ℕ)) (tail : List ℕ)
    → AllBits lead
    → no_six 0 lead ≡ true
    → AllBits tail
    → no_six 0 tail ≡ true
    → All IsFrame frames
    → extract_frames (lead ++ stream frames tail) ≡ ok frames
unfolding extract_frames find_frame_boundaries
extract_frames-stream lead frames tail bl hl bt ht h =
    let bits = lead ++ stream frames tail in
    let fuel : length frames < suc (length bits) =
      omega (arith, length-append lead (stream frames tail), length-stream frames tail) in
    let first : 0 + length lead ≡ length lead = omega arith in
    let at_first : drop (0 + length lead) bits ≡ stream frames tail =
      ap (λ n. drop n bits) first ∙ drop-length lead (stream frames tail) in
    rw
      (
        any-not bits (all-append lead (stream frames tail) bl (AllBits-stream frames tail bt)),
        flag_loop-stream frames (suc (length bits)) bits lead tail 0 hl ht refl fuel,
      )
      (ap ok (frames_between-stream frames bits tail (0 + length lead) h at_first))
