-- ===== src/Tests/Sync.antt =====
-- leo_telemetry/decode/frame_sync.py
use leo_telemetry.Base.{ℕ, ◌≡◌, refl, ◌⊎◌, List, [], ◌∷◌, ◌++◌, All, all_bytes, codes}
use leo_telemetry.Base.Result.{ok}
use leo_telemetry.Decode.FrameSync.{
  find_in, find, flag_bits, flag_loop, pair_up, bit_destuff, find_frame_boundaries, extract_frames,
}
use leo_telemetry.Decode.FrameSync.Stuffing.{
  stuff_bits, bit_destuff-stuff_bits, stuff_bits-bit_destuff,
}
use leo_telemetry.Decode.FrameSync.Streams.{stream, extract_frames-stream}
use leo_telemetry.Decode.FrameSync.Bounds.{IsBoundary, find_frame_boundaries-IsBoundary}

abbrev six_ones : List ℕ
six_ones = codes "0111111"

abbrev two_frames : List (List ℕ)
two_frames = (255 ∷ 1 ∷ []) ∷ (126 ∷ []) ∷ []

-- Two flags around two bits.
abbrev flagged : List ℕ
flagged = flag_bits ++ (codes "01" ++ flag_bits)

extract_frames-stream_example :
    extract_frames (codes "101" ++ stream two_frames (codes "11")) ≡ ok two_frames
extract_frames-stream_example =
    extract_frames-stream (codes "101") two_frames (codes "11") refl refl refl refl
      ((all_bytes (255 ∷ 1 ∷ []) refl, (λ e. cc)), ((all_bytes (126 ∷ []) refl, (λ e. cc)), tt))

bit_destuff-stuff_bits_example : bit_destuff (stuff_bits six_ones) ≡ ok six_ones
bit_destuff-stuff_bits_example = bit_destuff-stuff_bits six_ones refl (λ e. cc)

stuff_bits-bit_destuff_example :
    (stuff_bits six_ones ≡ stuff_bits six_ones)
    ⊎ (stuff_bits six_ones ≡ stuff_bits six_ones ++ b'0' ∷ [])
stuff_bits-bit_destuff_example =
    stuff_bits-bit_destuff (stuff_bits six_ones) six_ones
      (bit_destuff-stuff_bits six_ones refl (λ e. cc))

find_frame_boundaries-IsBoundary_example : All (IsBoundary flagged) ((8, 10) ∷ [])
unfolding find_frame_boundaries flag_loop find find_in pair_up
find_frame_boundaries-IsBoundary_example =
    find_frame_boundaries-IsBoundary flagged ((8, 10) ∷ []) refl
