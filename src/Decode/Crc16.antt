-- ===== src/Decode/Crc16.antt =====
-- leo_telemetry/decode/crc16.py. The checksum itself is `crccheck.crc.Crc16X25.calc`, a third-party
-- function: a parameter of which nothing is assumed.
use leo_telemetry.Base.{
  ℕ, ◌+◌, ◌-◌, ◌*◌, ◌/◌, ◌%◌, ◌≤◌, ◌≡◌, ◌≢◌, refl, ◌∙◌, ap, sym, List, [], ◌∷◌, ◌++◌, Bool, true,
  false, ltb, ◌==◌, ==_iff, if◌then◌else◌, arith, length, take, drop, length-append, length-drop,
  length-take, take-length, drop-length, take-append-drop, All, All-drop, IsByte, le→ltb, inl, inr,
  Bool-cases,
}

abbrev pub ax25_fcs_bytes : ℕ
ax25_fcs_bytes = 2

abbrev pub min_fcs_frame_bytes : ℕ
min_fcs_frame_bytes = 1 + ax25_fcs_bytes

-- int.from_bytes(data, byteorder="little")
abbrev pub little_endian : List ℕ → ℕ
little_endian [] = 0
little_endian (b ∷ bs) = b + 256 * little_endian bs

-- fcs.to_bytes(2, byteorder="little")
abbrev pub fcs_bytes : ℕ → List ℕ
fcs_bytes fcs = fcs % 256 ∷ fcs / 256 ∷ []

-- Two bytes are the little-endian bytes of the number that they stand for.
fcs_bytes_unique :
    (trailer : List ℕ) (fcs : ℕ)
    → length trailer ≡ 2
    → All IsByte trailer
    → fcs ≡ little_endian trailer
    → trailer ≡ fcs_bytes fcs
fcs_bytes_unique [] fcs e h v = absurd (omega arith)
fcs_bytes_unique (lo ∷ []) fcs e h v = absurd (omega arith)
fcs_bytes_unique (lo ∷ hi ∷ []) fcs e h v =
    let low : lo ≡ fcs % 256 = omega arith in let high : hi ≡ fcs / 256 = omega arith in cc
fcs_bytes_unique (lo ∷ hi ∷ more ∷ rest) fcs e h v = absurd (omega arith)

module _ (calc : List ℕ → ℕ) where
  pub crc16_ccitt : List ℕ → ℕ
  crc16_ccitt bytes = calc bytes

  pub verify_fcs : List ℕ → Bool
  unfolding crc16_ccitt
  verify_fcs frame =
      let cut = length frame - ax25_fcs_bytes in
      if ltb (length frame) min_fcs_frame_bytes
      then false
      else crc16_ccitt (take cut frame) == little_endian (drop cut frame)

  -- A body that is not empty, with its checksum appended as a transmitter does, passes the check.
  pub verify_fcs-append :
      (body : List ℕ) → body ≢ [] → verify_fcs (body ++ fcs_bytes (calc body)) ≡ true
  unfolding verify_fcs
  verify_fcs-append [] ne = absurd (ne refl)
  verify_fcs-append (b ∷ body) ne =
      let fcs = fcs_bytes (calc (b ∷ body)) in
      let long : ltb (length ((b ∷ body) ++ fcs)) 3 ≡ false =
        le→ltb _ _ (omega (arith, length-append (b ∷ body) fcs)) in
      let cut : length ((b ∷ body) ++ fcs) - 2 ≡ length (b ∷ body) =
        omega (arith, length-append (b ∷ body) fcs) in
      rw (long, cut, take-length (b ∷ body) fcs, drop-length (b ∷ body) fcs)
        ((==_iff _ _).1 (omega arith))

  -- Whatever passes the check is a body that is not empty with the checksum of that body appended.
  pub verify_fcs_sound :
      (frame : List ℕ)
      → All IsByte frame
      → verify_fcs frame ≡ true
      → (body : List ℕ) × (body ≢ []) × (frame ≡ body ++ fcs_bytes (calc body))
  unfolding verify_fcs
  verify_fcs_sound frame bytes h = elim (Bool-cases (ltb (length frame) min_fcs_frame_bytes)) [
    | inl short ↦ absurd (cc (rw short at h))
    | inr long ↦
        let cut = length frame - ax25_fcs_bytes in
        let size : 3 ≤ length frame = ground arith in
        let equal : calc (take cut frame) ≡ little_endian (drop cut frame) =
          (==_iff _ _).0 (rw long at h) in
        let trailer : drop cut frame ≡ fcs_bytes (calc (take cut frame)) =
          fcs_bytes_unique (drop cut frame) (calc (take cut frame))
            (omega (arith, length-drop cut frame)) (All-drop IsByte cut frame bytes) equal in
        (
          take cut frame,
          (λ e. omega (arith, ap length e, length-take cut frame)),
          sym (take-append-drop cut frame) ∙ ap (λ t. take cut frame ++ t) trailer,
        )
  ]
