-- ===== src/Storage/Wal/Frames.antt =====
-- One frame: what is written is read, and a part of it is not.
use fundb.Prelude.{
  ℕ, ◌%◌, ◌^◌, ◌<◌, ◌≡◌, ◌≢◌, ap, ◌∙◌, none, some, List, ◌++◌, arith, ◌==◌, if◌then◌else◌, length,
  length-append, take-append, drop-append, append_assoc,
}
use fundb.Storage.Wal.{
  WalEntry, Codec, frame, corrupt, to_le_bytes, read_u32, read_exact, checksum, to_frame,
  check_body, read_body, read_frame,
}

pub read-to_le_bytes :
    (n : ℕ) (rest : List ℕ) → n < 2 ^ 32 → read_u32 (to_le_bytes n ++ rest) ≡ some (n, rest)
unfolding read_u32 to_le_bytes
read-to_le_bytes n rest h = ap (λ m. some (m, rest)) (omega arith)

pub read_exact-append : (xs ys : List ℕ) → read_exact (length xs) (xs ++ ys) ≡ some (xs, ys)
unfolding read_exact
read_exact-append xs ys = ground (arith, length-append xs ys, take-append xs ys, drop-append xs ys)

-- An entry whose body is shorter than 4 GiB and is read back by the codec that wrote it.
abbrev pub Fits : Codec → WalEntry → Type 0
Fits k e = (length (k.to_vec e) < 2 ^ 32) × (k.from_slice (k.to_vec e) ≡ some e)

checksum-lt : (k : Codec) (body : List ℕ) → checksum k body < 2 ^ 32
unfolding checksum
checksum-lt k body = omega arith

module _ (k : Codec) where
  -- A body and its checksum are accepted exactly if the checksum is right.
  check_body-stored :
      (body rest : List ℕ) (crc : ℕ)
      → crc < 2 ^ 32
      → check_body k body (to_le_bytes crc ++ rest) ≡ (
          if checksum k body == crc
          then elim (k.from_slice body) [ none ↦ corrupt | some entry ↦ frame entry rest ]
          else corrupt)
  unfolding check_body
  check_body-stored body rest crc lt = ground (arith, read-to_le_bytes crc rest lt)

  -- A length, a body of that length and a stored checksum: what a frame looks like.
  abbrev pub raw_frame : List ℕ → ℕ → List ℕ
  raw_frame body crc = to_le_bytes (length body % 2 ^ 32) ++ (body ++ to_le_bytes crc)

  read_frame-raw :
      (body rest : List ℕ) (crc : ℕ)
      → length body < 2 ^ 32
      → read_frame k (raw_frame body crc ++ rest) ≡ check_body k body (to_le_bytes crc ++ rest)
  unfolding read_frame read_body
  read_frame-raw body rest crc fits =
      ap (read_frame k) (
        append_assoc (to_le_bytes (length body % 2 ^ 32)) (body ++ to_le_bytes crc) rest
        ∙ ap (λ t. to_le_bytes (length body % 2 ^ 32) ++ t)
            (append_assoc body (to_le_bytes crc) rest))
      ∙ ground (
        arith,
        read-to_le_bytes (length body % 2 ^ 32) (body ++ (to_le_bytes crc ++ rest)) (omega arith),
        read_exact-append body (to_le_bytes crc ++ rest),
      )

  -- The frame of an entry that is shorter than 4 GiB and is decoded from its own encoding is read
  -- back as that entry, and the reader stands behind it, whatever follows.
  pub read_frame-to_frame :
      (e : WalEntry) (rest : List ℕ) → Fits k e → read_frame k (to_frame k e ++ rest) ≡ frame e rest
  unfolding to_frame
  read_frame-to_frame e rest fits =
      read_frame-raw (k.to_vec e) rest (checksum k (k.to_vec e)) fits.0
      ∙ ground (
        arith,
        check_body-stored (k.to_vec e) rest (checksum k (k.to_vec e)) (checksum-lt k (k.to_vec e)),
        fits.1,
      )

  -- A whole frame with a wrong checksum is corrupt, whatever follows it.
  pub read_frame-bad :
      (body rest : List ℕ) (crc : ℕ)
      → length body < 2 ^ 32
      → crc < 2 ^ 32
      → checksum k body ≢ crc
      → read_frame k (raw_frame body crc ++ rest) ≡ corrupt
  read_frame-bad body rest crc fits lt bad =
      read_frame-raw body rest crc fits ∙ ground (arith, check_body-stored body rest crc lt)
