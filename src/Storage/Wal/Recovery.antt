-- ===== src/Storage/Wal/Recovery.antt =====
-- What recovery reads from whole logs.
use fundb.Prelude.{
  ℕ, zero, suc, ◌+◌, ◌-◌, ◌%◌, ◌^◌, ◌≤◌, ◌<◌, ◌≡◌, ◌≢◌, ◌⊎◌, inl, inr, refl, sym, ap, ◌∙◌, none,
  List, [], ◌∷◌, ◌++◌, arith, ltb, length, length-append, take, append_assoc, append-nil,
  Bool-cases, ltb→lt, ltb→le,
}
use fundb.Storage.Wal.{
  WalEntry, Codec, Wal, frame, eof, corrupt, to_le_bytes, read_u32, read_exact, checksum, to_frame,
  check_body, read_body, read_frame, append, recover, recover_from, count_from, count_valid_entries,
  open_wal,
}
use fundb.Storage.Wal.Frames.{
  Fits, raw_frame, read_frame-to_frame, read_frame-bad, read-to_le_bytes, read_exact-append,
}

take_past : (xs ys : List ℕ) (j : ℕ) → take (length xs + j) (xs ++ ys) ≡ xs ++ take j ys
take_past [] ys j = ap (λ (n : ℕ). take n ys) (omega arith)
take_past (x ∷ xs) ys j = rw (add_suc_left (length xs) j) (ap (λ t. x ∷ t) (take_past xs ys j))
  where
    add_suc_left : (n j : ℕ) → suc n + j ≡ suc (n + j)
    add_suc_left n j = omega arith

length-take-le : (n : ℕ) (xs : List ℕ) → length (take n xs) ≤ n
length-take-le zero xs = omega arith
length-take-le (suc n) [] = omega arith
length-take-le (suc n) (x ∷ xs) = omega (arith, length-take-le n xs)

module _ (k : Codec) where
  -- Reading stops here.
  abbrev pub Stops : List ℕ → Type 0
  Stops bytes = (read_frame k bytes ≡ eof) ⊎ (read_frame k bytes ≡ corrupt)

  Stops-nil : Stops []
  Stops-nil = inl (unfold read_frame read_u32 in refl)

  -- The file of these entries.
  abbrev pub frames : List WalEntry → List ℕ
  frames [] = []
  frames (e ∷ es) = to_frame k e ++ frames es

  abbrev pub AllFit : List WalEntry → Type 0
  AllFit [] = Unit {0}
  AllFit (e ∷ es) = Fits k e × AllFit es

  length-to_frame : (e : WalEntry) → 8 ≤ length (to_frame k e)
  unfolding to_frame to_le_bytes
  length-to_frame e =
      omega (arith, length-append (k.to_vec e) (to_le_bytes (checksum k (k.to_vec e))))

  recover_from-frames :
      (fuel : ℕ) (es : List WalEntry) (tail : List ℕ)
      → AllFit es
      → length (frames es ++ tail) ≤ fuel
      → Stops tail
      → recover_from k fuel (frames es ++ tail) ≡ es
  unfolding recover_from
  recover_from-frames zero [] tail fit le stop = refl
  recover_from-frames (suc f) [] tail fit le stop = ground arith
  recover_from-frames zero (e ∷ es) tail fit le stop = absurd (
      omega (
        arith,
        length-append (to_frame k e ++ frames es) tail,
        length-append (to_frame k e) (frames es),
        length-to_frame e,
      ))
  recover_from-frames (suc f) (e ∷ es) tail fit le stop =
      rw (append_assoc (to_frame k e) (frames es) tail, recover_from)
        (ground (
          arith,
          read_frame-to_frame k e (frames es ++ tail) fit.0,
          recover_from-frames f es tail fit.1
              (omega (
                arith,
                length-append (to_frame k e ++ frames es) tail,
                length-append (to_frame k e) (frames es),
                length-append (frames es) tail,
                length-to_frame e,
              ))
              stop,
        ))

  -- Behind whole frames, recovery stops at the first bytes that are no frame.
  recover-frames :
      (es : List WalEntry) (tail : List ℕ)
      → AllFit es
      → Stops tail
      → recover k (frames es ++ tail) ≡ es
  unfolding recover
  recover-frames es tail fit stop = recover_from-frames _ es tail fit (omega arith) stop

  read_body-short :
      (m crc : ℕ) (body : List ℕ)
      → m < length body
      → read_body k (length body) (take m (body ++ to_le_bytes crc)) ≡ corrupt
  unfolding read_body read_exact
  read_body-short m crc body lt = ground (arith, length-take-le m (body ++ to_le_bytes crc))

  read_u32-short : (j crc : ℕ) → j < 4 → read_u32 (take j (to_le_bytes crc)) ≡ none
  unfolding read_u32 to_le_bytes
  read_u32-short zero crc lt = refl
  read_u32-short (suc zero) crc lt = refl
  read_u32-short (suc (suc zero)) crc lt = refl
  read_u32-short (suc (suc (suc zero))) crc lt = refl
  read_u32-short (suc (suc (suc (suc j)))) crc lt = absurd (omega arith)

  read_body-long :
      (j crc : ℕ) (body : List ℕ)
      → j < 4
      → read_body k (length body) (body ++ take j (to_le_bytes crc)) ≡ corrupt
  unfolding read_body check_body
  read_body-long j crc body lt =
      ground (arith, read_exact-append body (take j (to_le_bytes crc)), read_u32-short j crc lt)

  read_body-torn :
      (m crc : ℕ) (body : List ℕ)
      → m < length body + 4
      → read_body k (length body) (take m (body ++ to_le_bytes crc)) ≡ corrupt
  read_body-torn m crc body lt = elim (Bool-cases (ltb m (length body))) [
    | inl less ↦ read_body-short m crc body (ltb→lt m (length body) less)
    | inr not_less ↦
        let le = ltb→le m (length body) not_less in
        let split : m ≡ length body + (m - length body) = omega (arith, le) in
        ap (λ t. read_body k (length body) (take t (body ++ to_le_bytes crc))) split
        ∙ ap (read_body k (length body)) (take_past body (to_le_bytes crc) (m - length body))
        ∙ read_body-long (m - length body) crc body (omega (arith, le))
  ]

  read_frame-torn :
      (m crc : ℕ) (body : List ℕ)
      → length body < 2 ^ 32
      → m < length body + 4
      → read_frame k (to_le_bytes (length body % 2 ^ 32) ++ take m (body ++ to_le_bytes crc))
        ≡ corrupt
  unfolding read_frame
  read_frame-torn m crc body fits lt = ground (
    arith,
    read-to_le_bytes (length body % 2 ^ 32) (take m (body ++ to_le_bytes crc)) (omega arith),
    read_body-torn m crc body lt,
  )

  torn_at :
      (n : ℕ) (body : List ℕ) (crc : ℕ)
      → length body < 2 ^ 32
      → n < length (raw_frame k body crc)
      → Stops (take n (raw_frame k body crc))
  unfolding to_le_bytes read_frame read_u32
  torn_at zero body crc fits lt = inl refl
  torn_at (suc zero) body crc fits lt = inl refl
  torn_at (suc (suc zero)) body crc fits lt = inl refl
  torn_at (suc (suc (suc zero))) body crc fits lt = inl refl
  torn_at (suc (suc (suc (suc m)))) body crc fits lt =
      inr (read_frame-torn m crc body fits (omega (arith, length-append body (to_le_bytes crc))))

  torn :
      (n : ℕ) (e : WalEntry) → Fits k e → n < length (to_frame k e) → Stops (take n (to_frame k e))
  unfolding to_frame
  torn n e fit lt = torn_at n (k.to_vec e) (checksum k (k.to_vec e)) fit.0 lt

  -- A crash in the middle of the last write loses that entry and no other: from a log that was cut
  -- inside its last frame, recovery reads all the entries before it, if all of them are shorter
  -- than 4 GiB and are decoded from their own encoding.
  pub recover_torn :
      (n : ℕ) (es : List WalEntry) (e : WalEntry)
      → AllFit es
      → Fits k e
      → n < length (to_frame k e)
      → recover k (frames es ++ take n (to_frame k e)) ≡ es
  recover_torn n es e fits fit lt = recover-frames es _ fits (torn n e fit lt)

  -- Behind frames of encodable entries stands a whole frame with a wrong checksum: an entry that
  -- is appended to the log after it was opened is not recovered.
  pub append_after_corruption :
      (es : List WalEntry) (body : List ℕ) (crc : ℕ) (e : WalEntry)
      → AllFit es
      → length body < 2 ^ 32
      → crc < 2 ^ 32
      → checksum k body ≢ crc
      → recover k (append k e (open_wal k (frames es ++ raw_frame k body crc))).file ≡ es
  unfolding append open_wal
  append_after_corruption es body crc e fits fit lt bad =
      rw (append_assoc (frames es) (raw_frame k body crc) (to_frame k e))
        (recover-frames es _ fits (inr (read_frame-bad k body (to_frame k e) crc fit lt bad)))

  frames-append :
      (es : List WalEntry) (e : WalEntry) → frames (es ++ e ∷ []) ≡ frames es ++ to_frame k e
  frames-append [] e = append-nil (to_frame k e)
  frames-append (d ∷ es) e =
      ap (λ t. to_frame k d ++ t) (frames-append es e)
      ∙ sym (append_assoc (to_frame k d) (frames es) (to_frame k e))

  count_from-length :
      (fuel c : ℕ) (bytes : List ℕ)
      → count_from k fuel c bytes ≡ c + length (recover_from k fuel bytes)
  unfolding count_from recover_from
  count_from-length zero c bytes = omega arith
  count_from-length (suc f) c bytes =
      elim (read_frame k bytes)
        as (λ r.
          elim r [ frame entry rest ↦ count_from k f (c + 1) rest | eof ↦ c | corrupt ↦ c ]
          ≡ c
            + length {A = WalEntry} (elim r [
              | frame entry rest ↦ entry ∷ recover_from k f rest
              | eof ↦ []
              | corrupt ↦ []
            ])) [
              | frame entry rest ↦ omega (arith, count_from-length f (c + 1) rest)
              | eof ↦ omega arith
              | corrupt ↦ omega arith
            ]

  -- Appending, one entry after the other.
  abbrev pub append_all : List WalEntry → Wal → Wal
  append_all [] w = w
  append_all (e ∷ es) w = append_all es (append k e w)

  append_all-file : (es : List WalEntry) (w : Wal) → (append_all es w).file ≡ w.file ++ frames es
  unfolding append
  append_all-file [] w = sym (append-nil w.file)
  append_all-file (e ∷ es) w =
      append_all-file es (append k e w) ∙ append_assoc w.file (to_frame k e) (frames es)

  -- For any log, opening it numbers the next entry behind exactly those that recovery returns.
  pub open_wal-lsn : (bytes : List ℕ) → (open_wal k bytes).current_lsn ≡ length (recover k bytes)
  unfolding open_wal count_valid_entries recover
  open_wal-lsn bytes = omega (arith, count_from-length (length bytes) 0 bytes)

  -- Whatever is appended to a new log, one entry after the other, is recovered: these entries,
  -- all of them, in that order, if each of them is shorter than 4 GiB and is decoded from its own
  -- encoding.
  pub recover-append_all :
      (es : List WalEntry) → AllFit es → recover k (append_all es (open_wal k [])).file ≡ es
  unfolding open_wal
  recover-append_all es fits =
      ap (recover k) (append_all-file es (open_wal k []) ∙ sym (append-nil (frames es)))
      ∙ recover-frames es [] fits Stops-nil
