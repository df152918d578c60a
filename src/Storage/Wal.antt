-- ===== src/Storage/Wal.antt =====
-- crates/fundb-storage/src/wal.rs: a log file is its bytes. MessagePack and xxh3 are parameters.
-- Writes reach the file whole unless the process dies; the effect of `fsync` is not modelled.
pub mod Frames
pub mod Recovery
pub mod Tests
use fundb.Prelude.{
  ℕ, zero, suc, ◌+◌, ◌*◌, ◌/◌, ◌%◌, ◌^◌, ◌≡◌, Bool, Option, none, some, List, [], ◌∷◌, ◌++◌, ltb,
  ◌==◌, if◌then◌else◌, length, take, drop,
}
use fundb.Core.Record.{RecordKey, FunRecord}

pub data WalEntry : Type 0 where
  write : ℕ → RecordKey → FunRecord → WalEntry
  deletion : ℕ → RecordKey → WalEntry
  txn_commit : ℕ → WalEntry
  txn_abort : ℕ → WalEntry
  checkpoint : ℕ → WalEntry

-- `rmp_serde` on log entries, and the hash.
pub record Codec : Type 0 where
  pub to_vec : WalEntry → List ℕ
  pub from_slice : List ℕ → Option WalEntry
  pub xxh3_64 : List ℕ → ℕ

-- The log file and the number of the last entry.
pub record Wal : Type 0 where
  pub file : List ℕ
  pub current_lsn : ℕ

-- `u32::to_le_bytes`
unfoldable pub to_le_bytes : ℕ → List ℕ
to_le_bytes n = n % 256 ∷ (n / 256 % 256 ∷ (n / 65536 % 256 ∷ (n / 16777216 % 256 ∷ [])))

-- `read_exact` of four bytes and `u32::from_le_bytes`.
unfoldable pub read_u32 : List ℕ → Option (ℕ × List ℕ)
read_u32 (a ∷ (b ∷ (c ∷ (d ∷ rest)))) = some (a + b * 256 + c * 65536 + d * 16777216, rest)
read_u32 _ = none

-- `read_exact` of `n` bytes.
unfoldable pub read_exact : ℕ → List ℕ → Option (List ℕ × List ℕ)
read_exact n bytes = if ltb (length bytes) n then none else some (take n bytes, drop n bytes)

pub data Read : Type 0 where
  frame : WalEntry → List ℕ → Read
  eof : Read
  corrupt : Read

module _ (k : Codec) where
  unfoldable pub checksum : List ℕ → ℕ
  checksum body = k.xxh3_64 body % 2 ^ 32

  -- The bytes of one frame: length, body, checksum.
  unfoldable pub to_frame : WalEntry → List ℕ
  to_frame entry =
      let body = k.to_vec entry in
      to_le_bytes (length body % 2 ^ 32) ++ (body ++ to_le_bytes (checksum body))

  unfoldable pub append : WalEntry → Wal → Wal
  append entry w = record {
    file = w.file ++ to_frame entry;
    current_lsn = (w.current_lsn + 1) % 2 ^ 64;
  }

  unfoldable pub write_checkpoint : ℕ → Wal → Wal
  write_checkpoint lsn w = append (checkpoint lsn) w

  -- The frame behind its length and its body.
  unfoldable pub check_body : List ℕ → List ℕ → Read
  check_body body rest = elim (read_u32 rest) [
    | none ↦ corrupt
    | some (stored_crc, rest') ↦
        if checksum body == stored_crc
        then elim (k.from_slice body) [ none ↦ corrupt | some entry ↦ frame entry rest' ]
        else corrupt
  ]

  unfoldable pub read_body : ℕ → List ℕ → Read
  read_body entry_len bytes = elim (read_exact entry_len bytes) [
    | none ↦ corrupt
    | some (body, rest) ↦ check_body body rest
  ]

  -- A short length prefix counts as the end of the file.
  unfoldable pub read_frame : List ℕ → Read
  read_frame bytes = elim (read_u32 bytes) [
    | none ↦ eof
    | some (entry_len, rest) ↦ read_body entry_len rest
  ]

  -- The iterator of `recover`, with fuel for the number of frames.
  unfoldable pub recover_from : ℕ → List ℕ → List WalEntry
  recover_from zero bytes = []
  recover_from (suc fuel) bytes = elim (read_frame bytes) [
    | frame entry rest ↦ entry ∷ recover_from fuel rest
    | eof ↦ []
    | corrupt ↦ []
  ]

  unfoldable pub recover : List ℕ → List WalEntry
  recover file = recover_from (length file) file

  unfoldable pub count_from : ℕ → ℕ → List ℕ → ℕ
  count_from zero count bytes = count
  count_from (suc fuel) count bytes = elim (read_frame bytes) [
    | frame entry rest ↦ count_from fuel (count + 1) rest
    | eof ↦ count
    | corrupt ↦ count
  ]

  unfoldable pub count_valid_entries : List ℕ → ℕ
  count_valid_entries file = count_from (length file) 0 file

  -- `open` on a file with these bytes.
  unfoldable pub open_wal : List ℕ → Wal
  open_wal file = record { file = file; current_lsn = count_valid_entries file }
