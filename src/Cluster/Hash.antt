-- ===== src/Cluster/Hash.antt =====
-- Hashing and the texts that are hashed in crates/fundb-cluster/src/sharding.rs.
use Prim.Native.Nat.{bit_xor}
use fundb.Prelude.{ℕ, zero, suc, ◌+◌, ◌*◌, ◌/◌, ◌%◌, ◌^◌, List, [], ◌∷◌, ◌++◌, ltb, if◌then◌else◌}

unfoldable pub fnv_from : ℕ → List ℕ → ℕ
fnv_from hash [] = hash
fnv_from hash (byte ∷ bytes) = fnv_from (bit_xor hash byte * 1099511628211 % 2 ^ 64) bytes

unfoldable pub fnv1a_64 : List ℕ → ℕ
unfolding fnv_from
fnv1a_64 bytes = fnv_from 14695981039346656037 bytes

-- The decimal digits of a number, before `acc`. A u64 has 20 at most.
unfoldable pub decimal_from : ℕ → ℕ → List ℕ → List ℕ
decimal_from zero n acc = acc
decimal_from (suc fuel) n acc =
    let more = decimal_from fuel (n / 10) ((b'0' + n % 10) ∷ acc) in
    if ltb n 10 then (b'0' + n) ∷ acc else more

unfoldable pub decimal : ℕ → List ℕ
unfolding decimal_from
decimal n = decimal_from 20 n []

abbrev pub hex_digit : ℕ → ℕ
hex_digit n = if ltb n 10 then b'0' + n else 87 + n

-- `{:02x}` of each byte.
unfoldable pub hex : List ℕ → List ℕ
hex [] = []
hex (byte ∷ bytes) = hex_digit (byte / 16) ∷ (hex_digit (byte % 16) ∷ hex bytes)

unfoldable pub routing_key : List ℕ → List ℕ → List ℕ
unfolding hex
routing_key collection record_id = collection ++ b'/' ∷ hex record_id

-- The name of a node's replica on the ring.
unfoldable pub replica_key : ℕ → ℕ → List ℕ
unfolding decimal
replica_key node replica = decimal node ++ b'#' ∷ decimal replica

-- `u32::to_le_bytes`
unfoldable pub le_bytes : ℕ → List ℕ
le_bytes n = n % 256 ∷ (n / 2 ^ 8 % 256 ∷ (n / 2 ^ 16 % 256 ∷ (n / 2 ^ 24 % 256 ∷ [])))
