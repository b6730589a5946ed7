-- ===== src/Chain/Data.antt =====
-- The chain of src/chain.c: `struct ac_chain_s`, the meta file and the block files. The files are
-- what the disk holds; a lock is held around every operation.
use agentchain.Base.{
  ℕ, ◌+◌, ◌*◌, ◌-◌, ◌/◌, Bool, true, false, not, Option, none, some, List, [], ◌∷◌, ◌++◌, length,
  take, drop, get_or, ltb, ◌==◌, if◌then◌else◌, add64, mul64,
}
use agentchain.Bytes.Compare.{Bytes, bytes_eq}
use agentchain.Bytes.Endian.{be64, rd64}
use agentchain.Codec.Header.{BlockHeader, block_hash}
use agentchain.Codec.Block.{Block, block_encode, block_decode}
use agentchain.State.{State}

pub record TxIndexEntry : Type 0 where
  pub hash : Bytes
  pub height : ℕ
  pub tx_idx : ℕ

pub record AddrIndexEntry : Type 0 where
  pub addr : Bytes
  pub height : ℕ
  pub tx_idx : ℕ
  pub role : ℕ

pub record LiveEntry : Type 0 where
  pub addr : Bytes
  pub last_sign_height : ℕ

-- The files under the data directory, `none` where there is no file.
pub record Disk : Type 0 where
  pub blocks : ℕ → Option Bytes
  pub meta : Option Bytes
  pub snapshot : Option Bytes

-- Which of the three atomic writes the operating system lets through.
pub record Writes : Type 0 where
  pub block_ok : Bool
  pub snapshot_ok : Bool
  pub meta_ok : Bool

-- `tx_index_n`, `addr_index_n` and `live_n` are the lengths.
pub record Chain : Type 0 where
  pub state : State
  pub chain_id : ℕ
  pub height : ℕ
  pub tip_hash : Bytes
  pub last_slot : ℕ
  pub last_timestamp_ms : ℕ
  pub base_fee : ℕ
  pub genesis_timestamp_ms : ℕ
  pub cached_epoch : ℕ
  pub cached_seed : Bytes
  pub cached_valid : Bool
  pub tx_index : List TxIndexEntry
  pub tx_index_sorted : Bool
  pub addr_index : List AddrIndexEntry
  pub addr_index_sorted : Bool
  pub live_map : List LiveEntry
  pub disk : Disk

-- "AGCH:META:v1"
abbrev pub meta_magic : Bytes
meta_magic = b'A' ∷ b'G' ∷ b'C' ∷ b'H' ∷ b':' ∷ b'M' ∷ b'E' ∷ b'T' ∷ b'A' ∷ b':' ∷ b'v' ∷ b'1' ∷ []

abbrev pub meta_version : ℕ
meta_version = 1

-- The buffer of `meta_save`.
unfoldable pub meta_bytes : Chain → Bytes
meta_bytes c =
    meta_magic
    ++ (meta_version
        ∷ (be64 c.chain_id
            ++ (be64 c.height
                ++ (c.tip_hash
                    ++ (be64 c.last_slot
                        ++ (be64 c.last_timestamp_ms
                            ++ (be64 c.base_fee ++ be64 c.genesis_timestamp_ms)))))))

-- The chain after the write, and whether it succeeded.
unfoldable pub meta_save : Chain → Bool → Chain × Bool
meta_save c ok =
    if ok
    then (record c { disk = record (c.disk) { meta = some (meta_bytes c) } }, true)
    else (c, false)

unfoldable pub meta_parse : Chain → Bytes → Option Chain
meta_parse c buf =
    if ltb (length buf) (12 + 1 + 8 * 6 + 32)
    then none
    else if not (bytes_eq (take 12 buf) meta_magic)
    then none
    else if not (get_or buf 12 0 == meta_version)
    then none
    else some (record c {
      chain_id = rd64 (drop 13 buf);
      height = rd64 (drop 21 buf);
      tip_hash = take 32 (drop 29 buf);
      last_slot = rd64 (drop 61 buf);
      last_timestamp_ms = rd64 (drop 69 buf);
      base_fee = rd64 (drop 77 buf);
      genesis_timestamp_ms = rd64 (drop 85 buf);
    })

-- `none` is the source's -1.
unfoldable pub meta_load : Chain → Option Chain
meta_load c = elim c.disk.meta [ none ↦ none | some buf ↦ meta_parse c buf ]

abbrev pub put_file : (ℕ → Option Bytes) → ℕ → Bytes → ℕ → Option Bytes
put_file files h buf k = if k == h then some buf else files k

unfoldable pub block_write : Chain → Block → Bool → Chain × Bool
block_write c b ok = elim (block_encode b) [
  | none ↦ (c, false)
  | some buf ↦
      if ok
      then (
        record c { disk = record (c.disk) { blocks = put_file c.disk.blocks b.header.height buf } },
        true,
      )
      else (c, false)
]

unfoldable pub block_read : Chain → ℕ → Option Block
block_read c h = elim (c.disk.blocks h) [
  | none ↦ none
  | some buf ↦ elim (block_decode buf) [ none ↦ none | some (b, n) ↦ some b ]
]

unfoldable pub get_block_by_height : Chain → ℕ → Option Block
get_block_by_height c h = if ltb c.height h then none else block_read c h

unfoldable pub get_header_by_height : Chain → ℕ → Option BlockHeader
get_header_by_height c h = elim (block_read c h) [ none ↦ none | some b ↦ some b.header ]

unfoldable pub get_block_hash : (Bytes → Bytes) → Chain → ℕ → Option Bytes
get_block_hash hash c h =
    if h == c.height
    then some c.tip_hash
    else elim (get_header_by_height c h) [ none ↦ none | some hdr ↦ some (block_hash hash hdr) ]

abbrev pub slot_duration_ms : ℕ
slot_duration_ms = 2000

-- `now` is `ac_now_ms()`.
unfoldable pub current_slot : Chain → ℕ → ℕ
current_slot c now =
    if ltb now c.genesis_timestamp_ms then 0 else (now - c.genesis_timestamp_ms) / slot_duration_ms

unfoldable pub slot_time_ms : Chain → ℕ → ℕ
slot_time_ms c slot = add64 c.genesis_timestamp_ms (mul64 slot slot_duration_ms)
