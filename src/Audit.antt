-- ===== src/Audit.antt =====
-- pkg/audit/audit.go: the hash chain of audit entries. An entry is a value: the code keeps pointers, and
-- relies on its callers not to change an entry that they have appended.

pub mod Verified
pub mod Tamper
mod Examples
use neurosentry.Common.{
  Bool, List, Option, Str, Time, [], if◌then◌else◌, inc64, int_eq, is_empty, last_n, leb_ℤ, length,
  nat_beq, nat_eq, none, not, pos, pos_part, some, str_eq, suc, true, wrap64, zero, ℕ, ℤ, ◌%◌, ◌&&◌,
  ◌++◌, ◌+◌, ◌/◌, ◌==◌, ◌^◌, ◌∷◌,
}

-- What the chain uses of the standard library: the JSON of the details, the RFC 3339 text of a time, and
-- the hexadecimal SHA-256 of bytes.
pub record Codec : Type 1 where
  pub Details : Type 0
  pub marshal : Details → Str
  pub format : Time → Str
  pub sha_hex : Str → Str

pub record Actor : Type 0 where
  pub pid : ℤ
  pub uid : ℤ
  pub comm : Str

pub record EntryMetadata : Type 0 where
  pub product : Str
  pub version : Str

zeros : ℕ → Str
zeros zero = []
zeros (suc n) = b'0' ∷ zeros n

-- GenesisHash
pub genesis_hash : Str
unfolding zeros
genesis_hash = zeros 64

abbrev pub default_max_entries : ℕ
default_max_entries = 10000

-- binary.BigEndian.PutUint64: the `k` low bytes, most significant first.
pub big_endian : ℕ → ℕ → Str
big_endian zero n = []
big_endian (suc k) n = (n / 256 ^ k) % 256 ∷ big_endian k n

module _ (codec : Codec) where
  open codec use {Details, marshal, format, sha_hex}

  pub record Entry : Type 0 where
    pub id : Str
    pub sequence_num : ℕ
    pub timestamp : Time
    pub event_type : Str
    pub severity : Str
    pub severity_id : ℤ
    pub category_uid : ℤ
    pub class_uid : ℤ
    pub actor : Option Actor
    pub details : Option Details
    pub metadata : Option EntryMetadata
    pub prev_hash : Str
    pub hash : Str

  abbrev pub details_bytes : Option Details → Str
  details_bytes none = []
  details_bytes (some d) = marshal d

  -- computeHash
  pub compute_hash : Entry → Str
  compute_hash e = sha_hex (
      e.id
      ++ big_endian 8 e.sequence_num
      ++ format e.timestamp
      ++ e.event_type
      ++ e.severity
      ++ details_bytes e.details
      ++ e.prev_hash)

  -- EntrySink and Resumable: `last` is `none` for a sink that cannot resume, that fails or that is empty.
  pub record Sink : Type 1 where
    pub State : Type 0
    pub write : State → Entry → State × Bool
    pub last : State → Option (ℕ × Str)

  module _ (sink : Sink) where
    open sink use {State, write, last}

    pub record Chain : Type 0 where
      pub entries : List Entry
      pub next_seq : ℕ
      pub max_entries : ℕ
      pub total_count : ℤ
      pub store : Option State
      pub resumed_hash : Str

    -- NewChainWithCapacity
    pub new_chain_with_capacity : ℤ → Chain
    new_chain_with_capacity max = record {
      entries = [];
      next_seq = 0;
      max_entries = if leb_ℤ max (pos 0) then default_max_entries else pos_part max;
      total_count = pos 0;
      store = none;
      resumed_hash = [];
    }

    -- The writes of AttachSink; their errors are ignored.
    pub replay : State → List Entry → State
    replay s [] = s
    replay s (e ∷ es) = replay (write s e).0 es

    -- AttachSink, where it resumes: the uint64 and int64 sums wrap.
    pub resume : Chain → Option (ℕ × Str) → Chain
    resume c none = c
    resume c (some (seq, hash)) = record c {
      next_seq = (seq + 1) % 2 ^ 64;
      resumed_hash = hash;
      total_count = wrap64 (pos ((seq + 1) % 2 ^ 64));
    }

    -- AttachSink
    pub attach_sink : Chain → State → Chain
    unfolding replay resume
    attach_sink c s =
        let c' =
          if nat_beq (length c.entries) 0 && nat_beq c.next_seq 0 then resume c (last s) else c in
        record c' { store = some (replay s c.entries) }

    -- The hash that the next entry links to: of the last entry, or of the store, or of the genesis.
    pub link : Str → List Entry → Str
    unfolding genesis_hash
    link resumed [] = if not (is_empty resumed) then resumed else genesis_hash
    link resumed (e ∷ []) = e.hash
    link resumed (e ∷ (f ∷ es)) = link resumed (f ∷ es)

    -- The entry with its number, its link and its hash.
    pub sealed : Chain → Entry → Entry
    unfolding link compute_hash
    sealed c e =
        let e' = record e {
          sequence_num = c.next_seq;
          prev_hash = link c.resumed_hash c.entries;
        } in
        record e' { hash = compute_hash e' }

    -- The write at the end of Append, and whether it succeeded.
    abbrev pub persist : Option State → Entry → Option State × Bool
    persist none e = (none, true)
    persist (some s) e = (some (write s e).0, (write s e).1)

    -- Append: the chain, and whether the durable write succeeded.
    pub append : Chain → Entry → Chain × Bool
    unfolding sealed
    append c e =
        let e' = sealed c e in
        (
          record c {
            entries = last_n c.max_entries (c.entries ++ e' ∷ []);
            next_seq = (c.next_seq + 1) % 2 ^ 64;
            total_count = inc64 c.total_count;
            store = (persist c.store e').0;
          },
          (persist c.store e').1,
        )

    pub append_all : Chain → List Entry → Chain
    unfolding append
    append_all c [] = c
    append_all c (e ∷ es) = append_all (append c e).0 es

  -- The errors of Verify, with the index of the entry.
  pub data Fault : Type 0 where
    hash_mismatch broken_link : ℕ → Fault
    bad_genesis : Fault

  -- What Verify asks of an entry's link: `prev` is the hash of the entry before it, where there is one.
  pub check_link : Option Str → ℕ → Entry → Option Fault
  unfolding genesis_hash
  check_link none i e =
      if nat_beq e.sequence_num 0 && not (e.prev_hash == genesis_hash)
      then some bad_genesis
      else none
  check_link (some prev) i e = if e.prev_hash == prev then none else some (broken_link i)

  -- The loop of Verify.
  pub verify_from : Option Str → ℕ → List Entry → Option Fault
  unfolding check_link compute_hash
  verify_from prev i [] = none
  verify_from prev i (e ∷ es) =
      let rest = verify_from (some e.hash) (i + 1) es in
      if not (e.hash == compute_hash e)
      then some (hash_mismatch i)
      else elim (check_link prev i e) [ some fault ↦ some fault | none ↦ rest ]

  -- Verify: `none` for no error.
  pub verify : List Entry → Option Fault
  unfolding verify_from
  verify es = verify_from none 0 es
