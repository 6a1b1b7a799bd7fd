-- ===== src/Index.antt =====
-- src/index/mod.rs: the boundary of the index: the mutations, the batches of one indivisible commit
-- and the checks that every backend runs before it commits one. `reserves n` says whether the
-- allocator grants room for `n` bytes or mutations, `crc` is the `crc32c` crate.
pub mod Initialization
pub mod Batches
pub mod Range
pub mod Space
use expirkv.Prelude.{
  ℕ, zero, suc, ◌+◌, Bool, true, false, not, ◌||◌, ◌&&◌, Option, none, some, List, [], ◌∷◌, ◌++◌,
  ltb, ◌==◌, if◌then◌else◌, length, Bytes, sub_slice, bytes_eq, from_le_32,
}
use expirkv.Error.{StorageErrorKind, invalid_argument, resource_exhausted}
use expirkv.Crc.{Crc}
use expirkv.Commit.Keys.{differs}

abbrev pub database_identity_key : Bytes
database_identity_key =
    b'd' ∷ b'a' ∷ b't' ∷ b'a' ∷ b'b' ∷ b'a' ∷ b's' ∷ b'e' ∷ b'_' ∷ b'i' ∷ b'd' ∷ b'e' ∷ b'n' ∷ b't'
    ∷ b'i' ∷ b't' ∷ b'y' ∷ []

abbrev pub head_seq_key : Bytes
head_seq_key = b'h' ∷ b'e' ∷ b'a' ∷ b'd' ∷ b'_' ∷ b's' ∷ b'e' ∷ b'q' ∷ []

abbrev pub durable_frontier_key : Bytes
durable_frontier_key =
    b'd' ∷ b'u' ∷ b'r' ∷ b'a' ∷ b'b' ∷ b'l' ∷ b'e' ∷ b'_' ∷ b'f' ∷ b'r' ∷ b'o' ∷ b'n' ∷ b't' ∷ b'i'
    ∷ b'e' ∷ b'r' ∷ []

abbrev pub identity_magic : Bytes
identity_magic = b'R' ∷ b'K' ∷ b'D' ∷ b'I' ∷ []

abbrev pub frontier_magic : Bytes
frontier_magic = b'R' ∷ b'K' ∷ b'D' ∷ b'F' ∷ []

pub data InternalIndexSpace : Type 0 where
  transaction system : InternalIndexSpace

pub data IndexMutation : Type 0 where
  initialize_database_identity : (encoded_identity : Bytes) → IndexMutation
  put_user : (user_key encoded_pointer : Bytes) → IndexMutation
  delete_user : (user_key : Bytes) → IndexMutation
  put_internal : (space : InternalIndexSpace) (key value : Bytes) → IndexMutation
  delete_internal : (space : InternalIndexSpace) (key : Bytes) → IndexMutation

pub data IndexCommitMode : Type 0 where
  buffer sync_all : IndexCommitMode

pub data IndexApplyState : Type 0 where
  not_applied unknown : IndexApplyState

pub record InternalIndexError : Type 0 where
  pub kind : StorageErrorKind
  pub os_code : Option ℕ

pub record IndexCommitError : Type 0 where
  pub apply_state : IndexApplyState
  pub source : InternalIndexError

-- `InternalIndexResult`, and the result of a commit or its checks.
pub data InternalIndexResult {ℓ} (A : Type ℓ) : Type ℓ where
  index_ok : A → InternalIndexResult A
  index_err : InternalIndexError → InternalIndexResult A

pub data IndexCommitResult : Type 0 where
  applied : IndexCommitResult
  commit_failed : IndexCommitError → IndexCommitResult

pub record IndexAtomicBatch : Type 0 where
  pub operations : List IndexMutation

unfoldable pub invalid_batch : InternalIndexError
invalid_batch = record { kind = invalid_argument; os_code = none }

unfoldable pub resource_error : InternalIndexError
resource_error = record { kind = resource_exhausted; os_code = none }

unfoldable pub invalid_commit_batch : IndexCommitError
unfolding invalid_batch
invalid_commit_batch = record { apply_state = not_applied; source = invalid_batch }

unfoldable pub new : IndexAtomicBatch
new = record { operations = [] }

-- The site at which the tests inject an allocation failure is left out.
unfoldable pub try_with_capacity : (ℕ → Bool) → ℕ → InternalIndexResult IndexAtomicBatch
unfolding resource_error
try_with_capacity reserves capacity =
    if reserves capacity then index_ok (record { operations = [] }) else index_err resource_error

unfoldable pub is_database_identity_key : InternalIndexSpace → Bytes → Bool
unfolding bytes_eq
is_database_identity_key transaction key = false
is_database_identity_key system key = bytes_eq key database_identity_key

-- `is_empty` of a slice.
abbrev pub is_empty_slice : Bytes → Bool
is_empty_slice bs = length bs == 0

-- Whether `validate_ordinary_mutation` refuses a mutation; every refusal is `invalid_batch`.
unfoldable pub is_refused : IndexMutation → Bool
unfolding is_database_identity_key
is_refused (initialize_database_identity encoded) = true
is_refused (put_user key pointer) = is_empty_slice key || is_empty_slice pointer
is_refused (delete_user key) = is_empty_slice key
is_refused (put_internal space key value) =
    is_empty_slice key || is_empty_slice value || is_database_identity_key space key
is_refused (delete_internal space key) = is_empty_slice key || is_database_identity_key space key

unfoldable pub validate_ordinary_mutation : IndexMutation → InternalIndexResult (Unit {0})
unfolding is_refused invalid_batch
validate_ordinary_mutation m = if is_refused m then index_err invalid_batch else index_ok tt

unfoldable pub try_push :
    (ℕ → Bool) → IndexAtomicBatch → IndexMutation → InternalIndexResult IndexAtomicBatch
unfolding validate_ordinary_mutation resource_error
try_push reserves batch m = elim (validate_ordinary_mutation m) [
  | index_err e ↦ index_err e
  | index_ok _ ↦
      if reserves 1
      then index_ok (record { operations = batch.operations ++ (m ∷ []) })
      else index_err resource_error
]

unfoldable pub len : IndexAtomicBatch → ℕ
len batch = length batch.operations

-- `encoded.get(start..end) == Some(of n zeros)`.
unfoldable pub zeros : ℕ → Bytes
zeros zero = []
zeros (suc n) = 0 ∷ zeros n

unfoldable pub differs_from_zeros : Option Bytes → ℕ → Bool
unfolding zeros bytes_eq
differs_from_zeros none n = false
differs_from_zeros (some bs) n = not (bytes_eq bs (zeros n))

-- `has_valid_trailing_crc`: both reads are in range, and the checksum is that of what stands before.
unfoldable pub crc_matches : Crc → Option Bytes → Option Bytes → Bool
unfolding from_le_32
crc_matches crc none stored = false
crc_matches crc (some covered) none = false
crc_matches crc (some covered) (some stored) = crc.crc32c covered == from_le_32 stored

unfoldable pub has_valid_trailing_crc : Crc → Bytes → ℕ → Bool
unfolding sub_slice crc_matches
has_valid_trailing_crc crc encoded offset =
    crc_matches crc (sub_slice encoded 0 offset) (sub_slice encoded offset (offset + 4))

unfoldable pub is_valid_initial_database_identity : Crc → Bytes → Bool
unfolding sub_slice differs zeros differs_from_zeros has_valid_trailing_crc
is_valid_initial_database_identity crc encoded =
    length encoded == 32
    && not (differs (sub_slice encoded 0 4) identity_magic)
    && not (differs (sub_slice encoded 4 10) (zeros 6))
    && differs_from_zeros (sub_slice encoded 10 26) 16
    && not (differs (sub_slice encoded 26 28) (zeros 2))
    && has_valid_trailing_crc crc encoded 28

unfoldable pub is_encoded_head_seq_zero : Bytes → Bool
unfolding bytes_eq zeros
is_encoded_head_seq_zero encoded = length encoded == 8 && bytes_eq encoded (zeros 8)

unfoldable pub is_encoded_empty_durable_frontier : Crc → Bytes → Bool
unfolding sub_slice differs zeros has_valid_trailing_crc
is_encoded_empty_durable_frontier crc encoded =
    length encoded == 39
    && not (differs (sub_slice encoded 0 4) frontier_magic)
    && not (differs (sub_slice encoded 4 35) (zeros 31))
    && has_valid_trailing_crc crc encoded 35

-- The one batch that may write the database's identity.
unfoldable pub is_initialization_triple : Crc → List IndexMutation → Bool
unfolding is_valid_initial_database_identity bytes_eq is_encoded_head_seq_zero
    is_encoded_empty_durable_frontier
is_initialization_triple crc
      (initialize_database_identity encoded
        ∷ put_internal system head_key head
        ∷ put_internal system frontier_key frontier
        ∷ []) =
    is_valid_initial_database_identity crc encoded
    && bytes_eq head_key head_seq_key
    && is_encoded_head_seq_zero head
    && bytes_eq frontier_key durable_frontier_key
    && is_encoded_empty_durable_frontier crc frontier
is_initialization_triple crc _ = false
