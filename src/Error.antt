-- ===== src/Error.antt =====
-- src/error.rs: the structured errors that every fallible operation returns, and `Result`.
-- `message` and `source` are left out (the code never reads them to decide anything); an `i32` OS
-- code stands as its bit pattern.
use expirkv.Prelude.{
  ℕ, Bool, true, false, Option, none, some, ◌≡◌, refl, ap, ◌∙◌, ◌⊎◌, inl, inr, if◌then◌else◌,
}
use expirkv.Prelude.{Bytes}

pub data WriteOutcome : Type 0 where
  not_committed commit_unknown : WriteOutcome

pub data InstanceState : Type 0 where
  healthy write_stopped poisoned : InstanceState

pub data RetryAdvice : Type 0 where
  fix_request_and_retry_same_instance retry_same_instance fix_environment_and_reopen : RetryAdvice
  reopen_and_verify restore_or_repair do_not_retry : RetryAdvice

pub data StorageErrorKind : Type 0 where
  invalid_argument not_found busy unsupported resource_exhausted : StorageErrorKind
  capacity_exceeded io corruption invalid_layout incompatible_format : StorageErrorKind
  storage_write_stopped storage_poisoned unrecoverable : StorageErrorKind

pub data Operation : Type 0 where
  op_open op_put op_delete op_write_batch op_get op_snapshot op_iterator op_range : Operation
  op_sync op_destroy op_drop op_background op_recovery : Operation

pub data ProtocolStage : Type 0 where
  admission preflight vlog_append vlog_sync index_commit durable_frontier : ProtocolStage
  read recovery maintenance lifecycle : ProtocolStage

pub data ManagedObject : Type 0 where
  lock format format_temporary database_identity index_directory vlog_directory : ManagedObject
  vlog_file : ℕ → ManagedObject

pub data DestroyStage : Type 0 where
  acquire_lock inventory remove_file remove_tree sync_directory : DestroyStage

pub record DestroyFailureContext : Type 0 where
  pub failed_object : ManagedObject
  pub stage : DestroyStage
  pub partially_deleted : Bool
  pub os_code : Option ℕ

pub record StorageError : Type 0 where
  pub schema_version : ℕ
  pub kind : StorageErrorKind
  pub operation : Operation
  pub protocol_stage : ProtocolStage
  pub write_outcome : Option WriteOutcome
  pub instance_state : Option InstanceState
  pub retry_advice : RetryAdvice
  pub os_code : Option ℕ
  pub commit_seq : Option ℕ
  pub tx_uuid : Option Bytes
  pub vlog_file_id : Option ℕ
  pub vlog_offset : Option ℕ
  pub destroy_failure : Option DestroyFailureContext

pub data Result {ℓ} (A : Type ℓ) : Type ℓ where
  ok : A → Result A
  err : StorageError → Result A

-- `Option::ok_or_else`.
abbrev pub ok_or {ℓ} : {A : Type ℓ} → Option A → StorageError → Result A
ok_or none e = err e
ok_or (some a) e = ok a

-- `Result::map_err`.
abbrev pub map_err {ℓ} : {A : Type ℓ} → (StorageError → StorageError) → Result A → Result A
map_err f (ok a) = ok a
map_err f (err e) = err (f e)

-- `?` on a result.
infixl 5 ◌>>=◌
abbrev pub ◌>>=◌ {ℓ κ} : {S : Type ℓ} {T : Type κ} → Result S → (S → Result T) → Result T
ok found >>= next = next found
err failure >>= next = err failure

-- `if bad { return Err(e) }`.
abbrev pub reject_if : Bool → StorageError → Result (Unit {0})
reject_if true e = err e
reject_if false e = ok tt

-- `?` on a check that gives nothing.
infixl 5 ◌>>◌
abbrev pub ◌>>◌ {ℓ} : {T : Type ℓ} → Result (Unit {0}) → Result T → Result T
check >> next = check >>= (λ done. next)

-- `StorageError::new`.
unfoldable pub new :
    StorageErrorKind
    → Operation
    → ProtocolStage
    → Option WriteOutcome
    → Option InstanceState
    → RetryAdvice
    → StorageError
new k op st outcome state advice = record {
  schema_version = 1;
  kind = k;
  operation = op;
  protocol_stage = st;
  write_outcome = outcome;
  instance_state = state;
  retry_advice = advice;
  os_code = none;
  commit_seq = none;
  tx_uuid = none;
  vlog_file_id = none;
  vlog_offset = none;
  destroy_failure = none;
}

-- The operations that write, for which `unsupported` reports an outcome.
is_write_operation : Operation → Bool
is_write_operation op_put = true
is_write_operation op_delete = true
is_write_operation op_write_batch = true
is_write_operation op_sync = true
is_write_operation _ = false

unfoldable pub unsupported_error : Operation → ProtocolStage → Option InstanceState → StorageError
unfolding new is_write_operation
unsupported_error op st state =
    new unsupported op st (if is_write_operation op then some not_committed else none) state
      do_not_retry

unfoldable pub invalid_batch : StorageErrorKind → RetryAdvice → StorageError
unfolding new
invalid_batch k advice = new k op_write_batch preflight (some not_committed) none advice

unfoldable pub write_preflight_in_state :
    StorageErrorKind → Operation → InstanceState → RetryAdvice → StorageError
unfolding new
write_preflight_in_state k op state advice =
    new k op preflight (some not_committed) (some state) advice

unfoldable pub write_preflight : StorageErrorKind → Operation → RetryAdvice → StorageError
unfolding write_preflight_in_state
write_preflight k op advice = write_preflight_in_state k op healthy advice

unfoldable pub write_protocol :
    StorageErrorKind
    → Operation
    → ProtocolStage
    → WriteOutcome
    → InstanceState
    → RetryAdvice
    → StorageError
unfolding new
write_protocol k op st outcome state advice = new k op st (some outcome) (some state) advice

unfoldable pub read_operation_error :
    StorageErrorKind → Operation → InstanceState → RetryAdvice → StorageError
unfolding new
read_operation_error k op state advice = new k op read none (some state) advice

unfoldable pub read_error : StorageErrorKind → InstanceState → RetryAdvice → StorageError
unfolding read_operation_error
read_error k state advice = read_operation_error k op_get state advice

unfoldable pub codec_error :
    StorageErrorKind → Operation → ProtocolStage → Option WriteOutcome → RetryAdvice → StorageError
unfolding new
codec_error k op st outcome advice = new k op st outcome none advice

-- To split on a fallible result and keep the equation.
pub Result-cases :
    {A : Type 0} (m : Result A) → ((a : A) × (m ≡ ok a)) ⊎ ((e : StorageError) × (m ≡ err e))
Result-cases (ok a) = inl (a, refl)
Result-cases (err e) = inr (e, refl)

err_injective : {A : Type 0} {x y : StorageError} → ◌≡◌ {A = Result A} (err x) (err y) → x ≡ y
err_injective h = cc

-- Where a chain that ended well went through, and where a failed one failed.
pub bind-eq-ok :
    {A B : Type 0} (start : Result A) (next : A → Result B) {end : B}
    → (start >>= next) ≡ ok end
    → (through : A) × (start ≡ ok through) × (next through ≡ ok end)
bind-eq-ok m f h = elim (Result-cases m) [
  | inl (a, e) ↦ (a, e, rw e at h)
  | inr (x, e) ↦ let failed = rw e at h in absurd (cc)
]

pub bind-eq-err :
    {A B : Type 0} (m : Result A) (f : A → Result B) {e : StorageError}
    → (m >>= f) ≡ err e
    → (m ≡ err e) ⊎ ((a : A) × (m ≡ ok a) × (f a ≡ err e))
bind-eq-err m f h = elim (Result-cases m) [
  | inl (a, is_ok) ↦ inr (a, is_ok, rw is_ok at h)
  | inr (x, is_err) ↦ inl (is_err ∙ ap err (err_injective (rw is_err at h)))
]
