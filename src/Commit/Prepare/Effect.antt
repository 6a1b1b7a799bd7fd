-- ===== src/Commit/Prepare/Effect.antt =====
-- What a prepared commit does to the user index once its batch is applied.
use mathlib.Core.Path.{subst}
use expirkv.Prelude.{
  ℕ, ◌+◌, ◌^◌, ◌<◌, ◌≡◌, inl, inr, refl, sym, Bool, Option, none, some, List, [], ◌∷◌, map, length,
  Bytes, arith,
}
use expirkv.Error.{
  StorageError, Operation, Result, ok, map_err, reject_if, bind-eq-ok, Result-cases,
}
use expirkv.Uuid
use expirkv.Uuid.{Uuid}
use expirkv.Crc.{Crc}
use expirkv.Vlog.Pointer
use expirkv.Vlog.Pointer.{ValuePointer}
use expirkv.Vlog.Planner
use expirkv.Vlog.Envelope.{PreparedEnvelope}
use expirkv.Vlog.Envelope.Prepare.{prepare_envelope}
use expirkv.Commit.Keys.{next_commit_seq}
use expirkv.Commit.TxMeta.{TransactionKind, vlog_envelope, index_only_delete}
use expirkv.Commit.Mutation.{ValueState, absent, present}
use expirkv.Commit.Descriptor.{EncodedDescriptor, encode_descriptor}
use expirkv.Commit.Preflight.{
  NormalizedWrite, ValidatedWrite, transaction_kind, try_reserve, validate_normalized,
  permanent_capacity_error, invalid_argument_error,
}
use expirkv.Commit.Plan.{KeyPlan, build_key_plans, descriptor_mutations, remap_preflight}
use expirkv.Commit.Plan.Batch.{build_index_batch}
use expirkv.Commit.Plan.Replay.{replay}
use expirkv.Commit.Plan.Applied.{row}
use expirkv.Commit.Plan.Published.{build_index_batch-replay, build_index_batch-validates}
use expirkv.Commit.Prepare.{
  PreparedCommit, RandomFill, VlogContext, allocate_tx_uuid, remap_index_read, before_state_of,
  decode_before_state_pointer, read_before_states, logical_operations, prepare_for_kind,
  pointers_of, descriptor_meta, prepare_batch, prepare_commit,
}
use expirkv.Index.{IndexAtomicBatch, IndexCommitMode, applied}
use expirkv.Index.Initialization.{validate_for_commit}
use expirkv.Index.Space.{UserSpace, apply_mutations}

before_state_of-row :
    (op : Operation) (key : Bytes) (state found : ValueState)
    → ((p : ValuePointer) → state ≡ present p → Pointer.decode (Pointer.bytes p) ≡ ok p)
    → before_state_of op key (row state) ≡ ok found
    → found ≡ state
before_state_of-row op key absent found decodes h =
    unfold before_state_of row in let e : absent ≡ found = cc in sym e
before_state_of-row op key (present p) found decodes h =
    unfold before_state_of row decode_before_state_pointer in
    let d = decodes p refl in
    elim (Result-cases (Pointer.layout p)) [
      | inl (layout, e) ↦ ground (arith, d, e)
      | inr (failure, e) ↦ absurd (ground (arith, d, e))
    ]

module _ (get_user : Bytes → Result (Option Bytes)) (before : Bytes → ValueState)
    (reads : (x : Bytes) → get_user x ≡ ok (row (before x)))
    (decodes : (x : Bytes) (p : ValuePointer)
      → before x ≡ present p
      → Pointer.decode (Pointer.bytes p) ≡ ok p) where
  read_before_states-map :
      (op : Operation) (keys : List Bytes) (befores : List ValueState)
      → read_before_states get_user op keys ≡ ok befores
      → befores ≡ map before keys
  unfolding read_before_states
  read_before_states-map op [] befores h = cc
  read_before_states-map op (key ∷ keys) befores h =
      let (found, got, h₁) = bind-eq-ok (map_err (remap_index_read op) (get_user key)) _ h in
      let is_row : found ≡ row (before key) = let r = reads key in ground arith in
      let (state, made, h₂) = bind-eq-ok (before_state_of op key found) _ h₁ in
      let is_state =
        before_state_of-row op key (before key) state (decodes key) (rw is_row at made) in
      let (rest, later, h₃) = bind-eq-ok (read_before_states get_user op keys) _ h₂ in
      let e : state ∷ rest ≡ befores = cc in
      rw (sym e, is_state, read_before_states-map op keys rest later) refl

prepare_batch-built :
    (reserves : ℕ → Bool) (crc : Crc) (w : ValidatedWrite) (head seq : ℕ) (id : Uuid)
    (envelope : Option PreparedEnvelope) (plans : List KeyPlan) (batch : IndexAtomicBatch)
    → prepare_batch reserves crc w head seq id envelope plans ≡ ok batch
    → (d : EncodedDescriptor) × (build_index_batch reserves plans d seq w.public_operation
        ≡ ok batch)
unfolding prepare_batch
prepare_batch-built reserves crc w head seq id envelope plans batch h =
    let (mutations, _, h₁) =
      bind-eq-ok (descriptor_mutations reserves plans w.public_operation) _ h in
    let meta = descriptor_meta w head seq id (transaction_kind w) (length plans) envelope in
    let (d, _, h₂) =
      bind-eq-ok
        (map_err (remap_preflight w.public_operation)
          (encode_descriptor reserves crc (record { meta = meta; mutations = mutations })))
        _ h₁ in
    (d, h₂)

-- A prepared commit has an envelope exactly when it is of that kind.
abbrev pub KindFits : TransactionKind → Option PreparedEnvelope → Type 0
KindFits vlog_envelope none = ⊥
KindFits vlog_envelope (some e) = Unit
KindFits index_only_delete none = Unit
KindFits index_only_delete (some e) = ⊥

prepare_for_kind-KindFits :
    (reserves : ℕ → Bool) (crc : Crc) (w : ValidatedWrite) (context : Option VlogContext) (seq : ℕ)
    (id : Uuid) (kind : TransactionKind) (envelope : Option PreparedEnvelope)
    → prepare_for_kind reserves crc w context seq id kind ≡ ok envelope
    → KindFits kind envelope
prepare_for_kind-KindFits reserves crc w context seq id vlog_envelope (some e) h = tt
prepare_for_kind-KindFits reserves crc w none seq id vlog_envelope none h =
    unfold prepare_for_kind in absurd (cc)
prepare_for_kind-KindFits reserves crc w (some c) seq id vlog_envelope none h =
    unfold prepare_for_kind in
    let (_, _, h₁) =
      bind-eq-ok
        (reject_if (Uuid.is_zero c.database_uuid) (invalid_argument_error w.public_operation)) _
        h in
    let (ops, _, h₂) = bind-eq-ok (logical_operations reserves w) _ h₁ in
    let (planner, _, h₃) =
      bind-eq-ok
        (map_err (remap_preflight w.public_operation)
          (Planner.from_position c.geometry c.append_cursor))
        _ h₂ in
    let (prepared, _, h₄) =
      bind-eq-ok
        (map_err (remap_preflight w.public_operation) (
          prepare_envelope reserves crc planner
            (record { database_uuid = c.database_uuid; commit_seq = seq; tx_uuid = id }) ops))
        _ h₃ in
    absurd (cc)
prepare_for_kind-KindFits reserves crc w none seq id index_only_delete envelope h =
    unfold prepare_for_kind in
    let e : none ≡ envelope = cc in subst (KindFits index_only_delete) e tt
prepare_for_kind-KindFits reserves crc w (some c) seq id index_only_delete envelope h =
    unfold prepare_for_kind in absurd (cc)

-- The steps that a prepared commit went through.
pub record IsPrepared (reserves : ℕ → Bool) (get_user : Bytes → Result (Option Bytes))
    (w : ValidatedWrite) (head : ℕ) (p : PreparedCommit) : Type 0 where
  befores : List ValueState
  plans : List KeyPlan
  descriptor : EncodedDescriptor
  pub next : p.commit_seq ≡ head + 1
  pub fits_kind : KindFits p.transaction_kind p.envelope
  fits : head + 1 < 2 ^ 64
  kind_same : p.transaction_kind ≡ transaction_kind w
  sync_same : p.sync ≡ w.normalized.sync
  read : read_before_states get_user w.public_operation w.distinct_keys ≡ ok befores
  planned :
      build_key_plans reserves w befores (transaction_kind w) (pointers_of p.envelope) ≡ ok plans
  built :
      build_index_batch reserves plans descriptor p.commit_seq w.public_operation ≡ ok p.index_batch

next_seq :
    (f : StorageError → StorageError) (head seq : ℕ)
    → map_err f (next_commit_seq head) ≡ ok seq
    → (seq ≡ head + 1) × (head + 1 < 2 ^ 64)
unfolding next_commit_seq
next_seq f head seq h = ground arith

IsPrepared-as :
    (reserves : ℕ → Bool) (get_user : Bytes → Result (Option Bytes)) (w : ValidatedWrite) (head : ℕ)
    (befores : List ValueState) (plans : List KeyPlan) (d : EncodedDescriptor) (seq : ℕ) (id : Uuid)
    (envelope : Option PreparedEnvelope) (batch : IndexAtomicBatch) (p : PreparedCommit)
    → seq ≡ head + 1
    → KindFits (transaction_kind w) envelope
    → head + 1 < 2 ^ 64
    → read_before_states get_user w.public_operation w.distinct_keys ≡ ok befores
    → build_key_plans reserves w befores (transaction_kind w) (pointers_of envelope) ≡ ok plans
    → build_index_batch reserves plans d seq w.public_operation ≡ ok batch
    → ◌≡◌ {A = Result PreparedCommit}
        (ok (record {
          commit_seq = seq;
          tx_uuid = id;
          transaction_kind = transaction_kind w;
          envelope = envelope;
          index_batch = batch;
          sync = w.normalized.sync;
        }))
        (ok p)
    → IsPrepared reserves get_user w head p
IsPrepared-as reserves get_user w head befores plans d seq id envelope batch p is_next fits_kind
      room read planned built h =
    let same : ◌≡◌ {A = PreparedCommit}
        (record {
          commit_seq = seq;
          tx_uuid = id;
          transaction_kind = transaction_kind w;
          envelope = envelope;
          index_batch = batch;
          sync = w.normalized.sync;
        })
        p =
      cc in
    subst (λ (q : PreparedCommit). IsPrepared reserves get_user w head q) same
      (record {
        befores = befores;
        plans = plans;
        descriptor = d;
        next = is_next;
        fits_kind = fits_kind;
        fits = room;
        kind_same = refl;
        sync_same = refl;
        read = read;
        planned = planned;
        built = built;
      })

pub prepare_commit-IsPrepared :
    (reserves : ℕ → Bool) (crc : Crc) (get_user : Bytes → Result (Option Bytes))
    (random : RandomFill) (w : ValidatedWrite) (head : ℕ) (context : Option VlogContext)
    (p : PreparedCommit)
    → prepare_commit reserves crc get_user random w head context ≡ ok p
    → IsPrepared reserves get_user w head p
unfolding prepare_commit
prepare_commit-IsPrepared reserves crc get_user random w head context p h =
    let (seq, counted, h₁) =
      bind-eq-ok (map_err (λ _. permanent_capacity_error w.public_operation) (next_commit_seq head))
        _ h in
    let (_, _, h₂) =
      bind-eq-ok (try_reserve reserves (length w.distinct_keys) w.public_operation) _ h₁ in
    let (befores, read, h₃) =
      bind-eq-ok (read_before_states get_user w.public_operation w.distinct_keys) _ h₂ in
    let (id, _, h₄) = bind-eq-ok (allocate_tx_uuid random w.public_operation) _ h₃ in
    let (envelope, made_for, h₅) =
      bind-eq-ok (prepare_for_kind reserves crc w context seq id (transaction_kind w)) _ h₄ in
    let (plans, planned, h₆) =
      bind-eq-ok (build_key_plans reserves w befores (transaction_kind w) (pointers_of envelope)) _
        h₅ in
    let (batch, made, h₇) =
      bind-eq-ok (prepare_batch reserves crc w head seq id envelope plans) _ h₆ in
    let (d, built) = prepare_batch-built reserves crc w head seq id envelope plans batch made in
    let (is_next, room) =
      next_seq (λ _. permanent_capacity_error w.public_operation) head seq counted in
    IsPrepared-as reserves get_user w head befores plans d seq id envelope batch p is_next
      (prepare_for_kind-KindFits reserves crc w context seq id (transaction_kind w) envelope
        made_for)
      room read planned built h₇

module _ (reserves : ℕ → Bool) (crc : Crc) (n : NormalizedWrite) (op : Operation) (most : ℕ)
    (w : ValidatedWrite) (accepted : validate_normalized reserves n op most ≡ ok w)
    (get_user : Bytes → Result (Option Bytes)) (before : Bytes → ValueState)
    (reads : (x : Bytes) → get_user x ≡ ok (row (before x)))
    (decodes : (x : Bytes) (p : ValuePointer)
      → before x ≡ present p
      → Pointer.decode (Pointer.bytes p) ≡ ok p)
    (random : RandomFill) (head : ℕ) (context : Option VlogContext) (p : PreparedCommit)
    (prepared : prepare_commit reserves crc get_user random w head context ≡ ok p) where
  -- A commit that was prepared on an index whose rows are encoded pointers takes the next sequence
  -- number, which is a `u64`; its batch passes the preflight of every backend in either mode, and
  -- applied to the index it leaves at every key what the write's operations leave there when they are
  -- made one after the other, each `put` with the pointer that the envelope gave it.
  pub prepare_commit-replay :
      (p.commit_seq ≡ head + 1)
      × (head + 1 < 2 ^ 64)
      × ((mode : IndexCommitMode) → validate_for_commit crc p.index_batch mode ≡ applied)
      × ((space : UserSpace)
          → ((x : Bytes) → space x ≡ row (before x))
          → (x : Bytes)
          → apply_mutations p.index_batch.operations space x
            ≡ row (replay (pointers_of p.envelope) 0 n.operations before x))
  prepare_commit-replay =
      let v = prepare_commit-IsPrepared reserves crc get_user random w head context p prepared in
      let same =
        read_before_states-map get_user before reads decodes w.public_operation w.distinct_keys
          v.befores v.read in
      let planned = rw same at v.planned in
      (
        v.next,
        v.fits,
        build_index_batch-validates reserves n op most w accepted before (transaction_kind w)
            (pointers_of p.envelope) v.plans planned v.descriptor p.commit_seq p.index_batch v.built
            crc,
        build_index_batch-replay reserves n op most w accepted before (transaction_kind w)
            (pointers_of p.envelope) v.plans planned v.descriptor p.commit_seq p.index_batch
            v.built,
      )
