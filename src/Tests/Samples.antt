-- ===== src/Tests/Samples.antt =====
-- What the samples share: the value of a run, an allocator, a Value Log and an index.
use expirkv.Prelude.{ℕ, ◌+◌, ◌≡◌, refl, Bool, true, false, none}
use expirkv.Error.{Result, ok, err}
use expirkv.Uuid.{sample_uuid}
use expirkv.Vlog.Geometry.{production}
use expirkv.Commit.Coordinator.{ValueLog, Backend}
use expirkv.Index.{applied}

abbrev pub is_ok : {A : Type 0} → Result A → Bool
is_ok (ok a) = true
is_ok (err e) = false

-- The value of a run that succeeds.
pub value_of : {A : Type 0} (r : Result A) → is_ok r ≡ true → (a : A) × (r ≡ ok a)
value_of (ok a) h = (a, refl)
value_of (err e) h = absurd (cc)

abbrev pub gives_all : ℕ → Bool
gives_all n = true

-- A Value Log that counts its calls and refuses none.
abbrev pub log : ValueLog ℕ ℕ
log = record {
  database_uuid = λ w. sample_uuid;
  position = λ w. record { file_id = 0; offset = 0 };
  geometry = λ w. production;
  append = λ w e. (w + 1, ok tt);
  has_terminal_failure = λ w. false;
  sync_through = λ w seq end. (w + 1, ok w);
  frontier_succeeded = λ w s. (w + 1, ok tt);
  frontier_failed = λ w s. w + 1;
  active_file_id = λ w. none;
  file_count = λ w. 0;
  logical_bytes = λ w. 0;
}

-- An index that holds nothing and applies every batch.
abbrev pub backend : Backend ℕ
backend = record { get_user = λ i key. ok none; commit_atomic = λ i batch mode. (i + 1, applied) }
