-- ===== src/Transfer/Session.antt =====
-- rust/filedrop-core/src/transfer/{progress,session}.rs. A `TransferSession` is a handle: its clones
-- share one cell of the store, which holds the atomics.
use filedrop.Base.{ℕ, suc, Bool, true, false, Option, ◌==◌, nat_eq, if◌then◌else◌, Text}
use filedrop.Base.Words.{add_u64}
use filedrop.Errors.{Uuid}

pub data TransferStatus : Type 0 where
  queued connecting in_progress paused completed failed cancelled : TransferStatus

pub data TransferDirection : Type 0 where
  send receive : TransferDirection

-- The atomics that the clones of a session share.
pub record Cell : Type 0 where
  pub bytes_transferred : ℕ
  pub is_paused : Bool
  pub is_cancelled : Bool

pub record TransferSession : Type 0 where
  pub id : Uuid
  pub file_name : Text
  pub total_bytes : ℕ
  pub direction : TransferDirection
  pub cell : ℕ

-- All cells that have been allocated, and the next free one.
pub record Store : Type 0 where
  pub next : ℕ
  pub cells : ℕ → Cell

abbrev pub update_cell : Store → ℕ → (Cell → Cell) → Store
update_cell st c f = record st { cells = λ i. if i == c then f (st.cells i) else st.cells i }

-- `TransferSession::new`
abbrev pub new_session : Store → Uuid → Text → ℕ → TransferDirection → TransferSession × Store
new_session st id name total direction = (
  record { id = id; file_name = name; total_bytes = total; direction = direction; cell = st.next },
  record {
    next = suc st.next;
    cells = λ i.
        if i == st.next
        then record { bytes_transferred = 0; is_paused = false; is_cancelled = false }
        else st.cells i;
  },
)

abbrev pub with_initial_bytes : Store → TransferSession → ℕ → Store
with_initial_bytes st s initial =
    update_cell st s.cell (λ c. record c { bytes_transferred = initial })

-- `fetch_add`, which wraps.
abbrev pub add_bytes : Store → TransferSession → ℕ → Store
add_bytes st s n =
    update_cell st s.cell (λ c. record c { bytes_transferred = add_u64 c.bytes_transferred n })

abbrev pub bytes_transferred : Store → TransferSession → ℕ
bytes_transferred st s = (st.cells s.cell).bytes_transferred

abbrev pub pause : Store → TransferSession → Store
pause st s = update_cell st s.cell (λ c. record c { is_paused = true })

abbrev pub resume : Store → TransferSession → Store
resume st s = update_cell st s.cell (λ c. record c { is_paused = false })

abbrev pub is_paused : Store → TransferSession → Bool
is_paused st s = (st.cells s.cell).is_paused

abbrev pub cancel : Store → TransferSession → Store
cancel st s = update_cell st s.cell (λ c. record c { is_cancelled = true })

abbrev pub is_cancelled : Store → TransferSession → Bool
is_cancelled st s = (st.cells s.cell).is_cancelled

-- The operations on `f64` that the program uses; the type is the model's parameter.
pub record Floats : Type 1 where
  pub F64 : Type 0
  pub of_u64 : ℕ → F64
  pub div : F64 → F64 → F64
  pub mul : F64 → F64 → F64
  pub max : F64 → F64 → F64
  pub zero_f : F64
  pub hundred : F64
  pub milli : F64

module _ (F : Floats) where
  pub record TransferProgress : Type 0 where
    pub transfer_id : Uuid
    pub file_name : Text
    pub bytes : ℕ
    pub total : ℕ
    pub status : TransferStatus
    pub bytes_per_sec : F.F64
    pub error : Option Text

  unfoldable pub percent : TransferProgress → F.F64
  percent p =
      if p.total == 0
      then F.zero_f
      else F.mul (F.div (F.of_u64 p.bytes) (F.of_u64 p.total)) F.hundred

  -- The elapsed time since the session began is an argument.
  unfoldable pub progress :
      Store → TransferSession → F.F64 → TransferStatus → Option Text → TransferProgress
  progress st s elapsed status error = record {
    transfer_id = s.id;
    file_name = s.file_name;
    bytes = bytes_transferred st s;
    total = s.total_bytes;
    status = status;
    bytes_per_sec = F.div (F.of_u64 (bytes_transferred st s)) (F.max elapsed F.milli);
    error = error;
  }
