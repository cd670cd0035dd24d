-- ===== src/Transfer/Queue.antt =====
-- rust/filedrop-core/src/transfer/queue.rs: the queue of transfers and its permits.
pub mod Tasks
pub mod Leak
use filedrop.Base.{
  ℕ, zero, suc, not, Option, none, some, List, [], ◌∷◌, ◌++◌, ◌==◌, nat_eq, if◌then◌else◌, Text,
  length, retain,
}
use filedrop.Errors.{Uuid}
use filedrop.Transfer.Session.{
  TransferStatus, connecting, TransferDirection, TransferSession, Store, new_session,
}

-- `MAX_PARALLEL_TRANSFERS`
abbrev pub max_parallel_transfers : ℕ
max_parallel_transfers = 3

pub record QueuedTransfer : Type 0 where
  pub id : Uuid
  pub file_path : Text
  pub file_name : Text
  pub total_bytes : ℕ
  pub peer_device_id : Uuid
  pub direction : TransferDirection
  pub status : TransferStatus

-- The front of the queue is the head of `pending`; `permits` counts those that are free.
pub record TransferQueue : Type 0 where
  pub pending : List QueuedTransfer
  pub active : List (QueuedTransfer × TransferSession)
  pub permits : ℕ

abbrev pub new_queue : TransferQueue
new_queue = record { pending = []; active = []; permits = max_parallel_transfers }

abbrev pub enqueue : TransferQueue → QueuedTransfer → TransferQueue
enqueue q t = record q { pending = q.pending ++ (t ∷ []) }

-- What a call of `next` comes to: it waits for a permit, finds no transfer and gives the permit
-- back, or takes the permit with the next transfer and its new session.
pub data Next : Type 0 where
  blocked : Next
  nothing : Next
  started : QueuedTransfer → TransferSession → TransferQueue → Store → Next

start_session : TransferQueue → QueuedTransfer → ℕ → TransferSession × Store → Next
start_session q t permits (session, st) =
    started t session (record q { active = q.active ++ ((t, session) ∷ []); permits = permits }) st

take_pending : TransferQueue → Store → ℕ → List QueuedTransfer → Next
unfolding start_session
take_pending q st permits [] = nothing
take_pending q st permits (t ∷ ts) =
    let t' : QueuedTransfer = record t { status = connecting } in
    start_session (record q { pending = ts }) t' permits
      (new_session st t'.id t'.file_name t'.total_bytes t'.direction)

with_permit : TransferQueue → Store → ℕ → Next
unfolding take_pending
with_permit q st zero = blocked
with_permit q st (suc permits) = take_pending q st permits q.pending

-- `queue.next().await`
unfoldable pub next : TransferQueue → Store → Next
unfolding with_permit
next q st = with_permit q st q.permits

-- The permit that `next` handed out is dropped.
abbrev pub drop_permit : TransferQueue → TransferQueue
drop_permit q = record q { permits = suc q.permits }

-- `.iter().find(|(q, _)| q.id == id).map(|(_, s)| s.clone())`
unfoldable pub find_active : Uuid → List (QueuedTransfer × TransferSession) → Option TransferSession
find_active id [] = none
find_active id ((t, s) ∷ rest) = if t.id == id then some s else find_active id rest

abbrev pub find_session : TransferQueue → Uuid → Option TransferSession
find_session q id = find_active id q.active

unfoldable pub mark_finished : TransferQueue → Uuid → TransferQueue
mark_finished q id = record q { active = retain (λ a. not (a.0.id == id)) q.active }

abbrev pub pending_count : TransferQueue → ℕ
pending_count q = length q.pending
