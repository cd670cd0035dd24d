-- ===== src/Transfer/Queue/Tasks.antt =====
-- rust/filedrop-ffi/src/api/mod.rs, `send_files` and `run_queued_send`: the tasks around the queue. Each
-- transfer is put into the queue with a task of its own, and the tasks run in any order.
use filedrop.Base.{
  ℕ, zero, suc, ◌+◌, ◌≡◌, refl, ap, List, [], ◌∷◌, ◌++◌, arith, nat_eq, length, length-append,
}
use filedrop.Errors.{Uuid}
use filedrop.Transfer.Session.{TransferSession, Store}
use filedrop.Transfer.Queue.{
  QueuedTransfer, TransferQueue, max_parallel_transfers, new_queue, enqueue, Next, blocked, nothing,
  started, next, with_permit, take_pending, start_session, drop_permit, mark_finished,
  pending_count,
}

-- The queue, the cells of sessions, the ids of the tasks that have not got past `next`, and of those
-- that have.
pub record World : Type 0 where
  pub queue : TransferQueue
  pub store : Store
  pub waiting : List Uuid
  pub running : List Uuid

abbrev pub begin_with : Store → World
begin_with st = record { queue = new_queue; store = st; waiting = []; running = [] }

-- `send_files` for one file: the transfer is queued and its task spawned.
abbrev pub spawn : World → QueuedTransfer → World
spawn w t = record w { queue = enqueue w.queue t; waiting = w.waiting ++ (t.id ∷ []) }

-- The end of `run_queued_send` for the task `id`: the transfer of that id is no longer active, and the
-- permit is dropped.
abbrev pub finish_task : World → Uuid → List Uuid → World
finish_task w id others = record w {
  queue = drop_permit (mark_finished w.queue id);
  running = others;
}

pub data Step : World → World → Type 0 where
  spawns : (w : World) (t : QueuedTransfer) → Step w (spawn w t)
  starts :
      (w : World) (before after : List Uuid) (id : Uuid)
      → w.waiting ≡ before ++ (id ∷ after)
      → (t : QueuedTransfer) (s : TransferSession) (q : TransferQueue) (st : Store)
      → next w.queue w.store ≡ started t s q st
      → Step w
          (record { queue = q; store = st; waiting = before ++ after; running = id ∷ w.running })
  returns :
      (w : World) (before after : List Uuid) (id : Uuid)
      → w.waiting ≡ before ++ (id ∷ after)
      → next w.queue w.store ≡ nothing
      → Step w (record w { waiting = before ++ after })
  finishes :
      (w : World) (before after : List Uuid) (id : Uuid)
      → w.running ≡ before ++ (id ∷ after)
      → Step w (finish_task w id (before ++ after))

pub data Reachable (st : Store) : World → Type 0 where
  at_first : Reachable st (begin_with st)
  then_step : (v w : World) → Reachable st v → Step v w → Reachable st w

-- Every permit is free or with a running task, and every waiting task has a transfer in the queue.
pub record IsBalanced (w : World) : Type 0 where
  pub permits : w.queue.permits + length w.running ≡ max_parallel_transfers
  pub transfers : pending_count w.queue ≡ length w.waiting

-- The queue after a call of `next`.
abbrev queue_of : TransferQueue → Next → TransferQueue
queue_of q blocked = q
queue_of q nothing = q
queue_of q (started t s q' st) = q'

take_pending-started :
    (q q' : TransferQueue) (st st' : Store) (permits : ℕ) (ts : List QueuedTransfer)
    (t : QueuedTransfer) (s : TransferSession)
    → take_pending q st permits ts ≡ started t s q' st'
    → (permits ≡ q'.permits) × (length ts ≡ suc (pending_count q'))
unfolding take_pending start_session
take_pending-started q q' st st' permits [] t s h = cc
take_pending-started q q' st st' permits (x ∷ xs) t s h =
    let same = ap (queue_of q) h in (ap (λ z. z.permits) same, ap (λ z. suc (pending_count z)) same)

with_permit-started :
    (q q' : TransferQueue) (st st' : Store) (permits : ℕ) (t : QueuedTransfer) (s : TransferSession)
    → with_permit q st permits ≡ started t s q' st'
    → (permits ≡ suc q'.permits) × (pending_count q ≡ suc (pending_count q'))
unfolding with_permit
with_permit-started q q' st st' zero t s h = cc
with_permit-started q q' st st' (suc permits) t s h =
    let (p, c) = take_pending-started q q' st st' permits q.pending t s h in (ap suc p, c)

take_pending-nothing :
    (q : TransferQueue) (st : Store) (permits : ℕ) (ts : List QueuedTransfer)
    → take_pending q st permits ts ≡ nothing
    → length ts ≡ 0
unfolding take_pending start_session
take_pending-nothing q st permits [] h = refl
take_pending-nothing q st permits (x ∷ xs) h = cc

with_permit-nothing :
    (q : TransferQueue) (st : Store) (permits : ℕ)
    → with_permit q st permits ≡ nothing
    → pending_count q ≡ 0
unfolding with_permit
with_permit-nothing q st zero h = cc
with_permit-nothing q st (suc permits) h = take_pending-nothing q st permits q.pending h

-- What `next` does to the counts.
next-started :
    (q q' : TransferQueue) (st st' : Store) (t : QueuedTransfer) (s : TransferSession)
    → next q st ≡ started t s q' st'
    → (q.permits ≡ suc q'.permits) × (pending_count q ≡ suc (pending_count q'))
unfolding next
next-started q q' st st' t s h = with_permit-started q q' st st' q.permits t s h

next-nothing : (q : TransferQueue) (st : Store) → next q st ≡ nothing → pending_count q ≡ 0
unfolding next
next-nothing q st h = with_permit-nothing q st q.permits h

Step-IsBalanced : (v w : World) → Step v w → IsBalanced v → IsBalanced w
unfolding mark_finished
Step-IsBalanced v _ (spawns _ t) h = record {
  permits = h.permits;
  transfers = omega (
    arith,
    h.transfers,
    length-append v.queue.pending (t ∷ []),
    length-append v.waiting (t.id ∷ []),
  );
}
Step-IsBalanced v _ (starts _ before after id e t s q st n) h =
    let (p, c) = next-started v.queue q v.store st t s n in
    record {
      permits = omega (arith, h.permits, p);
      transfers = omega (
        arith,
        h.transfers,
        c,
        ap length e,
        length-append before (id ∷ after),
        length-append before after,
      );
    }
Step-IsBalanced v _ (returns _ before after id e n) h =
    let c = next-nothing v.queue v.store n in
    absurd (omega (arith, h.transfers, c, ap length e, length-append before (id ∷ after)))
Step-IsBalanced v _ (finishes _ before after id e) h = record {
  permits = omega (
    arith,
    h.permits,
    ap length e,
    length-append before (id ∷ after),
    length-append before after,
  );
  transfers = h.transfers;
}

-- In every world that the tasks reach, each of the three permits is free or with a running task, so at
-- most three transfers run, and the queue holds exactly one transfer for each waiting task, so no task
-- finds it empty.
pub Reachable-IsBalanced : (st : Store) (w : World) → Reachable st w → IsBalanced w
Reachable-IsBalanced st _ at_first = record { permits = refl; transfers = refl }
Reachable-IsBalanced st _ (then_step v w r s) = Step-IsBalanced v w s (Reachable-IsBalanced st v r)
