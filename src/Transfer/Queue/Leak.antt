-- ===== src/Transfer/Queue/Leak.antt =====
-- Two tasks that run in another order than their transfers were queued.
use filedrop.Base.{◌≡◌, ◌≢◌, refl, some, false, not, [], ◌∷◌, ◌++◌, arith, ◌==◌, nat_eq, retain}
use filedrop.Transfer.Session.{connecting, TransferSession, Store, new_session}
use filedrop.Transfer.Queue.{
  QueuedTransfer, next, mark_finished, find_active, find_session, pending_count,
}
use filedrop.Transfer.Queue.Tasks.{
  World, begin_with, spawn, finish_task, spawns, starts, finishes, Reachable, at_first, then_step,
}

abbrev connected : QueuedTransfer → QueuedTransfer
connected t = record t { status = connecting }

find-kept :
    (x y : QueuedTransfer × TransferSession)
    → (x.0.id == y.0.id) ≡ false
    → (y.0.id == x.0.id) ≡ false
    → find_active y.0.id (
        retain
          (λ t. not (t.0.id == x.0.id))
          (retain (λ t. not (t.0.id == y.0.id)) (x ∷ []) ++ (y ∷ [])))
      ≡ some y.1
unfolding find_active
find-kept x y h k = ground arith

module _ (st : Store) (a b : QueuedTransfer) where
  abbrev session_of : Store → QueuedTransfer → TransferSession × Store
  session_of s t = new_session s t.id t.file_name t.total_bytes t.direction

  abbrev both : World
  both = spawn (spawn (begin_with st) a) b

  -- The task of `b` starts first, and is given the transfer of `a`.
  abbrev b_runs : World
  b_runs = record {
    queue = record {
      pending = b ∷ [];
      active = (connected a, (session_of st a).0) ∷ [];
      permits = 2;
    };
    store = (session_of st a).1;
    waiting = a.id ∷ [];
    running = b.id ∷ [];
  }

  abbrev b_done : World
  b_done = finish_task b_runs b.id []

  abbrev a_runs : World
  a_runs = record {
    queue = record {
      pending = [];
      active = b_done.queue.active ++ ((connected b, (session_of b_runs.store b).0) ∷ []);
      permits = 2;
    };
    store = (session_of b_runs.store b).1;
    waiting = [];
    running = a.id ∷ [];
  }

  abbrev a_done : World
  a_done = finish_task a_runs a.id []

  reaches : Reachable st a_done
  unfolding next mark_finished
  reaches =
      then_step a_runs a_done
        (then_step b_done a_runs
          (then_step b_runs b_done
            (then_step both b_runs
              (then_step (spawn (begin_with st) a) both
                (then_step (begin_with st) (spawn (begin_with st) a) at_first
                  (spawns (begin_with st) a))
                (spawns (spawn (begin_with st) a) b))
              (starts both (a.id ∷ []) [] b.id refl (connected a) (session_of st a).0 b_runs.queue
                b_runs.store refl))
            (finishes b_runs [] [] b.id refl))
          (starts b_done [] [] a.id refl (connected b) (session_of b_runs.store b).0 a_runs.queue
            a_runs.store refl))
        (finishes a_runs [] [] a.id refl)

  ended : a.id ≢ b.id → find_session a_done.queue b.id ≡ some (session_of b_runs.store b).0
  unfolding mark_finished find_active
  ended n =
      let ab : (a.id == b.id) ≡ false = ground arith in
      let ba : (b.id == a.id) ≡ false = ground arith in
      find-kept (connected a, (session_of st a).0) (connected b, (session_of b_runs.store b).0) ab
        ba

-- Of two queued transfers with different ids, whose tasks get past the queue in the other order, the
-- second stays active for ever: a world is reachable in which no task waits or runs and no transfer is
-- queued, but the session of the second is still found among the active ones.
pub Reachable-leak :
    (st : Store) (a b : QueuedTransfer)
    → a.id ≢ b.id
    → (w : World) × Reachable st w
      × ((w.waiting ≡ [])
          × ((w.running ≡ [])
              × ((pending_count w.queue ≡ 0)
                  × ((s : TransferSession) × (find_session w.queue b.id ≡ some s)))))
unfolding mark_finished
Reachable-leak st a b n = (
  a_done st a b,
  reaches st a b,
  (refl, (refl, (refl, ((session_of st a b (b_runs st a b).store b).0, ended st a b n)))),
)
