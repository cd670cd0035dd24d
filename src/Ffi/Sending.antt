-- ===== src/Ffi/Sending.antt =====
-- rust/filedrop-ffi/src/api/mod.rs: `send_files` and the task that it spawns for each file,
-- `run_queued_send`. What the file system and the peer answer is an argument; the tasks begin after the call.
pub mod Queued
mod Tests
use filedrop.Base.{ℕ, ◌≡◌, Bool, true, false, Option, none, some, List, [], ◌∷◌, ◌++◌, Text, text}
use filedrop.Base.Paths.{file_name}
use filedrop.Engine.{FileDropEngine}
use filedrop.Errors.{Uuid, FileDropError, Result, ok, err, display}
use filedrop.Transfer.Decimal.{show_u64}
use filedrop.Transfer.Queue.{
  QueuedTransfer, TransferQueue, enqueue, Next, blocked, nothing, started, next, drop_permit,
  mark_finished,
}
use filedrop.Transfer.Session.{Floats, queued, send, TransferSession, Store}
use filedrop.Ffi.Events.{FileDropEvent, transfer_started, transfer_completed, transfer_failed}
use filedrop.Ffi.Channel.{Broadcast}
use filedrop.Ffi.{Reply, done, refused, not_initialized, Runtime, SendTask, emit}

-- A file of the call: its path, its length or the message of `metadata`, and the id that is drawn.
pub record Chosen : Type 0 where
  pub path : Text
  pub metadata : Reply ℕ
  pub new_id : Uuid

abbrev or_unnamed : Option Text → Text
or_unnamed none = text "unnamed_file"
or_unnamed (some name) = name

unfoldable pub chosen_name : Chosen → Text
unfolding file_name
chosen_name c = or_unnamed (file_name c.path)

-- What is put into the queue, and the task that is spawned.
unfoldable pub queued_transfer : Uuid → Chosen → ℕ → QueuedTransfer
unfolding chosen_name
queued_transfer peer c len = record {
  id = c.new_id;
  file_path = c.path;
  file_name = chosen_name c;
  total_bytes = len;
  peer_device_id = peer;
  direction = send;
  status = queued;
}

unfoldable pub send_task : Text → Chosen → ℕ → SendTask
unfolding chosen_name
send_task addr c len = record {
  addr = addr;
  transfer_id = c.new_id;
  path = c.path;
  file_name = chosen_name c;
  total_bytes = len;
}

-- The queue, and the tasks that have been spawned.
pub record Sends : Type 0 where
  pub queue : TransferQueue
  pub tasks : List SendTask

unfoldable pub add_send : Text → Uuid → Chosen → ℕ → Sends → Sends
unfolding queued_transfer send_task
add_send addr peer c len s = record {
  queue = enqueue s.queue (queued_transfer peer c len);
  tasks = s.tasks ++ (send_task addr c len ∷ []);
}

push_id : Uuid → Reply (List Uuid) × Sends → Reply (List Uuid) × Sends
push_id id (done ids, s) = (done (id ∷ ids), s)
push_id id (refused message, s) = (refused message, s)

-- The loop of `send_files`: `?` leaves it at the first file that cannot be read.
unfoldable pub send_loop : Text → Uuid → List Chosen → Sends → Reply (List Uuid) × Sends
unfolding add_send push_id
send_loop addr peer [] s = (done [], s)
send_loop addr peer (c ∷ cs) s = elim c.metadata [
  | refused e ↦ (refused (text "cannot read " ++ (c.path ++ (text ": " ++ e))), s)
  | done len ↦ push_id c.new_id (send_loop addr peer cs (add_send addr peer c len s))
]

-- How far a task gets with `queue.next()`: it waits, returns, or goes on to send with a session, which is
-- that of some transfer of the queue.
pub data Begun {ℓ} (R : Type ℓ) : Type ℓ where
  waits : Begun R
  returns : Begun R
  sends : TransferSession → R → Begun R

abbrev or_empty : Result Text → Text
or_empty (ok digest) = digest
or_empty (err e) = []

unfoldable pub outcome_event :
    {F : Floats} (show : Uuid → Text) → SendTask → Result (Unit {0}) → Result Text → FileDropEvent F
outcome_event show task (ok _) digest = transfer_completed task.transfer_id (or_empty digest)
outcome_event show task (err e) digest = transfer_failed task.transfer_id (display show e)

module _ {F : Floats} {B : Broadcast (FileDropEvent F)} where
  put_sends :
      Runtime F B → FileDropEngine → Reply (List Uuid) × Sends → Reply (List Uuid) × Runtime F B
  put_sends rt eng (reply, s) =
      (reply, record rt { engine = some (record eng { queue = s.queue }); tasks = s.tasks })

  -- `parse` is the parser of `SocketAddr`, with the message of a failure.
  unfoldable pub send_files :
      (parse : Text → Reply Text)
      → Runtime F B
      → Text
      → ℕ
      → Uuid
      → List Chosen
      → Reply (List Uuid) × Runtime F B
  unfolding put_sends send_loop show_u64
  send_files parse rt peer_address peer_port peer files = elim rt.engine [
    | none ↦ (refused not_initialized, rt)
    | some eng ↦ elim (parse (peer_address ++ (b':' ∷ show_u64 peer_port))) [
      | refused e ↦ (refused (text "invalid peer address: " ++ e), rt)
      | done addr ↦
          put_sends rt eng
            (send_loop addr peer files (record { queue = eng.queue; tasks = rt.tasks }))
    ]
  ]

  unfoldable pub begun : Runtime F B → FileDropEngine → SendTask → Next → Begun (Runtime F B)
  begun rt eng task blocked = waits
  begun rt eng task nothing = returns
  begun rt eng task (started t session q store) = sends session (
      emit F B (record rt { engine = some (record eng { queue = q }); store = store })
        (transfer_started task.transfer_id task.file_name task.total_bytes))

  -- `run_queued_send` up to the call of `send_file`.
  unfoldable pub begin_send : Runtime F B → FileDropEngine → SendTask → Begun (Runtime F B)
  unfolding begun next
  begin_send rt eng task = begun rt eng task (next eng.queue rt.store)

  -- The rest, by the results of `send_file` and of `sha256_file`; at the end the permit is dropped.
  unfoldable pub finish_send :
      (Uuid → Text)
      → Runtime F B
      → FileDropEngine
      → SendTask
      → Result (Unit {0})
      → Result Text
      → Runtime F B
  unfolding outcome_event mark_finished
  finish_send show rt eng task result digest =
      record (emit F B rt (outcome_event show task result digest)) {
        engine =
            some (record eng { queue = drop_permit (mark_finished eng.queue task.transfer_id) });
      }
