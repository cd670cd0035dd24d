-- ===== src/Ffi/Sending/Queued.antt =====
-- What `send_files` puts into the queue, and what a task makes of it.
use filedrop.Base.{
  ℕ, ◌≡◌, refl, sym, ap, ◌∙◌, some, List, [], ◌∷◌, ◌++◌, append-nil, append_assoc, map, Text, text,
}
use filedrop.Engine.{FileDropEngine}
use filedrop.Errors.{Uuid}
use filedrop.Transfer.Decimal.{show_u64}
use filedrop.Transfer.Queue.{QueuedTransfer}
use filedrop.Transfer.Session.{Floats}
use filedrop.Ffi.Events.{FileDropEvent}
use filedrop.Ffi.Channel.{Broadcast}
use filedrop.Ffi.{Reply, done, refused, Runtime, SendTask}
use filedrop.Ffi.Sending.{
  Chosen, queued_transfer, send_task, Sends, add_send, push_id, send_loop, put_sends, send_files,
}

-- The files can be read, and have these lengths.
abbrev pub Measured : List Chosen → List ℕ → Type 0
Measured [] [] = Unit {0}
Measured [] (len ∷ lens) = ⊥
Measured (c ∷ cs) [] = ⊥
Measured (c ∷ cs) (len ∷ lens) = (c.metadata ≡ done len) × Measured cs lens

-- The transfers and the tasks of the files, in their order.
abbrev pub transfers : Uuid → List Chosen → List ℕ → List QueuedTransfer
transfers peer [] lens = []
transfers peer (c ∷ cs) [] = []
transfers peer (c ∷ cs) (len ∷ lens) = queued_transfer peer c len ∷ transfers peer cs lens

abbrev pub tasks : Text → List Chosen → List ℕ → List SendTask
tasks addr [] lens = []
tasks addr (c ∷ cs) [] = []
tasks addr (c ∷ cs) (len ∷ lens) = send_task addr c len ∷ tasks addr cs lens

abbrev pub ids : List Chosen → List Uuid
ids = map (λ c. c.new_id)

-- With these behind what there was.
abbrev with_sends : Sends → List QueuedTransfer → List SendTask → Sends
with_sends s ts ks = record {
  queue = record s.queue { pending = s.queue.pending ++ ts };
  tasks = s.tasks ++ ks;
}

push_ids : List Uuid → Reply (List Uuid) × Sends → Reply (List Uuid) × Sends
push_ids [] out = out
push_ids (id ∷ more) out = push_id id (push_ids more out)

push_ids-done : (l : List Uuid) (s : Sends) → push_ids l (done [], s) ≡ (done l, s)
unfolding push_ids push_id
push_ids-done [] s = refl
push_ids-done (id ∷ l) s = ap (push_id id) (push_ids-done l s)

push_ids-refused :
    (l : List Uuid) (message : Text) (s : Sends)
    → push_ids l (refused message, s) ≡ (refused message, s)
unfolding push_ids push_id
push_ids-refused [] message s = refl
push_ids-refused (id ∷ l) message s = ap (push_id id) (push_ids-refused l message s)

with_sends-nil : (s : Sends) → s ≡ with_sends s [] []
with_sends-nil s =
    ap
      (λ (p : List QueuedTransfer × List SendTask). record {
        queue = record s.queue { pending = p.0 };
        tasks = p.1;
      })
      (λ i. (sym (append-nil s.queue.pending) i, sym (append-nil s.tasks) i))

send_loop-cons :
    (addr : Text) (peer : Uuid) (c : Chosen) (len : ℕ) (cs : List Chosen) (s : Sends)
    → c.metadata ≡ done len
    → send_loop addr peer (c ∷ cs) s
      ≡ push_id c.new_id (send_loop addr peer cs (add_send addr peer c len s))
unfolding send_loop
send_loop-cons addr peer c len cs s h = simp (h, send_loop) refl

-- The loop takes the files that can be read one by one, and then goes on with the rest.
send_loop-append :
    (addr : Text) (peer : Uuid) (files : List Chosen) (lens : List ℕ) (rest : List Chosen)
    (s : Sends)
    → Measured files lens
    → send_loop addr peer (files ++ rest) s
      ≡ push_ids (ids files) (
          send_loop addr peer rest
            (with_sends s (transfers peer files lens) (tasks addr files lens)))
unfolding push_ids add_send
send_loop-append addr peer [] [] rest s h = ap (send_loop addr peer rest) (with_sends-nil s)
send_loop-append addr peer [] (len ∷ lens) rest s h = absurd h
send_loop-append addr peer (c ∷ cs) [] rest s h = absurd h
send_loop-append addr peer (c ∷ cs) (len ∷ lens) rest s h =
    send_loop-cons addr peer c len (cs ++ rest) s h.0
    ∙ ap (push_id c.new_id) (
        send_loop-append addr peer cs lens rest (add_send addr peer c len s) h.1
        ∙ ap
            (λ (p : List QueuedTransfer × List SendTask). push_ids (ids cs) (
              send_loop addr peer rest
                (record { queue = record s.queue { pending = p.0 }; tasks = p.1 })))
            (λ i. (
              append_assoc s.queue.pending (queued_transfer peer c len ∷ [])
                  (transfers peer cs lens) i,
              append_assoc s.tasks (send_task addr c len ∷ []) (tasks addr cs lens) i,
            )))

module _ {F : Floats} {B : Broadcast (FileDropEvent F)} (parse : Text → Reply Text)
    (rt : Runtime F B) (eng : FileDropEngine) (host addr : Text) (port : ℕ) (peer : Uuid)
    (files : List Chosen) (lens : List ℕ) where
  -- The runtime after the files have been queued.
  abbrev pub queued_files : Runtime F B
  queued_files = record rt {
    engine = some (record eng {
      queue = record eng.queue { pending = eng.queue.pending ++ transfers peer files lens };
    });
    tasks = rt.tasks ++ tasks addr files lens;
  }

  send_files-loop :
      (all : List Chosen)
      → rt.engine ≡ some eng
      → parse (host ++ (b':' ∷ show_u64 port)) ≡ done addr
      → send_files parse rt host port peer all
        ≡ put_sends rt eng
            (send_loop addr peer all (record { queue = eng.queue; tasks = rt.tasks }))
  unfolding send_files
  send_files-loop all h k = simp (h, k, send_files) refl

  -- When all files can be read, the reply has their ids in order, and each file has a transfer at the end
  -- of the queue and a task; nothing else of the runtime changes.
  pub send_files-queued :
      rt.engine ≡ some eng
      → parse (host ++ (b':' ∷ show_u64 port)) ≡ done addr
      → Measured files lens
      → send_files parse rt host port peer files ≡ (done (ids files), queued_files)
  unfolding put_sends send_loop
  send_files-queued h k m =
      let s : Sends = record { queue = eng.queue; tasks = rt.tasks } in
      let after = with_sends s (transfers peer files lens) (tasks addr files lens) in
      ap (send_files parse rt host port peer) (sym (append-nil files))
      ∙ send_files-loop (files ++ []) h k
      ∙ ap (put_sends rt eng)
          (send_loop-append addr peer files lens [] s m ∙ push_ids-done (ids files) after)

  -- When a file cannot be read, the reply is the error alone and the files behind it are left out; but
  -- those before it stay in the queue, with tasks that will send them.
  pub send_files-stops :
      (bad : Chosen) (rest : List Chosen) (e : Text)
      → rt.engine ≡ some eng
      → parse (host ++ (b':' ∷ show_u64 port)) ≡ done addr
      → Measured files lens
      → bad.metadata ≡ refused e
      → send_files parse rt host port peer (files ++ (bad ∷ rest))
        ≡ (refused (text "cannot read " ++ (bad.path ++ (text ": " ++ e))), queued_files)
  unfolding put_sends send_loop
  send_files-stops bad rest e h k m unreadable =
      let s : Sends = record { queue = eng.queue; tasks = rt.tasks } in
      let after = with_sends s (transfers peer files lens) (tasks addr files lens) in
      send_files-loop (files ++ (bad ∷ rest)) h k
      ∙ ap (put_sends rt eng) (
          send_loop-append addr peer files lens (bad ∷ rest) s m
          ∙ ap (push_ids (ids files)) (simp (unreadable, send_loop) refl)
          ∙ push_ids-refused (ids files) (text "cannot read " ++ (bad.path ++ (text ": " ++ e)))
              after)
