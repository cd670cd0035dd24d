-- ===== src/Transfer/Server/Body.antt =====
-- rust/filedrop-core/src/transfer/server.rs, `receive_transfer`: the loop over the body's stream.
use filedrop.Base.{
  ℕ, ◌+◌, Bool, Option, none, some, List, [], ◌∷◌, ◌++◌, nat_eq, list_eq, if◌then◌else◌, Text, text,
  length, take,
}
use filedrop.Base.Dict.{map_option}
use filedrop.Base.Words.{add_u64}
use filedrop.Security.Checksum.{Sha256}
use filedrop.Transfer.Session.{
  TransferSession, Store, add_bytes, pause, resume, is_paused, cancel, is_cancelled,
}
use filedrop.Transfer.Files.{FileKey, update_file, write_at}
use filedrop.Transfer.Server.{
  Control, pauses, resumes, cancels, chunk_ok, chunk_err, Item, AppState, suspended, reply, Job,
  Flow, proceeds, returns, end_session, remove_staging,
}

abbrev pub apply_control : TransferSession → Store → Control → Store
apply_control s st pauses = pause st s
apply_control s st resumes = resume st s
apply_control s st cancels = cancel st s

unfoldable pub apply_controls : TransferSession → Store → List Control → Store
apply_controls s st [] = st
apply_controls s st (c ∷ cs) = apply_controls s (apply_control s st c) cs

-- `while session.is_paused() { sleep }`; `none` is a schedule that ends in a pause.
unfoldable pub wait_resumed : TransferSession → Store → List (List Control) → Option Store
unfolding apply_controls
wait_resumed s st [] = if is_paused st s then none else some st
wait_resumed s st (cs ∷ sleeps) =
    let rest = wait_resumed s (apply_controls s st cs) sleeps in
    if is_paused st s then rest else some st

abbrev pub write_staging : FileKey → ℕ → List ℕ → AppState → AppState
write_staging staging pos bytes app = record app {
  fs = update_file app.fs staging (map_option (λ c. write_at c pos bytes) (app.fs staging));
}

module _ (H : Sha256) where
  -- The variables of the loop.
  pub record Progress : Type 0 where
    pub app : AppState
    pub hasher : H.State
    pub position : ℕ
    pub written : ℕ

  module _ (job : Job) (s : TransferSession) (remove_fails : Bool) where
    -- The part of the loop's body that hashes, writes and counts a chunk.
    unfoldable pub write_chunk : List ℕ → Option (Text × ℕ) → Progress → Flow Progress
    unfolding end_session
    write_chunk bytes (some (e, n)) p =
        returns (reply 500 e)
          (end_session job.id (write_staging job.staging p.position (take n bytes) p.app))
    write_chunk bytes none p =
        let app = write_staging job.staging p.position bytes p.app in
        proceeds (record {
          app = record app { store = add_bytes app.store s (length bytes) };
          hasher = H.update p.hasher bytes;
          position = p.position + length bytes;
          written = add_u64 p.written (length bytes);
        })

    -- The loop's body.
    unfoldable pub receive_chunk : Item → Progress → Flow Progress
    unfolding end_session wait_resumed write_chunk
    receive_chunk item p =
        let store = apply_controls s p.app.store item.controls in
        let app = record p.app { store = store } in
        elim item.chunk [
          | chunk_err e ↦ returns (reply 400 (text "stream error: " ++ e)) (end_session job.id app)
          | chunk_ok bytes ↦
              if is_cancelled store s
              then returns (reply 499 (text "transfer cancelled"))
                  (remove_staging remove_fails job.staging (end_session job.id app))
              else elim (wait_resumed s store item.sleeps) [
                | none ↦ returns suspended app
                | some resumed ↦
                    write_chunk bytes item.write_fault
                      (record p { app = record app { store = resumed } })
              ]
        ]

    unfoldable pub receive_stream : List Item → Progress → Flow Progress
    unfolding receive_chunk
    receive_stream [] p = proceeds p
    receive_stream (item ∷ items) p = elim (receive_chunk item p) [
      | proceeds q ↦ receive_stream items q
      | returns o app ↦ returns o app
    ]
