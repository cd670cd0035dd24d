-- ===== src/Transfer/Tests/Sending.antt =====
-- Runs of the sender against the server, and of the queue.
use filedrop.Base.{take}
use filedrop.Base.Paths.{components, push}
use filedrop.Storage.StoragePaths.{staging_dir}
use filedrop.Transfer.Server.Short.{partly}
use filedrop.Transfer.Client.Shrunk.{send_file-shrunk}
use filedrop.Base.{
  sym, ◌∙◌, any, not, ◌<◌, ◌≢◌, All, true, false, if◌then◌else◌, inl, inr, Bool-cases, ap,
}
use filedrop.Errors.{FileDropError, err}
use filedrop.Transfer.Client.Refused.{is_sendable, send_file-refused}
use filedrop.Base.{
  ℕ, zero, suc, ◌+◌, ◌%◌, ◌^◌, ◌≤◌, ◌<◌, ◌≡◌, ◌≢◌, ◌⊎◌, inl, inr, refl, Bool, true, false, Option,
  none, some, List, [], ◌∷◌, ◌++◌, arith, Text, text, length, concat, All, ◌==◌, nat_eq, list_eq,
  if◌then◌else◌,
}
use filedrop.Errors.{Uuid}
use filedrop.Security.Filename.{sanitize_filename}
use filedrop.Security.SampleHash.{echo, echo-IsStreaming}
use filedrop.Transfer.Server.{Request, reply, Job}
use filedrop.Transfer.Server.Handler.{parse_resume_offset}
use filedrop.Transfer.Server.Prepare.{IsPrepared}
use filedrop.Base.{append-nil, take}
use filedrop.Errors.{ok}
use filedrop.Security.Checksum.{digest, hex_encode}
use filedrop.Transfer.Session.{TransferSession, send}
use filedrop.Transfer.Client.{
  Source, default_options, outgoing, source_name, content_range, send_file,
}
use filedrop.Transfer.Client.Delivery.{
  request_of, answer_of, is_visible, IsVisible, IsToStr, IsReadable, send_file-delivers,
  parse_resume_offset-content_range,
}
use filedrop.Transfer.Session.{queued}
use filedrop.Transfer.Queue.{QueuedTransfer, find_session, pending_count}
use filedrop.Transfer.Queue.Tasks.{
  World, begin_with, spawn, spawns, Reachable, at_first, then_step, IsBalanced,
  Reachable-IsBalanced,
}
use filedrop.Transfer.Queue.Leak.{Reachable-leak}
use filedrop.Transfer.Tests.{
  paths, show_id, no_faults, idle, receive, part-IsName, no_faults-IsHealthy,
}

-- The chunks of a body: here all of it at once.
abbrev pub whole : List ℕ → List (List ℕ)
whole b = b ∷ []

abbrev pub source : Source
source = record {
  path = text "/home/a.txt";
  content = some (1 ∷ 2 ∷ 3 ∷ 4 ∷ []);
  reads = λ j. some 0;
  seek = none;
}

source-named : sanitize_filename (source_name source) ≡ some (text "a.txt")
unfolding source_name sanitize_filename filedrop.Base.ℕ_discrete list_eq
source-named = refl

source-ascii : any (λ c. not (is_visible c)) (source_name source) ≡ false
unfolding source_name filedrop.Base.ℕ_discrete list_eq
source-ascii = refl

-- Reads a header as text if it is of visible ASCII.
abbrev pub to_str : Text → Option Text
to_str s = if any (λ c. not (is_visible c)) s then none else some s

all-visible : (s : Text) → IsVisible s → any (λ c. not (is_visible c)) s ≡ false
all-visible [] h = refl
all-visible (c ∷ s) h = ground (arith, h.0, all-visible s h.1)

none-hidden : (s : Text) → any (λ c. not (is_visible c)) s ≡ false → IsVisible s
none-hidden [] h = tt
none-hidden (c ∷ s) h = (ground (arith, h), none-hidden s (ground (arith, h)))

pub to_str-IsToStr : IsToStr to_str
to_str-IsToStr = record {
  visible = λ s h. rw (all-visible s h) refl;
  others = λ s h. elim (Bool-cases (any (λ c. not (is_visible c)) s)) [
    | inl e ↦ rw e refl
    | inr e ↦ absurd (h (none-hidden s e))
  ];
}

pub source-IsReadable : IsReadable source (1 ∷ 2 ∷ 3 ∷ 4 ∷ []) (text "a.txt")
source-IsReadable = record {
  ascii = none-hidden (source_name source) source-ascii;
  has = refl;
  named = source-named;
  small = omega arith;
  readable = λ j. (0, refl);
}

abbrev sent_request : Request
sent_request = request_of to_str whole (
    outgoing (source_name source) (1 ∷ 2 ∷ 3 ∷ 4 ∷ [])
      (some (hex_encode (digest echo (1 ∷ 2 ∷ 3 ∷ 4 ∷ [])))) 0)

pub four_bytes : All (λ b. b < 256) (digest echo (1 ∷ 2 ∷ 3 ∷ 4 ∷ []))
four_bytes = (omega arith, (omega arith, (omega arith, (omega arith, tt))))

send_file-delivers_example :
    (send_file echo
        (λ out. answer_of (receive (request_of to_str whole out) idle).0)
        source
        default_options
      ≡ some (ok tt))
    × ((job : Job) × IsPrepared show_id paths 0 sent_request job
        × ((receive sent_request idle).1.fs job.final ≡ some (1 ∷ 2 ∷ 3 ∷ 4 ∷ [])))
send_file-delivers_example =
    send_file-delivers echo echo-IsStreaming to_str to_str-IsToStr whole source (1 ∷ 2 ∷ 3 ∷ 4 ∷ [])
      (text "a.txt") four_bytes (λ b. append-nil b) source-IsReadable show_id paths no_faults 0 idle
      part-IsName no_faults-IsHealthy

-- Only the first two bytes are there when the file is read.
abbrev first_two : List ℕ → List (List ℕ)
first_two b = take 2 b ∷ []

send_file-shrunk_example :
    let out =
      receive
        (request_of to_str first_two (
          outgoing
            (source_name source)
            (1 ∷ 2 ∷ 3 ∷ 4 ∷ [])
            (some (hex_encode (digest echo (1 ∷ 2 ∷ 3 ∷ 4 ∷ []))))
            0))
        idle in
    (send_file echo
        (λ sent. answer_of (receive (request_of to_str first_two sent) idle).0)
        source
        default_options
      ≡ some (ok tt))
    × (out.0 ≡ partly 2 4)
    × (out.1.fs (components (push (staging_dir paths) (text "id.part"))) ≡ some (1 ∷ 2 ∷ []))
send_file-shrunk_example =
    send_file-shrunk echo echo-IsStreaming to_str to_str-IsToStr first_two source
      (1 ∷ 2 ∷ 3 ∷ 4 ∷ []) (text "a.txt") source-IsReadable (omega arith) show_id paths no_faults 0
      idle part-IsName no_faults-IsHealthy

-- A file with an accent in its name.
abbrev accented : Source
accented = record source { path = text "/home/" ++ (233 ∷ text ".txt") }

accented-hidden : any (λ c. not (is_visible c)) (source_name accented) ≡ true
unfolding source_name filedrop.Base.ℕ_discrete list_eq
accented-hidden = refl

accented-sendable : All (λ c. is_sendable c ≡ true) (source_name accented)
unfolding source_name filedrop.Base.ℕ_discrete list_eq
accented-sendable = (refl, (refl, (refl, (refl, (refl, tt)))))

true-apart : true ≢ false
true-apart h = cc

send_file-refused_example :
    ((e : FileDropError) × (send_file echo
          (λ out. answer_of (receive (request_of to_str whole out) idle).0)
          accented
          default_options
        ≡ some (err e)))
    × ((content : List ℕ) (checksum : Option Text)
        → receive
            (request_of to_str whole (outgoing (source_name accented) content checksum 0))
            idle
          ≡ (reply 400 (text "missing X-FileDrop-Filename"), idle))
send_file-refused_example =
    send_file-refused echo to_str to_str-IsToStr whole accented
      (λ h. true-apart (sym accented-hidden ∙ all-visible (source_name accented) h)) show_id paths
      no_faults 0 idle default_options accented-sendable

abbrev range_header : Text → Option Text
range_header name = some (content_range 2 4)

parse_resume_offset-content_range_example : parse_resume_offset range_header ≡ some 2
parse_resume_offset-content_range_example =
    parse_resume_offset-content_range range_header 2 4 (omega arith) refl

abbrev queued_as : Uuid → QueuedTransfer
queued_as id = record {
  id = id;
  file_path = text "/home/a.txt";
  file_name = text "a.txt";
  total_bytes = 4;
  peer_device_id = 7;
  direction = send;
  status = queued;
}

Reachable-IsBalanced_example : IsBalanced (spawn (begin_with idle.store) (queued_as 1))
Reachable-IsBalanced_example =
    Reachable-IsBalanced idle.store (spawn (begin_with idle.store) (queued_as 1)) (
      then_step (begin_with idle.store) (spawn (begin_with idle.store) (queued_as 1)) at_first
        (spawns (begin_with idle.store) (queued_as 1)))

Reachable-leak_example :
    (w : World) × Reachable idle.store w
    × ((w.waiting ≡ [])
        × ((w.running ≡ [])
            × ((pending_count w.queue ≡ 0)
                × ((s : TransferSession) × (find_session w.queue 2 ≡ some s)))))
Reachable-leak_example =
    Reachable-leak idle.store (queued_as 1) (queued_as 2) (λ h. absurd (omega arith))
