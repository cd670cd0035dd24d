-- ===== src/Transfer/Client.antt =====
-- rust/filedrop-core/src/transfer/client.rs: sending a file. The HTTP library is a parameter: what it
-- makes of the headers and the body.
pub mod Delivery
pub mod Refused
pub mod Shrunk
use filedrop.Base.{
  ℕ, zero, suc, ◌+◌, ◌-◌, ◌≤◌, ◌<◌, ◌≡◌, Bool, true, false, ◌&&◌, Option, none, some, List, [], ◌∷◌,
  ◌++◌, ltb, leb, ◌==◌, nat_eq, list_eq, if◌then◌else◌, Text, text, length, drop,
}
use filedrop.Base.Dict.{Dict, lookup}
use filedrop.Base.Paths.{file_name}
use filedrop.Errors.{io, network, Result, ok, err}
use filedrop.Security.Checksum.{Sha256, ReadPlan, sha256_file}
use filedrop.Transfer.Decimal.{show_u64}
use filedrop.Transfer.Session.{TransferSession, Store, add_bytes}
use filedrop.Transfer.Server.{Response}

pub record SendOptions : Type 0 where
  pub resume_from : ℕ
  pub verify_checksum : Bool

abbrev pub default_options : SendOptions
default_options = record { resume_from = 0; verify_checksum = true }

-- The file that is sent: its content if it can be read, how it is read, and the failure of the seek.
pub record Source : Type 0 where
  pub path : Text
  pub content : Option (List ℕ)
  pub reads : ReadPlan
  pub seek : Option Text

-- What is handed to the HTTP library.
pub record Outgoing : Type 0 where
  pub headers : Dict Text Text
  pub body : List ℕ

-- What the library gives back.
pub data Answer : Type 0 where
  answered : Response → Answer
  failed : Text → Answer

abbrev or_default_name : Option Text → Text
or_default_name none = text "unnamed_file"
or_default_name (some name) = name

unfoldable pub source_name : Source → Text
unfolding file_name
source_name source = or_default_name (file_name source.path)

-- `bytes {from}-{total - 1}/{total}`, with a subtraction that stops at 0
unfoldable pub content_range : ℕ → ℕ → Text
unfolding show_u64
content_range from total =
    text "bytes " ++ (show_u64 from ++ (b'-' ∷ (show_u64 (total - 1) ++ (b'/' ∷ show_u64 total))))

abbrev checksum_headers : Option Text → Dict Text Text
checksum_headers none = []
checksum_headers (some hash) = (text "X-FileDrop-Sha256", hash) ∷ []

unfoldable pub outgoing : Text → List ℕ → Option Text → ℕ → Outgoing
unfolding content_range
outgoing name content checksum from = record {
  headers =
      (text "X-FileDrop-Filename", name)
      ∷ (text "X-FileDrop-Total-Size", show_u64 (length content))
      ∷ (checksum_headers checksum
          ++ (if ltb 0 from
              then (text "Content-Range", content_range from (length content)) ∷ []
              else []));
  body = drop from content;
}

-- `status.is_success()`
abbrev pub is_success : ℕ → Bool
is_success status = leb 200 status && ltb status 300

-- How the message shows the status and the body.
abbrev rejection : Response → Text
rejection r = text "receiver rejected transfer (" ++ (show_u64 r.status ++ (text "): " ++ r.body))

abbrev pub to_result : Answer → Result (Unit {0})
to_result (failed e) = err (network (text "send failed: " ++ e))
to_result (answered r) = if is_success r.status then ok tt else err (network (rejection r))

-- `http://{receiver_addr}/api/v1/transfer/{transfer_id}`, with both as texts.
unfoldable pub url : Text → Text → Text
url receiver_addr transfer_id =
    text "http://" ++ (receiver_addr ++ (text "/api/v1/transfer/" ++ transfer_id))

module _ (H : Sha256) (library : Outgoing → Answer) where
  -- The part behind the checksum.
  unfoldable pub send_content : Source → SendOptions → List ℕ → Option Text → Result (Unit {0})
  unfolding outgoing source_name
  send_content source opts content checksum =
      let answer =
        to_result (library (outgoing (source_name source) content checksum opts.resume_from)) in
      if ltb 0 opts.resume_from
      then elim source.seek [ some e ↦ err (io e) | none ↦ answer ]
      else answer

  -- `none` is `sha256_file` without an answer.
  unfoldable pub send_file : Source → SendOptions → Option (Result (Unit {0}))
  unfolding send_content sha256_file
  send_file source opts = elim source.content [
    | none ↦ some (err (io (text "metadata failed")))
    | some content ↦
        if opts.verify_checksum
        then elim (sha256_file H source.reads (some content)) [
          | none ↦ none
          | some (err e) ↦ some (err e)
          | some (ok hash) ↦ some (send_content source opts content (some hash))
        ]
        else some (send_content source opts content none)
  ]

-- `ProgressReader::poll_read`, when the read is ready with `read` bytes.
unfoldable pub poll_read : TransferSession → Store → ℕ → Store
poll_read s st read = if ltb 0 read then add_bytes st s read else st

-- The library polls the reader until the end of the file.
unfoldable pub poll_all : TransferSession → Store → List ℕ → Store
unfolding poll_read
poll_all s st [] = st
poll_all s st (n ∷ reads) = poll_all s (poll_read s st n) reads
