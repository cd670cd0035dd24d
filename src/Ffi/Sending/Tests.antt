-- ===== src/Ffi/Sending/Tests.antt =====
-- Runs of sending at concrete inputs.
use filedrop.Base.{nat_eq, ◌≡◌, refl, [], ◌∷◌, ◌++◌, Text, text}
use filedrop.Ffi.Samples.{engine, runtime}
use filedrop.Ffi.Sending.{Chosen, send_files}
use filedrop.Ffi.Sending.Queued.{Measured, ids, queued_files, send_files-queued, send_files-stops}
use filedrop.Ffi.{Reply, done, refused}

abbrev any_address : Text → Reply Text
any_address s = done s

abbrev letter : Chosen
letter = record { path = text "/home/letter.txt"; metadata = done 12; new_id = 5 }

abbrev photo : Chosen
photo = record { path = text "/home/photo.jpg"; metadata = done 900; new_id = 6 }

abbrev lost : Chosen
lost = record { path = text "/home/lost"; metadata = refused (text "not found"); new_id = 7 }

abbrev peer : Text
peer = text "192.168.1.9" ++ (b':' ∷ text "53317")

two_files : Measured (letter ∷ photo ∷ []) (12 ∷ 900 ∷ [])
two_files = (refl, (refl, tt))

address :
    any_address (text "192.168.1.9" ++ (b':' ∷ filedrop.Transfer.Decimal.show_u64 53317))
    ≡ done peer
unfolding filedrop.Transfer.Decimal.show_u64
address = refl

send_files-queued_example :
    send_files any_address runtime (text "192.168.1.9") 53317 9 (letter ∷ photo ∷ []) ≡ (
      done (ids (letter ∷ photo ∷ [])),
      queued_files any_address runtime engine
          (text "192.168.1.9")
          peer
          53317
          9
          (letter ∷ photo ∷ [])
          (12 ∷ 900 ∷ []),
    )
send_files-queued_example =
    send_files-queued any_address runtime engine (text "192.168.1.9") peer 53317 9
      (letter ∷ photo ∷ []) (12 ∷ 900 ∷ []) refl address two_files

send_files-stops_example :
    send_files any_address runtime
      (text "192.168.1.9")
      53317
      9
      ((letter ∷ photo ∷ []) ++ (lost ∷ letter ∷ []))
    ≡ (
      refused (text "cannot read " ++ (lost.path ++ (text ": " ++ text "not found"))),
      queued_files any_address runtime engine
          (text "192.168.1.9")
          peer
          53317
          9
          (letter ∷ photo ∷ [])
          (12 ∷ 900 ∷ []),
    )
send_files-stops_example =
    send_files-stops any_address runtime engine (text "192.168.1.9") peer 53317 9
      (letter ∷ photo ∷ []) (12 ∷ 900 ∷ []) lost (letter ∷ []) (text "not found") refl address
      two_files refl
