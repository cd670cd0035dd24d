-- ===== src/Storage/History.antt =====
-- rust/filedrop-core/src/storage/history.rs: the store of past transfers. The lock makes each method one
-- step; the JSON library and the failures of the file system are parameters.
pub mod Laws
pub mod Order
use filedrop.Base.{
  ℕ, ◌+◌, ◌≤◌, ◌<◌, ◌≡◌, ◌↔◌, refl, sym, ap, ◌∙◌, ◌⊎◌, inl, inr, Bool, true, false, not, Option,
  none, some, List, [], ◌∷◌, ◌++◌, arith, ◌==◌, nat_eq, if◌then◌else◌, Text, All, length,
  Bool-cases, Option-cases,
}
use filedrop.Base.Dict.{Dict, lookup, insert, values, lookup-insert}
use filedrop.Base.Words.{ℤ, pos, leb_ℤ}
use filedrop.Errors.{Uuid, io, serde, Result, ok, err}

pub data TransferRecordStatus : Type 0 where
  completed failed cancelled : TransferRecordStatus

pub record TransferRecord : Type 0 where
  pub id : Uuid
  pub file_name : Text
  pub file_size_bytes : ℕ
  pub peer_device_id : Uuid
  pub peer_name : Text
  pub outgoing : Bool
  pub status : TransferRecordStatus
  pub sha256 : Option Text
  pub started_at : ℤ
  pub completed_at : ℤ
  pub saved_path : Option Text

-- `serde_json`, on lists of records.
pub record Json : Type 0 where
  pub to_vec_pretty : List TransferRecord → Result (List ℕ)
  pub from_slice : List ℕ → Result (List TransferRecord)

-- What the library documents: what it writes is not empty, and reading it gives the list back.
pub record IsRoundTrip (json : Json) : Type 0 where
  pub reads :
      (l : List TransferRecord) (raw : List ℕ)
      → json.to_vec_pretty l ≡ ok raw
      → json.from_slice raw ≡ ok l
  pub not_empty : (l : List TransferRecord) → json.to_vec_pretty l ≡ ok [] → ⊥

-- The records in memory, and the content of the file, if there is one.
pub record HistoryStore : Type 0 where
  pub records : Dict Uuid TransferRecord
  pub file : Option (List ℕ)

-- The first call of `persist` to the file system that fails, with its message.
abbrev pub Fault : Type 0
Fault = Option Text

-- `list.into_iter().map(|r| (r.id, r)).collect()`
unfoldable pub collect : Dict Uuid TransferRecord → List TransferRecord → Dict Uuid TransferRecord
unfolding insert
collect d [] = d
collect d (r ∷ rs) = collect (insert r.id r d) rs

module _ (json : Json) where
  -- `read` is the failure of `tokio::fs::read`, if there is one.
  unfoldable pub load : Fault → Option (List ℕ) → Result HistoryStore
  unfolding collect
  load read none = ok (record { records = []; file = none })
  load (some e) (some raw) = err (io e)
  load none (some []) = ok (record { records = []; file = some [] })
  load none (some (b ∷ raw)) = elim (json.from_slice (b ∷ raw)) [
    | err e ↦ err e
    | ok list ↦ ok (record { records = collect [] list; file = some (b ∷ raw) })
  ]

  unfoldable pub persist : Fault → HistoryStore → Result (Unit {0}) × HistoryStore
  persist fault s = elim (json.to_vec_pretty (values s.records)) [
    | err e ↦ (err e, s)
    | ok raw ↦ elim fault [
      | some e ↦ (err (io e), s)
      | none ↦ (ok tt, record s { file = some raw })
    ]
  ]

  unfoldable pub add : Fault → HistoryStore → TransferRecord → Result (Unit {0}) × HistoryStore
  unfolding persist insert
  add fault s r = persist fault (record s { records = insert r.id r s.records })

  unfoldable pub clear : Fault → HistoryStore → Result (Unit {0}) × HistoryStore
  unfolding persist
  clear fault s = persist fault (record s { records = [] })

abbrev pub get : HistoryStore → Uuid → Option TransferRecord
get s id = lookup id s.records

-- `sort_by_key(|r| Reverse(r.completed_at))`, a stable sort: later records come first.
unfoldable pub insert_sorted : TransferRecord → List TransferRecord → List TransferRecord
insert_sorted r [] = r ∷ []
insert_sorted r (x ∷ xs) =
    let rest = insert_sorted r xs in
    if leb_ℤ x.completed_at r.completed_at then r ∷ x ∷ xs else x ∷ rest

unfoldable pub sort_by_completed : List TransferRecord → List TransferRecord
unfolding insert_sorted
sort_by_completed [] = []
sort_by_completed (r ∷ rs) = insert_sorted r (sort_by_completed rs)

unfoldable pub list : HistoryStore → List TransferRecord
unfolding sort_by_completed
list s = sort_by_completed (values s.records)
