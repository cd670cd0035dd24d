-- ===== src/Storage/Tests.antt =====
-- Runs of the store of past transfers at concrete inputs.
use filedrop.Base.{
  ℕ, zero, suc, ◌+◌, ◌≡◌, ◌≢◌, ◌⊎◌, refl, ap, ◌∙◌, sym, Bool, true, false, Option, none, some, List,
  [], ◌∷◌, ◌++◌, arith, ◌==◌, nat_eq, if◌then◌else◌, Text, text, Eq, ==_iff, list_eq, Bool-cases,
  inl, inr, ℕ_discrete,
}
use filedrop.Base.Dict.{values}
use filedrop.Base.Words.{pos}
use filedrop.Errors.{Uuid, serde, ok, err}
use filedrop.Storage.History.{
  completed, TransferRecord, Json, IsRoundTrip, HistoryStore, load, add, get, list,
}
use filedrop.Storage.History.Laws.{IsIndexed, load-add}
use filedrop.Storage.History.Order.{IsLatestFirst, count, list-IsLatestFirst}

abbrev sent : TransferRecord
sent = record {
  id = 1;
  file_name = text "a.txt";
  file_size_bytes = 4;
  peer_device_id = 7;
  peer_name = text "alice";
  outgoing = true;
  status = completed;
  sha256 = none;
  started_at = pos 10;
  completed_at = pos 20;
  saved_path = none;
}

record-discrete : Discrete TransferRecord
record-discrete = hlevel (ℕ_discrete)

instance abbrev record_eq : Eq TransferRecord
record_eq = record { dec = record-discrete }

abbrev only_sent : List TransferRecord
only_sent = sent ∷ []

-- A library that writes this list only.
abbrev one_list : Json
one_list = record {
  to_vec_pretty = λ l. if l == only_sent then ok (1 ∷ []) else err (serde []);
  from_slice = λ raw. ok only_sent;
}

refused-apart : (raw : List ℕ) → err (serde []) ≢ ok raw
refused-apart raw h = cc

one-apart : (a b : List ℕ) → a ≡ 1 ∷ [] → b ≡ [] → ok a ≢ ok b
one-apart a b p q h = cc

one_list-not_empty : (l : List TransferRecord) → one_list.to_vec_pretty l ≢ ok []
one_list-not_empty l h = elim (Bool-cases (l == only_sent)) [
  | inl e ↦ let k = rw e at h in one-apart (1 ∷ []) [] refl refl k
  | inr e ↦ let k = rw e at h in refused-apart [] k
]

one_list-reads :
    (l : List TransferRecord) (raw : List ℕ)
    → one_list.to_vec_pretty l ≡ ok raw
    → one_list.from_slice raw ≡ ok l
one_list-reads l raw h = elim (Bool-cases (l == only_sent)) [
  | inl e ↦ ap ok (sym ((==_iff l only_sent).0 e))
  | inr e ↦ let k = rw e at h in absurd (refused-apart raw k)
]

one_list-IsRoundTrip : IsRoundTrip one_list
one_list-IsRoundTrip = record { reads = one_list-reads; not_empty = one_list-not_empty }

abbrev empty_store : HistoryStore
empty_store = record { records = []; file = none }

added : (add one_list none empty_store sent).0 ≡ ok tt
unfolding add filedrop.Base.ℕ_discrete list_eq record-discrete
added = refl

load-add_example :
    ((t : HistoryStore) × (load one_list none (add one_list none empty_store sent).1.file ≡ ok t)
      × ((id : Uuid) → get t id ≡ get (add one_list none empty_store sent).1 id))
    × IsIndexed (add one_list none empty_store sent).1.records
load-add_example = load-add one_list none empty_store sent one_list-IsRoundTrip tt added

abbrev two_sent : HistoryStore
two_sent = record {
  records = (1, sent) ∷ (2, record sent { id = 2; completed_at = pos 30 }) ∷ [];
  file = none;
}

list-IsLatestFirst_example :
    IsLatestFirst (list two_sent)
    × (count (λ r. r.id == 1) (list two_sent) ≡ count (λ r. r.id == 1) (values two_sent.records))
list-IsLatestFirst_example = list-IsLatestFirst (λ r. r.id == 1) two_sent
