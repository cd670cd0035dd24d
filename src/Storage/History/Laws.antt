-- ===== src/Storage/History/Laws.antt =====
-- The store of past transfers: what a call leaves in memory and on the disk, and in which order the
-- transfers are listed.
use filedrop.Base.{
  ℕ, ◌≡◌, ◌≢◌, refl, sym, ap, ◌∙◌, ◌⊎◌, inl, inr, true, false, Option, none, some, List, [], ◌∷◌,
  arith, ◌==◌, ==_iff, nat_eq, if◌then◌else◌, Bool-cases, Option-cases,
}
use filedrop.Base.Dict.{Dict, lookup, insert, values, lookup-insert}
use filedrop.Errors.{Uuid, FileDropError, io, Result, ok, err, Result-cases}
use filedrop.Storage.History.{
  TransferRecord, Json, IsRoundTrip, HistoryStore, Fault, collect, load, persist, add, get,
}

-- Every record lies under its own id, once.
abbrev pub IsIndexed : Dict Uuid TransferRecord → Type 0
IsIndexed [] = Unit {0}
IsIndexed ((k, r) ∷ d) = (r.id ≡ k) × ((lookup k d ≡ none) × IsIndexed d)

pub insert-IsIndexed :
    (r : TransferRecord) (d : Dict Uuid TransferRecord) → IsIndexed d → IsIndexed (insert r.id r d)
unfolding insert lookup
insert-IsIndexed r [] h = (refl, (refl, tt))
insert-IsIndexed r ((k, x) ∷ d) h = elim (Bool-cases (k == r.id)) [
  | inl e ↦
      let same = (==_iff k r.id).0 e in
      rw (e, insert) (refl, (ap (λ i. lookup i d) (sym same) ∙ h.1.0, h.1.1))
  | inr e ↦
      let other : (r.id == k) ≡ false = ground arith in
      rw (e, insert) (h.0, (lookup-insert k r.id r d ∙ rw other h.1.0, insert-IsIndexed r d h.1.1))
]

-- `first`, or else `second`.
abbrev or_else : Option TransferRecord → Option TransferRecord → Option TransferRecord
or_else none second = second
or_else (some r) second = some r

lookup-collect :
    (id : Uuid) (d acc : Dict Uuid TransferRecord)
    → IsIndexed d
    → lookup id (collect acc (values d)) ≡ or_else (lookup id d) (lookup id acc)
unfolding collect lookup
lookup-collect id [] acc h = refl
lookup-collect id ((k, r) ∷ d) acc h =
    let next = lookup-collect id d (insert r.id r acc) h.1.1 in
    let there = lookup-insert id r.id r acc in
    elim (Bool-cases (k == id)) [
      | inl e ↦
          let same = (==_iff k id).0 e in
          let gone : lookup id d ≡ none = ap (λ i. lookup i d) (sym same) ∙ h.1.0 in
          let own : (r.id == id) ≡ true = ground (arith, h.0) in
          rw e (next ∙ rw (gone, there, own) refl)
      | inr e ↦
          let other : (r.id == id) ≡ false = ground (arith, h.0) in
          rw e (next ∙ ap (or_else (lookup id d)) (there ∙ rw other refl))
    ]

-- The whole effect of `add`: in memory the record is there under its id and all others are as they
-- were, also when the call fails; the file holds all records if it succeeds, and is unchanged if not.
pub add_lem :
    (json : Json) (fault : Fault) (s : HistoryStore) (r : TransferRecord) (id : Uuid)
    → let out = add json fault s r in
      (get out.1 id ≡ (if r.id == id then some r else get s id))
      × (((out.0 ≡ ok tt)
            × ((raw : List ℕ) × (json.to_vec_pretty (values out.1.records) ≡ ok raw)
                × (out.1.file ≡ some raw)))
          ⊎ ((e : FileDropError) × (out.0 ≡ err e) × (out.1.file ≡ s.file)))
unfolding add persist
add_lem json fault s r id =
    let d = insert r.id r s.records in
    elim (Result-cases (json.to_vec_pretty (values d))) [
      | inl (e, h) ↦ rw (h, persist) (lookup-insert id r.id r s.records, inr (e, refl, refl))
      | inr (raw, h) ↦ elim (Option-cases fault) [
        | inl f ↦ rw (h, f, persist) (lookup-insert id r.id r s.records, inl (refl, (raw, h, refl)))
        | inr (e, f) ↦
            rw (h, f, persist) (lookup-insert id r.id r s.records, inr (io e, refl, refl))
      ]
    ]

or_else-none : (o : Option TransferRecord) → or_else o none ≡ o
or_else-none none = refl
or_else-none (some r) = refl

loaded :
    (json : Json)
    → IsRoundTrip json
    → (l : List TransferRecord) (raw : List ℕ) → json.to_vec_pretty l ≡ ok raw
    → (t : HistoryStore) × (load json none (some raw) ≡ ok t) × (t.records ≡ collect [] l)
unfolding load
loaded json j l [] h = absurd (j.not_empty l h)
loaded json j l (b ∷ raw) h = (
  record { records = collect [] l; file = some (b ∷ raw) },
  rw (j.reads l (b ∷ raw) h, load) refl,
  refl,
)

add-records :
    (json : Json) (fault : Fault) (s : HistoryStore) (r : TransferRecord)
    → (add json fault s r).1.records ≡ insert r.id r s.records
unfolding add persist
add-records json fault s r =
    elim (Result-cases (json.to_vec_pretty (values (insert r.id r s.records)))) [
      | inl (e, h) ↦ rw (h, persist) refl
      | inr (raw, h) ↦ elim (Option-cases fault) [
        | inl f ↦ rw (h, f, persist) refl
        | inr (e, f) ↦ rw (h, f, persist) refl
      ]
    ]

failed-apart : (e : FileDropError) (r : Result (Unit {0})) → r ≡ err e → r ≢ ok tt
failed-apart e r f h = cc

-- What `add` has stored is there after a restart: if the call succeeds on a store that keeps every
-- record under its own id, loading the file gives a store with the same record under every id, and
-- the store still keeps every record under its own id.
pub load-add :
    (json : Json) (fault : Fault) (s : HistoryStore) (r : TransferRecord)
    → IsRoundTrip json
    → IsIndexed s.records
    → (add json fault s r).0 ≡ ok tt
    → ((t : HistoryStore) × (load json none (add json fault s r).1.file ≡ ok t)
        × ((id : Uuid) → get t id ≡ get (add json fault s r).1 id))
      × IsIndexed (add json fault s r).1.records
unfolding lookup
load-add json fault s r j h done =
    let out = add json fault s r in
    let indexed : IsIndexed out.1.records =
      rw (add-records json fault s r) (insert-IsIndexed r s.records h) in
    elim (add_lem json fault s r r.id).1 [
      | inr (e, failed, same) ↦ absurd (failed-apart e out.0 failed done)
      | inl (fine, (raw, written, file)) ↦
          let (t, read, records) = loaded json j (values out.1.records) raw written in
          (
            (
              t,
              ap (load json none) file ∙ read,
              λ id.
                  ap (lookup id) records
                  ∙ lookup-collect id out.1.records [] indexed
                  ∙ or_else-none (lookup id out.1.records),
            ),
            indexed,
          )
    ]
