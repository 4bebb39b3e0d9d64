-- ===== src/Events/Meta.antt =====
-- domain/event.go: an event, its payload, and its meta, a map behind a pointer that events may share.
use ohlcv.Startup.{text_or_empty}
use ohlcv.Base.{
  ℕ, ◌+◌, ◌≡◌, String, List, [], ◌∷◌, Option, none, some, ==_iff, ◌==◌, str_eq, Assoc, lookup,
  insert, lookup-insert, Run, done, panic, arith, if◌then◌else◌, Option-cases, refl, inl, inr,
}

-- The items of an event: charts or deals.
pub data Payload (C D : Type 0) : Type 0 where
  charts : List C → Payload C D
  deals : List D → Payload C D

-- `meta` is nil, or the address of a map. Ctx is not read.
pub record Event (C D : Type 0) : Type 0 where
  pub payload : Payload C D
  pub meta : Option ℕ

-- The maps, by address.
pub record Metas : Type 0 where
  pub heap : ℕ → Assoc String
  pub next_address : ℕ

-- `m.meta[key] = value` at an address.
unfoldable pub write_meta : ℕ → String → String → Metas → Metas
write_meta address key value metas = record metas {
  heap = λ a. if a == address then insert key value (metas.heap address) else metas.heap a;
}

put_all : ℕ → Assoc String → Metas → Metas
put_all address [] metas = metas
put_all address ((k, v) ∷ entries) metas = put_all address entries (write_meta address k v metas)

entries_of : Option ℕ → Metas → Assoc String
entries_of none metas = []
entries_of (some address) metas = metas.heap address

-- What is read under a key of a map that has just been written at its address.
read_back :
    (key other value : String) (new old : Assoc String) (address : ℕ) (heap : ℕ → Assoc String)
    → lookup other new ≡ (if str_eq key other then some value else lookup other old)
    → text_or_empty (lookup other (if address == address then new else heap address))
      ≡ (if str_eq key other then value else text_or_empty (lookup other old))
read_back key other value new old address heap e = ground (arith, e, ==_iff address address)

module _ {C D : Type 0} where
  unfoldable pub new_event : Payload C D → Event C D
  new_event items = record { payload = items; meta = none }

  unfoldable pub with_meta_kv : String → String → Event C D → Metas → Event C D × Metas
  unfolding write_meta
  with_meta_kv key value m metas = elim (m.meta) [
    | some address ↦ (m, write_meta address key value metas)
    | none ↦ (
      record m { meta = some metas.next_address },
      record {
        heap = λ a. if a == metas.next_address then (key, value) ∷ [] else metas.heap a;
        next_address = metas.next_address + 1;
      },
    )
  ]

  -- The caller's map becomes the event's, if that has none; otherwise its entries are copied.
  unfoldable pub with_meta : Option ℕ → Event C D → Metas → Event C D × Metas
  unfolding put_all entries_of
  with_meta meta m metas = elim (m.meta) [
    | none ↦ (record m { meta = meta }, metas)
    | some address ↦ (m, put_all address (entries_of meta metas) metas)
  ]

  unfoldable pub get_meta : String → Event C D → Metas → String
  unfolding entries_of
  get_meta key m metas = text_or_empty (lookup key (entries_of m.meta metas))

  -- A type assertion panics on a payload of another type.
  unfoldable pub must_get_charts : Event C D → Run (List C)
  must_get_charts m = elim (m.payload) [ charts cs ↦ done cs | deals ds ↦ panic ]

  unfoldable pub must_get_deals : Event C D → Run (List D)
  must_get_deals m = elim (m.payload) [ charts cs ↦ panic | deals ds ↦ done ds ]

  -- After WithMetaKV, GetMeta answers the value for the key, and for every other key what it answered
  -- before.
  pub get_meta-with_meta_kv :
      (key other value : String) (m : Event C D) (metas : Metas)
      → get_meta other (with_meta_kv key value m metas).0 (with_meta_kv key value m metas).1
        ≡ (if str_eq key other then value else get_meta other m metas)
  unfolding get_meta with_meta_kv lookup write_meta entries_of
  get_meta-with_meta_kv key other value m metas = elim (Option-cases (m.meta)) [
    | inl e ↦
        rw (e, with_meta_kv)
          (read_back key other value ((key, value) ∷ []) [] metas.next_address metas.heap refl)
    | inr (address, e) ↦
        rw (e, with_meta_kv)
          (rw e (
            read_back key other value (insert key value (metas.heap address)) (metas.heap address)
              address metas.heap (lookup-insert key other value (metas.heap address))))
  ]
