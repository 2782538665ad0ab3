-- ===== src/Metadata/FileMarshal/Writes.antt =====
-- What one write does to the tables, and how the log replays it.
use Prim.Native.Nat.{suc}
use metrka_core.Prelude.{
  ℕ, String, ◌≡◌, refl, ap, ◌∙◌, sym, false, some, List, [], ◌∷◌, ◌++◌, arith, inl, inr,
}
use metrka_core.Prelude.Tests.{Bool-cases, Option-cases}
use metrka_core.Prelude.Lists.{find, any}
use metrka_core.Prelude.Time.{DateTime}
use metrka_core.Prelude.Result.{ok, bind_ok, ok-injective}
use metrka_core.Metadata.MarshalModels.{MarshalEntry, MarshalEvent, Meta}
use metrka_core.Metadata.MarshalStore.{
  Files, has_file_id, in_place_of, put_row, stored, upsert_marshaled_file, get_marshaled_file,
  read_record, entry_from_record,
}
use metrka_core.Metadata.FileMarshal.{Marshal, put, require_entry, event_type_of}

-- The files that a log describes: each event writes its new entry.
unfoldable pub replay_from : Files → List MarshalEvent → Files
unfolding any
replay_from rows [] = rows
replay_from rows (event ∷ events) =
    replay_from
      (put_row (any (has_file_id event.new.file.dataset_file_id) rows) (stored event.new) rows)
      events

pub replay_from-append :
    (events : List MarshalEvent) (rows : Files) (event : MarshalEvent)
    → replay_from rows (events ++ event ∷ [])
      ≡ put_row
          (any (has_file_id event.new.file.dataset_file_id) (replay_from rows events))
          (stored event.new)
          (replay_from rows events)
unfolding replay_from
replay_from-append [] rows event = refl
replay_from-append (e ∷ events) rows event =
    replay_from-append events
      (put_row (any (has_file_id e.new.file.dataset_file_id) rows) (stored e.new) rows) event

-- A write puts the row, which takes no place that another row has, and appends its event.
pub record IsPut (i : String) (new : MarshalEntry) (s s' : Marshal) : Type 0 where
  pub event : MarshalEvent
  pub row_put :
      s'.files ≡ put_row (any (has_file_id new.file.dataset_file_id) s.files) (stored new) s.files
  pub logged : s'.events ≡ s.events ++ event ∷ []
  pub news : event.new ≡ new
  pub free : any (in_place_of new.version_period new) s.files ≡ false
  pub read : get_marshaled_file i s.files ≡ ok event.old

upsert_inv :
    (e : MarshalEntry) (rows rows' : Files)
    → upsert_marshaled_file e rows ≡ ok rows'
    → (rows' ≡ put_row (any (has_file_id e.file.dataset_file_id) rows) (stored e) rows)
      × (any (in_place_of e.version_period e) rows ≡ false)
unfolding upsert_marshaled_file
upsert_inv e rows rows' h = elim (Bool-cases (any (in_place_of e.version_period e) rows)) [
  | inl t ↦ absurd (ground (arith, t, h))
  | inr t ↦ ground (arith, t, h)
]

pub put-IsPut :
    (now_utc : ℕ → DateTime) (i : String) (new : MarshalEntry) (reason : String) (meta : Meta)
    (s s' : Marshal)
    → put now_utc i new reason meta s ≡ ok s'
    → IsPut i new s s'
unfolding put
put-IsPut now_utc i new reason meta s s' h =
    bind_ok (get_marshaled_file i s.files) _ _ h (λ old e1 h1.
      bind_ok (upsert_marshaled_file new s.files) _ _ h1 (λ files e2 h2.
        let (rows, free) = upsert_inv new s.files files e2 in
        let same : record {
          files = files;
          events =
              s.events
              ++ record {
                event_ts = now_utc s.ticks;
                event_type = event_type_of old;
                file_id = i;
                reason = reason;
                old = old;
                new = new;
                meta = meta;
              }
                ∷ [];
          ticks = suc s.ticks;
        }
            ≡ s' =
          ok-injective _ _ h2 in
        record {
          event = _;
          row_put = ap (λ (x : Marshal). x.files) (sym same) ∙ rows;
          logged = ap (λ (x : Marshal). x.events) (sym same);
          news = refl;
          free = free;
          read = e1;
        }))

-- An entry that is read is a row whose artifacts were put in order.
pub entry_inv :
    (i : String) (rows : Files) (t : MarshalEntry)
    → require_entry i rows ≡ ok t
    → (row : MarshalEntry) × (find (has_file_id i) rows ≡ some row) × (entry_from_record row ≡ ok t)
unfolding require_entry get_marshaled_file read_record
entry_inv i rows t h = elim (Option-cases (find (has_file_id i) rows)) [
  | inl e ↦ absurd (ground (arith, e, h))
  | inr (row, e) ↦ (row, e, ground (arith, e, h))
]
