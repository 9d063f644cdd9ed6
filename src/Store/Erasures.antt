-- ===== src/Store/Erasures.antt =====
-- What `delete_memory` of crates/mega-store/src/memory_repo.rs leaves of a memory.
use stalky.Prelude.Int.{ℤ}
use stalky.Prelude.Text.{Text, is_blank, text, text_eq}
use stalky.Prelude.{
  Bool, Bool-cases, List, Option, Result, ℕ, any, arith, bind-ok, false, inl, inr, map, none, not,
  ok, ok-injective, refl, retain, some, subst, true, ◌>>=◌, ◌||◌, ◌⊎◌, length, ltb, ◌∷◌, ◌≡◌, [],
}
use stalky.Jobs.{MemoryEventType, update_where, memory_deleted}
use stalky.Store.{Database, StoreError, has_id, record_event_tx, MemoryEventRow}
use stalky.Store.Plans.{remove_document}
use stalky.Store.Reviews.{ensure_revision, next_revision}
use stalky.Store.Deletes.{
  bury, cites, delete_empty_segments, delete_memory, delete_row, delete_sources,
  invalidate_affected_profiles, permanent,
}

pub any-retain :
    {A : Type 0} (p : A → Bool) (xs : List A) → any p (retain (λ x. not (p x)) xs) ≡ false
any-retain p [] = refl
any-retain p (x ∷ xs) = elim (Bool-cases (p x)) [
  | inl e ↦ rw e (any-retain p xs)
  | inr e ↦ rw (e, e) (any-retain p xs)
]

any-map-update :
    {A : Type 0} (p : A → Bool) (f : A → A) (xs : List A)
    → ((x : A) → p (f x) ≡ false)
    → any p (update_where p f xs) ≡ false
any-map-update p f [] k = refl
any-map-update p f (x ∷ xs) k = elim (Bool-cases (p x)) [
  | inl e ↦ rw (e, k x) (any-map-update p f xs k)
  | inr e ↦ rw (e, e) (any-map-update p f xs k)
]

module _ {F : Type 0} where
  -- Nothing by which a search finds a memory, or rebuilds it.
  pub record IsHidden (db : Database F) (id : Text) : Type 0 where
    pub no_document : any (λ d. text_eq d.memory_id id) db.memory_search_documents ≡ false
    pub no_embedding : any (λ e. text_eq e id) db.memory_embeddings ≡ false

  -- No row of any table is of a memory or names it.
  pub record IsErased (db : Database F) (id : Text) : Type 0 where
    pub hidden : IsHidden db id
    pub no_memory : any (has_id id) db.memories ≡ false
    pub no_category : any (λ l. text_eq l.memory_id id) db.memory_categories ≡ false
    pub no_app : any (λ l. text_eq l.memory_id id) db.memory_apps ≡ false
    pub no_source : any (λ l. text_eq l.memory_id id) db.memory_sources ≡ false
    pub no_entity : any (λ l. text_eq l.memory_id id) db.memory_entities ≡ false
    pub no_relation :
        any (λ l. text_eq l.from_memory_id id || text_eq l.to_memory_id id) db.memory_relations
        ≡ false
    pub no_candidate : any (λ c. cites c.memory_id id) db.extraction_candidates ≡ false

  delete_row-IsErased : (db : Database F) (id : Text) → IsErased (delete_row db id) id
  unfolding delete_row remove_document
  delete_row-IsErased db id = record {
    hidden = record {
      no_document = any-retain (λ d. text_eq d.memory_id id) db.memory_search_documents;
      no_embedding = any-retain (λ e. text_eq e id) db.memory_embeddings;
    };
    no_memory = any-retain (has_id id) db.memories;
    no_category = any-retain (λ l. text_eq l.memory_id id) db.memory_categories;
    no_app = any-retain (λ l. text_eq l.memory_id id) db.memory_apps;
    no_source = any-retain (λ l. text_eq l.memory_id id) db.memory_sources;
    no_entity = any-retain (λ l. text_eq l.memory_id id) db.memory_entities;
    no_relation =
        any-retain (λ l. text_eq l.from_memory_id id || text_eq l.to_memory_id id)
          db.memory_relations;
    no_candidate =
        any-map-update (λ c. cites c.memory_id id) (λ c. record c { memory_id = none })
          db.extraction_candidates (λ c. refl);
  }

  -- What the other tables hold is another matter.
  IsErased-elsewhere :
      (db : Database F) (id : Text) (sources : _) (joins : _) (segments : _) (tombstones : _)
      (events : _)
      → IsErased db id
      → IsErased
          (record db {
            source_events = sources;
            activity_segment_sources = joins;
            activity_segments = segments;
            memory_tombstones = tombstones;
            memory_events = events;
          })
          id
  IsErased-elsewhere db id sources joins segments tombstones events k = record {
    hidden = record { no_document = k.hidden.no_document; no_embedding = k.hidden.no_embedding };
    no_memory = k.no_memory;
    no_category = k.no_category;
    no_app = k.no_app;
    no_source = k.no_source;
    no_entity = k.no_entity;
    no_relation = k.no_relation;
    no_candidate = k.no_candidate;
  }

  -- A source that supports a memory, and one that is kept.
  abbrev pub supports : Database F → Text → Bool
  supports db s = any (λ l. text_eq l.source_event_id s) db.memory_sources

  abbrev pub is_kept : Database F → Text → Bool
  is_kept db s = any (λ e. text_eq e s) db.source_events

  -- The sources of a memory.
  abbrev pub sources_of : Database F → Text → List Text
  sources_of db id =
      map (λ l. l.source_event_id) (retain (λ l. text_eq l.memory_id id) db.memory_sources)

  abbrev pub without_source : Database F → Text → Database F
  without_source db s = record db {
    activity_segment_sources =
        retain (λ l. not (text_eq l.source_event_id s)) db.activity_segment_sources;
    source_events = retain (λ e. not (text_eq e s)) db.source_events;
  }

  -- One round of the loop over the sources.
  pub delete_sources-round :
      (s : Text) (ids : List Text) (db db' : Database F)
      → delete_sources db (s ∷ ids) ≡ ok db'
      → ((supports db s ≡ true) × (delete_sources db ids ≡ ok db'))
        ⊎ ((supports db s ≡ false) × (delete_sources (without_source db s) ids ≡ ok db'))
  unfolding delete_sources
  delete_sources-round s ids db db' h = ground (arith, h)

  -- The loop over the sources.
  delete_sources-IsErased :
      (ids : List Text) (db : Database F) (id : Text) (db' : Database F)
      → IsErased db id
      → delete_sources db ids ≡ ok db'
      → IsErased db' id
  unfolding delete_sources
  delete_sources-IsErased [] db id db' k h = subst (λ d. IsErased d id) (ok-injective h) k
  delete_sources-IsErased (s ∷ ids) db id db' k h = elim (delete_sources-round s ids db db' h) [
    | inl (_, e) ↦ delete_sources-IsErased ids db id db' k e
    | inr (_, e) ↦
        delete_sources-IsErased ids (without_source db s) id db'
          (IsErased-elsewhere db id _ _ _ _ _ k) e
  ]

  -- A reported transaction differs by its report only.
  pub record_event_tx-ok :
      (db : Database F) (type : MemoryEventType) (correlation_id : Text)
      (memory_id outcome : Option Text) (now : ℤ) (db' : Database F)
      → record_event_tx db type correlation_id memory_id outcome now ≡ ok db'
      → (events : List MemoryEventRow) × (record db { memory_events = events } ≡ db')
  unfolding record_event_tx
  record_event_tx-ok db type correlation_id memory_id outcome now db' h =
      elim (Bool-cases (is_blank correlation_id || ltb 128 (length correlation_id))) [
        | inl e ↦ absurd (cc (rw (e, record_event_tx) at h))
        | inr e ↦ (_, ok-injective (rw (e, record_event_tx) at h))
      ]

  -- The tables after the loop over the sources, and those at the end.
  pub delete_memory-permanent :
      (db : Database F) (id : Text) (expected : ℕ) (correlation_id : Text) (now : ℤ)
      (db' : Database F)
      → delete_memory db id expected permanent correlation_id now ≡ ok db'
      → (left : Database F) × (delete_sources
            (delete_row (invalidate_affected_profiles db id) id)
            (sources_of db id)
          ≡ ok left)
        × (events : List MemoryEventRow) × (record (bury
              (delete_empty_segments left)
              id
              (next_revision expected)
              now) { memory_events = events }
            ≡ db')
  unfolding delete_memory
  delete_memory-permanent db id expected correlation_id now db' h =
      let start = delete_row (invalidate_affected_profiles db id) id in
      let ids = sources_of db id in
      let told : Database F → Result (Database F) StoreError = λ left.
        record_event_tx (bury (delete_empty_segments left) id (next_revision expected) now)
          memory_deleted correlation_id (some id) (some (text "permanent")) now in
      let (s, _, h1) =
        bind-ok (ensure_revision db id expected) (λ _. delete_sources start ids >>= told) db' h in
      let (left, hl, h2) = bind-ok (delete_sources start ids) told db' h1 in
      let (events, e) =
        record_event_tx-ok (bury (delete_empty_segments left) id (next_revision expected) now)
          memory_deleted correlation_id (some id) (some (text "permanent")) now db' h2 in
      (left, hl, events, e)

  -- After a permanent deletion that succeeds, the tables have no row of the memory, no search
  -- document, embedding or link of it, and no relation or candidate that names it.
  pub delete_memory-IsErased :
      (db : Database F) (id : Text) (expected : ℕ) (correlation_id : Text) (now : ℤ)
      (db' : Database F)
      → delete_memory db id expected permanent correlation_id now ≡ ok db'
      → IsErased db' id
  unfolding delete_empty_segments bury
  delete_memory-IsErased db id expected correlation_id now db' h =
      let (left, hl, events, e) = delete_memory-permanent db id expected correlation_id now db' h in
      subst (λ d. IsErased d id) e
        (IsErased-elsewhere left id _ _ _ _ events (
          delete_sources-IsErased (sources_of db id) _ id left
            (delete_row-IsErased (invalidate_affected_profiles db id) id) hl))
