-- ===== src/Store/Evidence.antt =====
-- The source events that `delete_memory` of crates/mega-store/src/memory_repo.rs leaves.
use stalky.Prelude.Int.{ℤ}
use stalky.Prelude.Text.{Text, text_eq}
use stalky.Prelude.{
  List, ℕ, ap, false, inl, inr, not, ok, ok-injective, subst, sym, true, In, ◌∷◌, ◌≡◌, [],
}
use stalky.Store.{Database}
use stalky.Store.Keys.{any-retain-false}
use stalky.Store.Deletes.{bury, delete_empty_segments, delete_memory, delete_sources, permanent}
use stalky.Store.Erasures.{
  any-retain, delete_memory-permanent, delete_sources-round, is_kept, sources_of, supports,
  without_source,
}

module _ {F : Type 0} where
  -- The loop leaves the links of memories alone.
  delete_sources-links :
      (ids : List Text) (db db' : Database F)
      → delete_sources db ids ≡ ok db'
      → db'.memory_sources ≡ db.memory_sources
  unfolding delete_sources
  delete_sources-links [] db db' h = ap (λ d. d.memory_sources) (sym (ok-injective h))
  delete_sources-links (s ∷ ids) db db' h = elim (delete_sources-round s ids db db' h) [
    | inl (_, e) ↦ delete_sources-links ids db db' e
    | inr (_, e) ↦ delete_sources-links ids (without_source db s) db' e
  ]

  -- A source that is gone stays gone.
  delete_sources-gone :
      (ids : List Text) (db db' : Database F) (s : Text)
      → is_kept db s ≡ false
      → delete_sources db ids ≡ ok db'
      → is_kept db' s ≡ false
  unfolding delete_sources
  delete_sources-gone [] db db' s k h = subst (λ d. is_kept d s ≡ false) (ok-injective h) k
  delete_sources-gone (i ∷ ids) db db' s k h = elim (delete_sources-round i ids db db' h) [
    | inl (_, e) ↦ delete_sources-gone ids db db' s k e
    | inr (_, e) ↦
        delete_sources-gone ids (without_source db i) db' s
          (any-retain-false (λ x. text_eq x s) (λ x. not (text_eq x i)) db.source_events k) e
  ]

  -- A source that is kept supports another memory.
  delete_sources-supported :
      (ids : List Text) (db db' : Database F) (s : Text)
      → delete_sources db ids ≡ ok db'
      → In s ids
      → is_kept db' s ≡ true
      → supports db' s ≡ true
  delete_sources-supported [] db db' s h i k = elim i [ ]
  delete_sources-supported (x ∷ ids) db db' s h (inr i) k =
      elim (delete_sources-round x ids db db' h) [
        | inl (_, e) ↦ delete_sources-supported ids db db' s e i k
        | inr (_, e) ↦ delete_sources-supported ids (without_source db x) db' s e i k
      ]
  delete_sources-supported (x ∷ ids) db db' s h (inl p) k =
      elim (delete_sources-round x ids db db' h) [
        | inl (t, e) ↦ rw (delete_sources-links ids db db' e, p) t
        | inr (_, e) ↦
            let gone =
              delete_sources-gone ids (without_source db x) db' s
                (rw p (any-retain (λ e. text_eq e x) db.source_events)) e in
            absurd (cc)
      ]

  -- After a permanent deletion that succeeds, a source event of the deleted memory that is still
  -- there supports another memory.
  pub delete_memory-supported :
      (db : Database F) (id : Text) (expected : ℕ) (correlation_id : Text) (now : ℤ)
      (db' : Database F) (s : Text)
      → delete_memory db id expected permanent correlation_id now ≡ ok db'
      → In s (sources_of db id)
      → is_kept db' s ≡ true
      → supports db' s ≡ true
  unfolding delete_empty_segments bury
  delete_memory-supported db id expected correlation_id now db' s h i =
      let (left, hl, events, e) = delete_memory-permanent db id expected correlation_id now db' h in
      subst (λ d. is_kept d s ≡ true → supports d s ≡ true) e
        (delete_sources-supported (sources_of db id) _ left s hl i)
