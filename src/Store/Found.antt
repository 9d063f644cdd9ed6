-- ===== src/Store/Found.antt =====
-- What `search` of crates/mega-store/src/memory_repo.rs finds.
use Prim.Native.Nat.{Ordering}
use stalky.Prelude.Text.{Text, text_eq, text_eq_iff}
use stalky.Prelude.Orders.{IsSorted, is_gt}
use stalky.Prelude.Comparisons.{by_key-IsOrder, cmp_ℤ, cmp_ℤ-IsOrder, descending-IsOrder}
use stalky.Prelude.{
  All, All-map, In, In-any, List, Option-cases, any, ap, arith, bind-ok, false, inl, inr, length,
  length-take_le, map, ok, ok-injective, refl, reject_if, same→eq, some, ◌>>◌, subst, suc, sym,
  take, true, zero, ℕ, ◌&&◌, ◌∙◌, ◌∷◌, ◌≡◌, ◌≤◌, [],
}
use stalky.Model.{Memory, MemoryStatus-discrete, active}
use stalky.Jobs.{find_row}
use stalky.Jobs.Rows.{find_row-In}
use stalky.Store.{Database, MemoryRow, sql}
use stalky.Store.Keys.{keyed-same}
use stalky.Store.Effects.{reject-ok}
use stalky.Store.Index.{IsIndexed, retain-All, shows, shows-holds}
use stalky.Store.Search.{
  MemorySearchFilter, RawMemory, Sqlite, base_memory_select, fts_literal_query, hydrate_memory,
  is_found, is_selected, is_unreadable, newest_first, search, search_rows, validate,
}

take-All : {A : Type 0} (P : A → Type 0) (n : ℕ) (xs : List A) → All P xs → All P (take n xs)
take-All P zero xs h = tt
take-All P (suc n) [] h = tt
take-All P (suc n) (x ∷ xs) h = (h.0, take-All P n xs h.1)

pub map-All :
    {A B : Type 0} (P : A → Type 0) (Q : B → Type 0) (f : A → B) (xs : List A)
    → ((x : A) → P x → Q (f x))
    → All P xs
    → All Q (map f xs)
map-All P Q f [] g h = tt
map-All P Q f (x ∷ xs) g h = (g x h.0, map-All P Q f xs g h.1)

take-IsSorted :
    {A : Type 0} (cmp : A → A → Ordering) (n : ℕ) (xs : List A)
    → IsSorted cmp xs
    → IsSorted cmp (take n xs)
take-IsSorted cmp zero xs h = tt
take-IsSorted cmp (suc n) [] h = tt
take-IsSorted cmp (suc n) (x ∷ xs) h =
    (take-All (λ y. is_gt (cmp x y) ≡ false) n xs h.0, take-IsSorted cmp n xs h.1)

map-IsSorted :
    {A B : Type 0} (c : A → A → Ordering) (d : B → B → Ordering) (f : A → B) (xs : List A)
    → ((x y : A) → d (f x) (f y) ≡ c x y)
    → IsSorted c xs
    → IsSorted d (map f xs)
map-IsSorted c d f [] g h = tt
map-IsSorted c d f (x ∷ xs) g h = (
  map-All (λ y. is_gt (c x y) ≡ false) (λ y. is_gt (d (f x) y) ≡ false) f xs (λ y k. rw (g x y) k)
      h.0,
  map-IsSorted c d f xs g h.1,
)

length-map : {A B : Type 0} (f : A → B) (xs : List A) → length (map f xs) ≡ length xs
length-map f [] = refl
length-map f (x ∷ xs) = ap suc (length-map f xs)

pub All-In : {A : Type 0} (xs : List A) → All (λ x. In x xs) xs
All-In [] = tt
All-In (x ∷ xs) =
    (inl refl, All-map (λ y. In y xs) (λ y. In y (x ∷ xs)) (λ y h. inr h) xs (All-In xs))

All-at : {A : Type 0} (P : A → Type 0) (xs : List A) (a : A) → All P xs → In a xs → P a
All-at P [] a h i = elim i [ ]
All-at P (x ∷ xs) a h (inl e) = subst P (sym e) h.0
All-at P (x ∷ xs) a h (inr i) = All-at P xs a h.1 i

module _ {F : Type 0} where
  -- A row and the stored scope that it names.
  abbrev pub IsJoined : Database F → RawMemory F → Type 0
  IsJoined db raw = In raw.scope db.memory_scopes × (raw.scope.id ≡ raw.row.scope_id)

  selected_rows :
      (db : Database F) (ms : List (MemoryRow F))
      → All (λ (r : RawMemory F). In r.row ms × IsJoined db r) (base_memory_select db ms)
  unfolding base_memory_select
  selected_rows db [] = tt
  selected_rows db (m ∷ ms) =
      let rest =
        All-map (λ (r : RawMemory F). In r.row ms × IsJoined db r)
          (λ (r : RawMemory F). In r.row (m ∷ ms) × IsJoined db r) (λ r h. (inr h.0, h.1))
          (base_memory_select db ms) (selected_rows db ms) in
      elim (Option-cases (find_row (λ s. text_eq s.id m.scope_id) db.memory_scopes)) [
        | inl e ↦ rw (e, All, base_memory_select) rest
        | inr (s, e) ↦
            let (i, k) = find_row-In (λ s. text_eq s.id m.scope_id) db.memory_scopes s e in
            rw (e, All, base_memory_select)
              ((inl refl, (i, (text_eq_iff s.id m.scope_id).0 k)), rest)
      ]

module _ (sqlite : Sqlite) {F : Type 0} where
  -- A memory that is read from a row which the filter selects.
  pub record IsFound (db : Database F) (filter : MemorySearchFilter) (memory : Memory F)
      : Type 0 where
    pub raw : RawMemory F
    pub is_stored : In raw.row db.memories
    pub is_joined : IsJoined db raw
    pub is_selected_row : is_selected sqlite db filter raw ≡ true
    pub is_read : hydrate_memory sqlite db raw ≡ memory

  abbrev later_update : Memory F → Memory F → Ordering
  later_update a b = cmp_ℤ b.updated_at_ms a.updated_at_ms

  rows-found :
      (db : Database F) (filter : MemorySearchFilter)
      → All
          (λ (r : RawMemory F).
            (In r.row db.memories × IsJoined db r) × (is_selected sqlite db filter r ≡ true))
          (search_rows sqlite db filter)
  unfolding search_rows
  rows-found db filter = take-All _ filter.limit _ (
      sqlite.order_by-All newest_first _ _ (
        retain-All _ _ (is_selected sqlite db filter) (base_memory_select db db.memories)
          (λ r e i. (i, e)) (selected_rows db db.memories)))

  rows-IsSorted :
      (db : Database F) (filter : MemorySearchFilter)
      → IsSorted newest_first (search_rows sqlite db filter)
  unfolding search_rows
  rows-IsSorted db filter = take-IsSorted newest_first filter.limit _ (
      sqlite.order_by-IsSorted newest_first
        (descending-IsOrder _
          (by_key-IsOrder (λ (r : RawMemory F). r.row.updated_at) cmp_ℤ cmp_ℤ-IsOrder))
        _)

  found-active :
      (db : Database F) (query : Text) (m : MemoryRow F)
      → IsIndexed db
      → In m db.memories
      → is_found sqlite db query m.id ≡ true
      → m.status ≡ active
  unfolding is_found
  found-active db query m indexed i h =
      let (d, j, t) =
        In-any (λ d. text_eq d.memory_id m.id && sqlite.matches (fts_literal_query query) d)
          db.memory_search_documents h in
      let (n, k, s) = In-any (shows d.memory_id) db.memories (
        All-at (λ d. any (shows d.memory_id) db.memories ≡ true) db.memory_search_documents d
          indexed.0 j) in
      let (u, v) = shows-holds d.memory_id n s in
      let e : text_eq d.memory_id m.id ≡ true = ground (arith, t) in
      let same_id = (text_eq_iff n.id d.memory_id).0 u ∙ (text_eq_iff d.memory_id m.id).0 e in
      let one = keyed-same db.memories n m indexed.1 k i ((text_eq_iff n.id m.id).1 same_id) in
      ap (λ x. x.status) (sym one) ∙ same→eq MemoryStatus-discrete n.status active v

  row-active :
      (db : Database F) (filter : MemorySearchFilter) (query : Text) (raw : RawMemory F)
      → IsIndexed db
      → In raw.row db.memories
      → filter.query ≡ some query
      → is_selected sqlite db filter raw ≡ true
      → raw.row.status ≡ active
  unfolding is_selected
  row-active db filter query raw indexed i q h =
      found-active db query raw.row indexed i (ground (arith, (rw q at h)))

  -- A search that succeeds yields at most as many memories as it asks for, a later update first, and
  -- each of them is read from a stored row that passes all its tests.
  pub search-IsFound :
      (db : Database F) (filter : MemorySearchFilter) (ms : List (Memory F))
      → search sqlite db filter ≡ ok ms
      → (length ms ≤ filter.limit) × IsSorted later_update ms × All (IsFound db filter) ms
  unfolding search search_rows hydrate_memory
  search-IsFound db filter ms h =
      let read = ok (map (hydrate_memory sqlite db) (search_rows sqlite db filter)) in
      let checked = reject_if (any is_unreadable (search_rows sqlite db filter)) sql >> read in
      let (_, _, h1) = bind-ok (validate filter) (λ _. checked) ms h in
      let (_, h2) = reject-ok (any is_unreadable (search_rows sqlite db filter)) sql read ms h1 in
      let e = ok-injective h2 in
      subst
        (λ xs. (length xs ≤ filter.limit) × IsSorted later_update xs × All (IsFound db filter) xs) e
        (
          subst (λ n. n ≤ filter.limit)
              (sym (length-map (hydrate_memory sqlite db) (search_rows sqlite db filter)))
              (length-take_le filter.limit _),
          map-IsSorted newest_first later_update (hydrate_memory sqlite db) _ (λ a b. refl)
              (rows-IsSorted db filter),
          map-All _ (IsFound db filter) (hydrate_memory sqlite db) _
              (λ r k. record {
                raw = r;
                is_stored = k.0.0;
                is_joined = k.0.1;
                is_selected_row = k.1;
                is_read = refl;
              })
              (rows-found db filter),
        )

  -- If every search document is of an active memory, and no two memories have the same id, a search by
  -- text that succeeds finds active memories only, even if it asks for another status or the history.
  pub search-active :
      (db : Database F) (filter : MemorySearchFilter) (query : Text) (ms : List (Memory F))
      → IsIndexed db
      → filter.query ≡ some query
      → search sqlite db filter ≡ ok ms
      → All (λ m. m.status ≡ active) ms
  unfolding hydrate_memory
  search-active db filter query ms indexed q h =
      let (_, _, all_found) = search-IsFound db filter ms h in
      All-map (IsFound db filter) (λ m. m.status ≡ active)
        (λ m f.
          ap (λ x. Memory.status x) (sym f.is_read)
          ∙ row-active db filter query f.raw indexed f.is_stored q f.is_selected_row)
        ms all_found
