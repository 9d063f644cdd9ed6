-- ===== src/Store/Index.antt =====
-- The search documents of crates/mega-store/src/memory_repo.rs and the memories that they are of.
use stalky.Prelude.Text.{Text, text_eq, text_eq_iff, text_eq_refl}
use stalky.Prelude.{
  All, All-map, Bool, Bool-cases, List, Option-cases, any, any-In, ap, arith, false, if◌then◌else◌,
  inl, inr, not, refl, retain, sym, true, ◌&&◌, ◌++◌, ◌∙◌, ◌∷◌, ◌≡◌, [],
}
use stalky.Jobs.{find_row, update_where}
use stalky.Jobs.Rows.{find_row-In}
use stalky.Store.{Database, MemoryRow, has_id, is_active, upsert}
use stalky.Store.Inserts.{document_of, refresh_search_document}
use stalky.Store.Plans.{remove_document}
use stalky.Store.Keys.{IsKeyed, append-IsKeyed, retain-IsKeyed, update_where-IsKeyed}

any-update :
    {A : Type 0} (p q : A → Bool) (f : A → A) (xs : List A)
    → ((x : A) → p x ≡ true → p (if q x then f x else x) ≡ true)
    → any p xs ≡ true
    → any p (update_where q f xs) ≡ true
any-update p q f [] k h = cc
any-update p q f (x ∷ xs) k h = elim (Bool-cases (p x)) [
  | inl e ↦ rw (k x e) refl
  | inr e ↦ elim (Bool-cases (p (if q x then f x else x))) [
    | inl t ↦ rw t refl
    | inr t ↦ rw t (any-update p q f xs k (rw e at h))
  ]
]

any-append :
    {A : Type 0} (p : A → Bool) (xs ys : List A) → any p xs ≡ true → any p (xs ++ ys) ≡ true
any-append p [] ys h = cc
any-append p (x ∷ xs) ys h = elim (Bool-cases (p x)) [
  | inl e ↦ rw e refl
  | inr e ↦ rw e (any-append p xs ys (rw e at h))
]

any-retained :
    {A : Type 0} (p q : A → Bool) (xs : List A)
    → ((x : A) → p x ≡ true → q x ≡ true)
    → any p xs ≡ true
    → any p (retain q xs) ≡ true
any-retained p q [] k h = cc
any-retained p q (x ∷ xs) k h = elim (Bool-cases (p x)) [
  | inl e ↦ rw (k x e, e) refl
  | inr e ↦
      let r = any-retained p q xs k (rw e at h) in
      elim (Bool-cases (q x)) [ inl f ↦ rw (f, e) r | inr f ↦ rw f r ]
]

-- What an upsert of one row keeps.
upsert-All :
    {A : Type 0} (P : A → Type 0) (c : A → Bool) (x : A) (xs : List A)
    → P x
    → All P xs
    → All P (upsert c (λ _. x) x xs)
upsert-All P c x [] p h = (p, tt)
upsert-All P c x (y ∷ ys) p h = elim (Bool-cases (c y)) [
  | inl e ↦ rw e (p, h.1)
  | inr e ↦ rw e (h.0, upsert-All P c x ys p h.1)
]

-- The rows that are left when those with an id are removed.
pub retain-All :
    {A : Type 0} (P Q : A → Type 0) (q : A → Bool) (xs : List A)
    → ((x : A) → q x ≡ true → P x → Q x)
    → All P xs
    → All Q (retain q xs)
retain-All P Q q [] f h = tt
retain-All P Q q (x ∷ xs) f h = elim (Bool-cases (q x)) [
  | inl e ↦ rw e (f x e h.0, retain-All P Q q xs f h.1)
  | inr e ↦ rw e (retain-All P Q q xs f h.1)
]

module _ {F : Type 0} where
  -- An active memory with an id.
  abbrev pub shows : Text → MemoryRow F → Bool
  shows id m = has_id id m && is_active m.status

  pub shows-holds :
      (id : Text) (m : MemoryRow F)
      → shows id m ≡ true
      → (has_id id m ≡ true) × (is_active m.status ≡ true)
  shows-holds id m h = ground arith

  holds-shows :
      (id : Text) (m : MemoryRow F)
      → has_id id m ≡ true
      → is_active m.status ≡ true
      → shows id m ≡ true
  holds-shows id m h k = rw (h, k) refl

  -- A memory with an id has no other.
  shows-other :
      (id other : Text) (m : MemoryRow F)
      → shows other m ≡ true
      → not (text_eq other id) ≡ true
      → has_id id m ≡ false
  shows-other id other m h k = elim (Bool-cases (has_id id m)) [
    | inr e ↦ e
    | inl e ↦
        let p = (text_eq_iff m.id id).0 e in
        let q = (text_eq_iff m.id other).0 (shows-holds other m h).0 in
        let r = (text_eq_iff other id).1 (sym q ∙ p) in absurd (cc (rw r at k))
  ]

  -- Every search document is of an active memory, and no two memories have the same id.
  abbrev pub IsIndexed : Database F → Type 0
  IsIndexed db =
      All (λ d. any (shows d.memory_id) db.memories ≡ true) db.memory_search_documents
      × IsKeyed db.memories

  pub kept-IsIndexed :
      (a b : Database F)
      → b.memory_search_documents ≡ a.memory_search_documents
      → ((id : Text) → any (shows id) a.memories ≡ true → any (shows id) b.memories ≡ true)
      → (IsKeyed a.memories → IsKeyed b.memories)
      → IsIndexed a
      → IsIndexed b
  kept-IsIndexed a b e k l h = (
    rw e (
        All-map (λ d. any (shows d.memory_id) a.memories ≡ true)
          (λ d. any (shows d.memory_id) b.memories ≡ true) (λ d. k d.memory_id)
          a.memory_search_documents h.0),
    l h.1,
  )

  pub added-IsIndexed :
      (a b : Database F) (row : MemoryRow F)
      → b.memories ≡ a.memories ++ row ∷ []
      → any (has_id row.id) a.memories ≡ false
      → b.memory_search_documents ≡ a.memory_search_documents
      → IsIndexed a
      → IsIndexed b
  added-IsIndexed a b row e n f h =
      kept-IsIndexed a b f (λ id k. rw e (any-append (shows id) a.memories (row ∷ []) k))
        (λ k. rw e (append-IsKeyed a.memories row n k)) h

  -- An update that leaves ids and lets what is active be.
  pub updated-IsIndexed :
      (a : Database F) (p : MemoryRow F → Bool) (f : MemoryRow F → MemoryRow F)
      → ((m : MemoryRow F) → (f m).id ≡ m.id)
      → ((m : MemoryRow F) → is_active m.status ≡ true → is_active (f m).status ≡ true)
      → IsIndexed a
      → IsIndexed (record a { memories = update_where p f a.memories })
  updated-IsIndexed a p f i s h = (
    All-map _ _
        (λ d. any-update (shows d.memory_id) p f a.memories (λ m e. elim (Bool-cases (p m)) [
          | inr c ↦ rw c e
          | inl c ↦
              let (j, t) = shows-holds d.memory_id m e in
              rw c (
                holds-shows d.memory_id (f m) (rw (ap (λ x. text_eq x d.memory_id) (i m)) j)
                  (s m t))
        ]))
        a.memory_search_documents h.0,
    update_where-IsKeyed p f a.memories i h.1,
  )

  -- A memory that is hidden together with its document.
  pub hidden-IsIndexed :
      (a : Database F) (p : MemoryRow F → Bool) (f : MemoryRow F → MemoryRow F) (id : Text)
      → ((m : MemoryRow F) → p m ≡ true → has_id id m ≡ true)
      → ((m : MemoryRow F) → (f m).id ≡ m.id)
      → IsIndexed a
      → IsIndexed (remove_document (record a { memories = update_where p f a.memories }) id)
  unfolding remove_document
  hidden-IsIndexed a p f id k i h = (
    retain-All _ _ (λ d. not (text_eq d.memory_id id)) a.memory_search_documents
        (λ d e. any-update (shows d.memory_id) p f a.memories (λ m t. elim (Bool-cases (p m)) [
          | inr c ↦ rw c t
          | inl c ↦ let q = k m c in let r = shows-other id d.memory_id m t e in absurd (cc)
        ]))
        h.0,
    update_where-IsKeyed p f a.memories i h.1,
  )

  -- A memory that is deleted together with its document.
  pub deleted-IsIndexed :
      (a : Database F) (id : Text)
      → IsIndexed a
      → IsIndexed
          (remove_document (record a { memories = retain (λ m. not (has_id id m)) a.memories }) id)
  unfolding remove_document
  deleted-IsIndexed a id h = (
    retain-All _ _ (λ d. not (text_eq d.memory_id id)) a.memory_search_documents
        (λ d e.
          any-retained (shows d.memory_id) (λ m. not (has_id id m)) a.memories
            (λ m t. rw (shows-other id d.memory_id m t e) refl))
        h.0,
    retain-IsKeyed (λ m. not (has_id id m)) a.memories h.1,
  )

  pub refresh_search_document-IsIndexed :
      (db : Database F) (id : Text) → IsIndexed db → IsIndexed (refresh_search_document db id)
  unfolding refresh_search_document document_of
  refresh_search_document-IsIndexed db id h =
      elim (Option-cases (find_row (shows id) db.memories)) [
        | inl e ↦ rw (e, refresh_search_document) h
        | inr (m, e) ↦
            let (i, t) = find_row-In (shows id) db.memories m e in
            rw (e, refresh_search_document)
              (
                upsert-All (λ d. any (shows d.memory_id) db.memories ≡ true) _ (document_of db m)
                    db.memory_search_documents
                    (any-In (shows m.id) db.memories m i
                      (holds-shows m.id m (text_eq_refl m.id) (shows-holds id m t).1))
                    h.0,
                h.1,
              )
      ]
