-- ===== src/Store/Keys.antt =====
-- The ids of memories in crates/mega-store/src/memory_repo.rs, which the schema keeps unique.
use stalky.Prelude.Text.{Text, text_eq, text_eq_comm, text_eq_iff}
use stalky.Prelude.{
  Bool, Bool-cases, In, List, any, any-In, ap, arith, false, inl, inr, refl, retain, sym, true,
  ◌++◌, ◌∙◌, ◌∷◌, ◌≡◌, [],
}
use stalky.Jobs.{update_where}
use stalky.Store.{MemoryRow, has_id}

pub any-retain-false :
    {A : Type 0} (p q : A → Bool) (xs : List A) → any p xs ≡ false → any p (retain q xs) ≡ false
any-retain-false p q [] h = refl
any-retain-false p q (x ∷ xs) h = elim (Bool-cases (q x)) [
  | inl f ↦ rw f (let k = any-retain-false p q xs (ground (arith, h)) in ground (arith, h, k))
  | inr f ↦ rw f (any-retain-false p q xs (ground (arith, h)))
]

module _ {F : Type 0} where
  -- No two memories have the same id.
  abbrev pub IsKeyed : List (MemoryRow F) → Type 0
  IsKeyed [] = Unit
  IsKeyed (m ∷ ms) = (any (has_id m.id) ms ≡ false) × IsKeyed ms

  any-update_where :
      (id : Text) (p : MemoryRow F → Bool) (f : MemoryRow F → MemoryRow F) (ms : List (MemoryRow F))
      → ((m : MemoryRow F) → (f m).id ≡ m.id)
      → any (has_id id) (update_where p f ms) ≡ any (has_id id) ms
  any-update_where id p f [] k = refl
  any-update_where id p f (m ∷ ms) k = elim (Bool-cases (p m)) [
    | inl e ↦ rw (e, k m, any-update_where id p f ms k) refl
    | inr e ↦ rw (e, any-update_where id p f ms k) refl
  ]

  pub update_where-IsKeyed :
      (p : MemoryRow F → Bool) (f : MemoryRow F → MemoryRow F) (ms : List (MemoryRow F))
      → ((m : MemoryRow F) → (f m).id ≡ m.id)
      → IsKeyed ms
      → IsKeyed (update_where p f ms)
  update_where-IsKeyed p f [] k h = tt
  update_where-IsKeyed p f (m ∷ ms) k h =
      let rest = update_where-IsKeyed p f ms k h.1 in
      elim (Bool-cases (p m)) [
        | inl e ↦ rw e (rw (k m, any-update_where m.id p f ms k) h.0, rest)
        | inr e ↦ rw e (rw (any-update_where m.id p f ms k) h.0, rest)
      ]

  pub append-IsKeyed :
      (ms : List (MemoryRow F)) (row : MemoryRow F)
      → any (has_id row.id) ms ≡ false
      → IsKeyed ms
      → IsKeyed (ms ++ row ∷ [])
  append-IsKeyed [] row h k = (refl, tt)
  append-IsKeyed (m ∷ ms) row h k = (
    other ms m (ground (arith, h, text_eq_comm m.id row.id)) k.0,
    append-IsKeyed ms row (ground (arith, h)) k.1,
  )
    where
      other :
          (xs : List (MemoryRow F)) (x : MemoryRow F)
          → text_eq row.id x.id ≡ false
          → any (has_id x.id) xs ≡ false
          → any (has_id x.id) (xs ++ row ∷ []) ≡ false
      other [] x e h = rw e refl
      other (y ∷ ys) x e h = let r = other ys x e (ground (arith, h)) in ground (arith, h, r)

  pub retain-IsKeyed :
      (q : MemoryRow F → Bool) (ms : List (MemoryRow F)) → IsKeyed ms → IsKeyed (retain q ms)
  retain-IsKeyed q [] h = tt
  retain-IsKeyed q (m ∷ ms) h = elim (Bool-cases (q m)) [
    | inl e ↦ rw e (any-retain-false (has_id m.id) q ms h.0, retain-IsKeyed q ms h.1)
    | inr e ↦ rw e (retain-IsKeyed q ms h.1)
  ]

  no_other :
      (m : MemoryRow F) (ms : List (MemoryRow F)) (a : MemoryRow F)
      → any (has_id m.id) ms ≡ false
      → In a ms
      → m.id ≡ a.id
      → ⊥
  no_other m ms a h i e =
      let t = any-In (has_id m.id) ms a i ((text_eq_iff a.id m.id).1 (sym e)) in cc

  -- Of two rows with the same id there is one.
  pub keyed-same :
      (ms : List (MemoryRow F)) (a b : MemoryRow F)
      → IsKeyed ms
      → In a ms
      → In b ms
      → has_id b.id a ≡ true
      → a ≡ b
  keyed-same [] a b k i j e = elim i [ ]
  keyed-same (m ∷ ms) a b k (inl i) (inl j) e = i ∙ sym j
  keyed-same (m ∷ ms) a b k (inr i) (inr j) e = keyed-same ms a b k.1 i j e
  keyed-same (m ∷ ms) a b k (inl i) (inr j) e =
      absurd (no_other m ms b k.0 j (ap (λ x. x.id) (sym i) ∙ (text_eq_iff a.id b.id).0 e))
  keyed-same (m ∷ ms) a b k (inr i) (inl j) e =
      absurd (no_other m ms a k.0 i (ap (λ x. x.id) (sym j) ∙ sym ((text_eq_iff a.id b.id).0 e)))
