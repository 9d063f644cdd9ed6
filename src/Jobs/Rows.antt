-- ===== src/Jobs/Rows.antt =====
-- Rows before and after an update of a table of crates/mega-store/src/queue_repo.rs.
use stalky.Prelude.Text.{Text, text_eq, text_eq_comm}
use stalky.Prelude.{
  Bool, List, In, any, ◌∷◌, ◌≡◌, false, if◌then◌else◌, some, true, ◌++◌, Bool-cases, [], ap, arith,
  inl, inr, refl, ◌||◌, ◌∙◌, ◌⊎◌, sym, any-In,
}
use stalky.Jobs.{JobRow, find_row, update_where}

-- Where a row of an updated table comes from.
pub In-update_where :
    {A : Type 0} (p : A → Bool) (f : A → A) (rs : List A) (q : A)
    → In q (update_where p f rs)
    → (r : A) × In r rs × (q ≡ (if p r then f r else r))
In-update_where p f [] q h = elim h [ ]
In-update_where p f (r ∷ rs) q (inl e) = (r, inl refl, e)
In-update_where p f (r ∷ rs) q (inr h) = let (s, i, e) = In-update_where p f rs q h in (s, inr i, e)

pub update_where-In :
    {A : Type 0} (p : A → Bool) (f : A → A) (rs : List A) (r : A)
    → In r rs
    → In (if p r then f r else r) (update_where p f rs)
update_where-In p f [] r h = elim h [ ]
update_where-In p f (q ∷ rs) r (inl e) = inl (rw e refl)
update_where-In p f (q ∷ rs) r (inr h) = inr (update_where-In p f rs r h)

pub find_row-In :
    {A : Type 0} (p : A → Bool) (rs : List A) (r : A)
    → find_row p rs ≡ some r
    → In r rs × (p r ≡ true)
find_row-In p [] r h = cc
find_row-In p (q ∷ rs) r h = elim (Bool-cases (p q)) [
  | inl k ↦ let e = rw k at h in (inl (cc), cc)
  | inr k ↦ let (i, t) = find_row-In p rs r (rw k at h) in (inr i, t)
]

pub In-snoc : {A : Type 0} (rs : List A) (x q : A) → In q (rs ++ x ∷ []) → In q rs ⊎ (q ≡ x)
In-snoc [] x q (inl e) = inr e
In-snoc [] x q (inr h) = elim h [ ]
In-snoc (r ∷ rs) x q (inl e) = inl (inl e)
In-snoc (r ∷ rs) x q (inr h) = elim (In-snoc rs x q h) [ inl i ↦ inl (inr i) | inr e ↦ inr e ]

pub snoc-In : {A : Type 0} (rs : List A) (x q : A) → In q rs → In q (rs ++ x ∷ [])
snoc-In [] x q h = elim h [ ]
snoc-In (r ∷ rs) x q (inl e) = inl e
snoc-In (r ∷ rs) x q (inr h) = inr (snoc-In rs x q h)

-- Whether a job has an id.
abbrev pub has_id : Text → JobRow → Bool
has_id id r = text_eq r.id id

-- The primary key: no two rows have the same id.
abbrev pub IsKeyed : List JobRow → Type 0
IsKeyed [] = Unit
IsKeyed (r ∷ rs) = (any (has_id r.id) rs ≡ false) × IsKeyed rs

pub any-update_where :
    (p : JobRow → Bool) (f : JobRow → JobRow) (id : Text) (rs : List JobRow)
    → ((r : JobRow) → (f r).id ≡ r.id)
    → any (has_id id) (update_where p f rs) ≡ any (has_id id) rs
any-update_where p f id [] k = refl
any-update_where p f id (r ∷ rs) k = ground (arith, k r, any-update_where p f id rs k)

update_where-id :
    (p : JobRow → Bool) (f : JobRow → JobRow) (r : JobRow)
    → ((r : JobRow) → (f r).id ≡ r.id)
    → (if p r then f r else r).id ≡ r.id
update_where-id p f r k = ground (arith, k r)

pub update_where-IsKeyed :
    (p : JobRow → Bool) (f : JobRow → JobRow) (rs : List JobRow)
    → ((r : JobRow) → (f r).id ≡ r.id)
    → IsKeyed rs
    → IsKeyed (update_where p f rs)
update_where-IsKeyed p f [] k h = tt
update_where-IsKeyed p f (r ∷ rs) k (h, u) = (
  ap (λ id. any (has_id id) (update_where p f rs)) (update_where-id p f r k)
      ∙ any-update_where p f r.id rs k
      ∙ h,
  update_where-IsKeyed p f rs k u,
)

any-snoc :
    {A : Type 0} (p : A → Bool) (rs : List A) (x : A) → any p (rs ++ x ∷ []) ≡ (any p rs || p x)
any-snoc p [] x = ground arith
any-snoc p (r ∷ rs) x = ground (arith, any-snoc p rs x)

pub snoc-IsKeyed :
    (rs : List JobRow) (x : JobRow)
    → any (has_id x.id) rs ≡ false
    → IsKeyed rs
    → IsKeyed (rs ++ x ∷ [])
snoc-IsKeyed [] x h u = (refl, tt)
snoc-IsKeyed (r ∷ rs) x h (k, u) = (
  ground (arith, any-snoc (has_id r.id) rs x, k, text_eq_comm r.id x.id),
  snoc-IsKeyed rs x (ground arith) u,
)

key_taken :
    (rs : List JobRow) (x r : JobRow)
    → any (has_id x.id) rs ≡ false
    → In r rs
    → text_eq r.id x.id ≡ true
    → ⊥
key_taken rs x r h k t = let e = sym h ∙ any-In (has_id x.id) rs r k t in cc

-- A row is determined by its id.
pub same_id :
    (rs : List JobRow) (q r : JobRow)
    → IsKeyed rs
    → In q rs
    → In r rs
    → text_eq q.id r.id ≡ true
    → q ≡ r
same_id [] q r u i k t = elim i [ ]
same_id (x ∷ rs) q r (h, u) (inl e) (inl k) t = e ∙ sym k
same_id (x ∷ rs) q r (h, u) (inl e) (inr k) t =
    elim (key_taken rs x r h k
      (text_eq_comm r.id x.id ∙ ap (λ y. text_eq (JobRow.id y) r.id) (sym e) ∙ t)) [ ]
same_id (x ∷ rs) q r (h, u) (inr i) (inl k) t =
    elim (key_taken rs x q h i (ap (λ y. text_eq q.id (JobRow.id y)) (sym k) ∙ t)) [ ]
same_id (x ∷ rs) q r (h, u) (inr i) (inr k) t = same_id rs q r u i k t

pub any-snoc_false :
    {A : Type 0} (p : A → Bool) (rs : List A) (x : A)
    → any p (rs ++ x ∷ []) ≡ false
    → any p rs ≡ false
any-snoc_false p rs x h = ground (arith, any-snoc p rs x)
