-- ===== src/Jobs/Attempts.antt =====
-- What crates/mega-store/src/queue_repo.rs keeps true of its rows and their events.
use stalky.Jobs.Rows.{
  IsKeyed, has_id, snoc-IsKeyed, update_where-IsKeyed, In-snoc, In-update_where, any-snoc_false,
  any-update_where,
}
use stalky.Prelude.Text.{Text, text_eq}
use stalky.Prelude.{
  Bool, Option, List, any, false, true, ℕ, ◌≡◌, ◌≤◌, In, if◌then◌else◌, some, ◌&&◌, ◌++◌, ◌∷◌, [],
  none, refl, ◌+◌, arith, subst, sym, inl, ◌∙◌, ap, inr,
}
use stalky.Jobs.{
  JobRow, JobState, MemoryEventType, Tables, MemoryEvent, extraction_started,
  max_extraction_attempts, running, update_where,
}

abbrev pub is_start : MemoryEventType → Bool
is_start extraction_started = true
is_start _ = false

-- Whether an event is a start of the job.
abbrev pub starts : Text → MemoryEvent → Bool
starts id e = is_start e.event_type && text_eq e.correlation_id id

abbrev pub count_starts : Text → List MemoryEvent → ℕ
count_starts id [] = 0
count_starts id (e ∷ es) = (if starts id e then 1 else 0) + count_starts id es

pub count_starts-snoc :
    (id : Text) (es : List MemoryEvent) (e : MemoryEvent)
    → count_starts id (es ++ e ∷ []) ≡ count_starts id es + (if starts id e then 1 else 0)
count_starts-snoc id [] e = omega arith
count_starts-snoc id (x ∷ es) e = omega (arith, count_starts-snoc id es e)

abbrev pub is_some : {A : Type 0} → Option A → Bool
is_some none = false
is_some (some a) = true

-- A lease is there exactly while the job runs.
abbrev pub Fits : JobState → Bool → Bool → ℕ → Type 0
Fits running owner expiry attempts = (owner ≡ true) × (expiry ≡ true) × (1 ≤ attempts)
Fits _ owner expiry attempts = (owner ≡ false) × (expiry ≡ false)

abbrev pub IsRowSound : JobRow → Type 0
IsRowSound r =
    Fits r.state (is_some r.lease_owner) (is_some r.lease_expires_at) r.attempts
    × (r.attempts ≤ max_extraction_attempts)

pub record IsSound (db : Tables) : Type 0 where
  pub keyed : IsKeyed db.jobs
  pub rows_sound : (r : JobRow) → In r db.jobs → IsRowSound r
  pub counted : (r : JobRow) → In r db.jobs → count_starts r.id db.events ≡ r.attempts
  pub no_stray : (id : Text) → any (has_id id) db.jobs ≡ false → count_starts id db.events ≡ 0

pub choose :
    {A : Type 0} (P : A → Type 0) (b : Bool) (x y : A)
    → (b ≡ true → P x)
    → (b ≡ false → P y)
    → P (if b then x else y)
choose P true x y f g = f refl
choose P false x y f g = g refl

-- An update that starts no job.
pub update-IsSound :
    (p : JobRow → Bool) (f : JobRow → JobRow) (db db' : Tables)
    → ((r : JobRow) → (f r).id ≡ r.id)
    → ((r : JobRow) → (f r).attempts ≡ r.attempts)
    → ((r : JobRow) → In r db.jobs → p r ≡ true → IsRowSound r → IsRowSound (f r))
    → db'.jobs ≡ update_where p f db.jobs
    → ((id : Text) → count_starts id db'.events ≡ count_starts id db.events)
    → IsSound db
    → IsSound db'
update-IsSound p f db db' ids atts sound j e k = record {
  keyed = subst IsKeyed (sym j) (update_where-IsKeyed p f db.jobs ids k.keyed);
  rows_sound = λ q i.
      let (r, m, w) = In-update_where p f db.jobs q (subst (In q) j i) in
      subst IsRowSound (sym w) (
        choose IsRowSound (p r) (f r) r (λ t. sound r m t (k.rows_sound r m))
          (λ t. k.rows_sound r m));
  counted = λ q i.
      let (r, m, w) = In-update_where p f db.jobs q (subst (In q) j i) in
      e q.id
      ∙ subst (λ x. count_starts (JobRow.id x) db.events ≡ JobRow.attempts x) (sym w)
          (choose (λ x. count_starts (JobRow.id x) db.events ≡ JobRow.attempts x) (p r) (f r) r
            (λ t. ap (λ id. count_starts id db.events) (ids r) ∙ k.counted r m ∙ sym (atts r))
            (λ t. k.counted r m));
  no_stray = λ id h.
      e id
      ∙ k.no_stray id
          (sym (any-update_where p f id db.jobs ids) ∙ ap (any (has_id id)) (sym j) ∙ h);
}

-- A new row with its own id.
pub insert-IsSound :
    (x : JobRow) (db db' : Tables)
    → any (has_id x.id) db.jobs ≡ false
    → x.attempts ≡ 0
    → IsRowSound x
    → db'.jobs ≡ db.jobs ++ x ∷ []
    → ((id : Text) → count_starts id db'.events ≡ count_starts id db.events)
    → IsSound db
    → IsSound db'
insert-IsSound x db db' fresh zero_attempts sound j e k = record {
  keyed = subst IsKeyed (sym j) (snoc-IsKeyed db.jobs x fresh k.keyed);
  rows_sound = λ q i. elim (In-snoc db.jobs x q (subst (In q) j i)) [
    | inl m ↦ k.rows_sound q m
    | inr w ↦ subst IsRowSound (sym w) sound
  ];
  counted = λ q i. e q.id ∙ elim (In-snoc db.jobs x q (subst (In q) j i)) [
    | inl m ↦ k.counted q m
    | inr w ↦
        subst (λ y. count_starts (JobRow.id y) db.events ≡ JobRow.attempts y) (sym w)
          (k.no_stray x.id fresh ∙ sym zero_attempts)
  ];
  no_stray = λ id h.
      e id
      ∙ k.no_stray id (any-snoc_false (has_id id) db.jobs x (ap (any (has_id id)) (sym j) ∙ h));
}
