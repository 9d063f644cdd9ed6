-- ===== src/Jobs/Starts.antt =====
-- Every call of crates/mega-store/src/queue_repo.rs keeps the tables sound, so no job is started more
-- than three times.
use stalky.Jobs.Rows.{
  has_id, IsKeyed, update_where-IsKeyed, In-update_where, same_id, any-update_where,
}
use stalky.Prelude.{length, sym, ok-injective, ap, ◌∙◌, any, any-In, refl}
use stalky.Jobs.Attempts.{count_starts, is_start, IsSound, IsRowSound, choose, count_starts-snoc}
use stalky.Prelude.{
  List, In, Option, ◌≡◌, ok, some, true, ◌+◌, ◌∷◌, Bool-cases, if◌then◌else◌, ◌≤◌, inl,
  Option-cases, arith, ◌&&◌, inr, subst, ◌||◌, [], ltb,
}
use stalky.Prelude.Text.{Text, text_eq, is_blank, text_eq_comm}
use stalky.Prelude.Int.{ℤ}
use stalky.Jobs.Claim.{is_claimable, next_job, lease, comes_before}
use stalky.Jobs.{
  Tables, record_event_tx, JobRow, MemoryEventType, update_where, max_extraction_attempts,
}

-- What `record_event_tx` commits.
pub record_event-jobs :
    (db db' : Tables) (t : MemoryEventType) (c : Text) (s o : Option Text) (now : ℤ)
    → record_event_tx db t c s o now ≡ ok db'
    → (db'.jobs ≡ db.jobs)
      × ((id : Text)
          → count_starts id db'.events
            ≡ count_starts id db.events + (if is_start t && text_eq c id then 1 else 0))
unfolding record_event_tx
record_event-jobs db db' t c s o now h = elim (Bool-cases (is_blank c || ltb 128 (length c))) [
  | inl k ↦ let h' = rw k at h in cc
  | inr k ↦
      let e = ok-injective (rw k at h) in
      (
        ap (λ d. Tables.jobs d) (sym e),
        λ id.
            ap (λ d. count_starts id (Tables.events d)) (sym e) ∙ count_starts-snoc id db.events _,
      )
]

pub next_job-In :
    (now : ℤ) (rs : List JobRow) (r : JobRow)
    → next_job now rs ≡ some r
    → In r rs × (is_claimable now r ≡ true)
unfolding next_job
next_job-In now [] r h = cc
next_job-In now (x ∷ rs) r h = elim (Bool-cases (is_claimable now x)) [
  | inl k ↦ elim (Option-cases (next_job now rs)) [
    | inl n ↦ let e = rw (k, n) at h in (inl (cc), cc)
    | inr (best, n) ↦ elim (Bool-cases (comes_before best x)) [
      | inl b ↦
          let e = rw (k, n, b) at h in
          let (i, c) = next_job-In now rs best n in (inr (subst (λ y. In y rs) (cc) i), cc)
      | inr b ↦ let e = rw (k, n, b) at h in (inl (cc), cc)
    ]
  ]
  | inr k ↦ let (i, c) = next_job-In now rs r (rw k at h) in (inr i, c)
]

is_claimable-attempts :
    (now : ℤ) (r : JobRow) → is_claimable now r ≡ true → r.attempts + 1 ≤ max_extraction_attempts
unfolding is_claimable
is_claimable-attempts now r h = ground arith

pub lease-IsSound :
    (db db' : Tables) (worker : Text) (expires now : ℤ) (r : JobRow)
    → In r db.jobs
    → is_claimable now r ≡ true
    → db'.jobs ≡ update_where (has_id r.id) (lease worker expires now) db.jobs
    → ((id : Text)
        → count_starts id db'.events
          ≡ count_starts id db.events + (if text_eq r.id id then 1 else 0))
    → IsSound db
    → IsSound db'
lease-IsSound db db' worker expires now r m c j e k = record {
  keyed = subst IsKeyed (sym j) (update_where-IsKeyed (has_id r.id) f db.jobs (λ q. refl) k.keyed);
  rows_sound = λ q i.
      let (x, n, w) = In-update_where (has_id r.id) f db.jobs q (subst (In q) j i) in
      subst IsRowSound (sym w) (
        choose IsRowSound (has_id r.id x) (f x) x
          (λ t.
            let y = same_id db.jobs x r k.keyed n m t in
            (
              (refl, refl, omega arith),
              subst (λ z. JobRow.attempts z + 1 ≤ max_extraction_attempts) (sym y)
                  (is_claimable-attempts now r c),
            ))
          (λ t. k.rows_sound x n));
  counted = λ q i.
      let (x, n, w) = In-update_where (has_id r.id) f db.jobs q (subst (In q) j i) in
      subst (λ y. count_starts (JobRow.id y) db'.events ≡ JobRow.attempts y) (sym w)
        (choose (λ y. count_starts (JobRow.id y) db'.events ≡ JobRow.attempts y) (has_id r.id x)
          (f x) x
          (λ t.
            e x.id
            ∙ ap (λ b. count_starts x.id db.events + (if b then 1 else 0))
                (text_eq_comm r.id x.id ∙ t)
            ∙ ap (λ n. n + 1) (k.counted x n))
          (λ t.
            e x.id
            ∙ ap (λ b. count_starts x.id db.events + (if b then 1 else 0))
                (text_eq_comm r.id x.id ∙ t)
            ∙ omega (arith, k.counted x n)));
  no_stray = λ id h.
      let g =
        sym (any-update_where (has_id r.id) f id db.jobs (λ q. refl))
        ∙ ap (any (has_id id)) (sym j)
        ∙ h in
      e id ∙ elim (Bool-cases (text_eq r.id id)) [
        | inl t ↦ let x = sym g ∙ any-In (has_id id) db.jobs r m t in cc
        | inr t ↦ rw t (omega (arith, k.no_stray id g))
      ];
}
  where
    f : JobRow → JobRow
    f = lease worker expires now
