-- ===== src/Store/Effects.antt =====
-- What the writes of crates/mega-store/src/memory_repo.rs leave alone.
use stalky.Prelude.Text.{Text, text_eq}
use stalky.Prelude.{
  Bool-cases, subst, Bool, List, Option-cases, Result, arith, bind-ok, false, inl, inr, ok,
  ok-injective, refl, reject_if, true, ◌>>◌, ◌∙◌, ◌∷◌, ◌≡◌, [],
}
use stalky.Candidate.{CandidateEntity}
use stalky.Jobs.{find_row}
use stalky.Store.{AppRole, CategoryRow, Database, SupportKind, supporting}
use stalky.Model.{EntityRole}
use stalky.Extraction.{normalize_content}
use stalky.Store.Plans.{support}
use stalky.Store.Writes.{
  has_source_link, add_app_link, add_source_link, assign_categories, effective_slugs, link_apps,
  link_categories, link_category, link_entity, link_sources, mentioned_ids, resolve_entities,
}

-- A guard that lets through.
pub reject-ok :
    {A E : Type 0} (t : Bool) (e : E) (m : Result A E) (a : A)
    → (reject_if t e >> m) ≡ ok a
    → (t ≡ false) × (m ≡ ok a)
reject-ok true e m a h = cc
reject-ok false e m a h = (refl, h)

module _ {F : Type 0} where
  -- The tables that no link of a memory touches.
  pub record Keeps (db db' : Database F) : Type 0 where
    pub memories_kept : db'.memories ≡ db.memories
    pub documents_kept : db'.memory_search_documents ≡ db.memory_search_documents
    pub sources_kept : db'.source_events ≡ db.source_events
    pub apps_kept : db'.apps ≡ db.apps
    pub categories_kept : db'.categories ≡ db.categories
    pub candidates_kept : db'.extraction_candidates ≡ db.extraction_candidates

  pub Keeps-refl : (db : Database F) → Keeps db db
  Keeps-refl db = record {
    memories_kept = refl;
    documents_kept = refl;
    sources_kept = refl;
    apps_kept = refl;
    categories_kept = refl;
    candidates_kept = refl;
  }

  pub Keeps-trans : (a b c : Database F) → Keeps a b → Keeps b c → Keeps a c
  Keeps-trans a b c k l = record {
    memories_kept = l.memories_kept ∙ k.memories_kept;
    documents_kept = l.documents_kept ∙ k.documents_kept;
    sources_kept = l.sources_kept ∙ k.sources_kept;
    apps_kept = l.apps_kept ∙ k.apps_kept;
    categories_kept = l.categories_kept ∙ k.categories_kept;
    candidates_kept = l.candidates_kept ∙ k.candidates_kept;
  }

  link_category-Keeps : (db : Database F) (m c : Text) → Keeps db (link_category db m c)
  unfolding link_category
  link_category-Keeps db m c = ground arith

  link_categories-Keeps :
      (slugs : List Text) (db : Database F) (m : Text) (db' : Database F)
      → link_categories db m slugs ≡ ok db'
      → Keeps db db'
  unfolding link_categories
  link_categories-Keeps [] db m db' h = subst (Keeps db) (ok-injective h) (Keeps-refl db)
  link_categories-Keeps (slug ∷ slugs) db m db' h =
      elim (Option-cases (find_row (λ (c : CategoryRow). text_eq c.slug slug) db.categories)) [
        | inl e ↦ absurd (cc (rw (e, link_categories) at h))
        | inr (c, e) ↦
            Keeps-trans db _ db' (link_category-Keeps db m c.id)
              (link_categories-Keeps slugs _ m db' (rw (e, link_categories) at h))
      ]

  pub assign_categories-Keeps :
      (slugs : List Text) (db : Database F) (m : Text) (db' : Database F)
      → assign_categories db m slugs ≡ ok db'
      → Keeps db db'
  unfolding assign_categories
  assign_categories-Keeps slugs db m db' h =
      link_categories-Keeps (effective_slugs slugs) db m db' h

  pub link_apps-Keeps :
      (ids : List Text) (db : Database F) (m : Text) (role : AppRole) (db' : Database F)
      → link_apps db m role ids ≡ ok db'
      → Keeps db db'
  unfolding link_apps
  link_apps-Keeps [] db m role db' h = subst (Keeps db) (ok-injective h) (Keeps-refl db)
  link_apps-Keeps (id ∷ ids) db m role db' h =
      ground (arith, h, link_apps-Keeps ids (add_app_link db m role id) m role db')

  pub link_sources-Keeps :
      (ids : List Text) (db : Database F) (m : Text) (kind : SupportKind) (db' : Database F)
      → link_sources db m kind ids ≡ ok db'
      → Keeps db db'
  unfolding link_sources
  link_sources-Keeps [] db m kind db' h = subst (Keeps db) (ok-injective h) (Keeps-refl db)
  link_sources-Keeps (id ∷ ids) db m kind db' h =
      ground (arith, h, link_sources-Keeps ids (add_source_link db m kind id) m supporting db')

  pub support-Keeps :
      (ids : List Text) (db : Database F) (m : Text) (db' : Database F)
      → support db m ids ≡ ok db'
      → Keeps db db'
  unfolding support
  support-Keeps [] db m db' h = subst (Keeps db) (ok-injective h) (Keeps-refl db)
  support-Keeps (id ∷ ids) db m db' h = elim (Bool-cases (has_source_link db m id)) [
    | inl e ↦ support-Keeps ids db m db' (rw e at h)
    | inr e ↦
        let (_, k) = reject-ok _ _ _ _ (rw e at h) in
        let s = support-Keeps ids (add_source_link db m supporting id) m db' k in
        record {
          memories_kept = s.memories_kept;
          documents_kept = s.documents_kept;
          sources_kept = s.sources_kept;
          apps_kept = s.apps_kept;
          categories_kept = s.categories_kept;
          candidates_kept = s.candidates_kept;
        }
  ]

  link_entity-Keeps :
      (ids : List Text) (db : Database F) (m : Text) (role : EntityRole) (db' : Database F)
      → link_entity db m role ids ≡ ok db'
      → Keeps db db'
  unfolding link_entity
  link_entity-Keeps [] db m role db' h = subst (Keeps db) (ok-injective h) (Keeps-refl db)
  link_entity-Keeps (id ∷ []) db m role db' h = ground (arith, h)
  link_entity-Keeps (id ∷ i ∷ ids) db m role db' h =
      subst (Keeps db) (ok-injective h) (Keeps-refl db)

  pub resolve_entities-Keeps :
      (to_lowercase : Text → Text) (es : List (CandidateEntity F)) (db : Database F) (m : Text)
      (db' : Database F)
      → resolve_entities to_lowercase db m es ≡ ok db'
      → Keeps db db'
  unfolding resolve_entities
  resolve_entities-Keeps to_lowercase [] db m db' h =
      subst (Keeps db) (ok-injective h) (Keeps-refl db)
  resolve_entities-Keeps to_lowercase (e ∷ es) db m db' h =
      let ids = mentioned_ids db e (to_lowercase (normalize_content e.mention)) in
      let (next, k, l) =
        bind-ok (link_entity db m e.role ids) (λ n. resolve_entities to_lowercase n m es) db' h in
      Keeps-trans db next db' (link_entity-Keeps ids db m e.role next k)
        (resolve_entities-Keeps to_lowercase es next m db' l)
