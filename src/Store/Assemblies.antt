-- ===== src/Store/Assemblies.antt =====
-- What `assemble_context` of crates/mega-store/src/context_repo.rs puts into a context.
use stalky.Prelude.Int.{ℤ}
use stalky.Prelude.Text.{Text, is_empty, text, text_eq_iff}
use stalky.Prelude.Orders.{sort_by-All}
use stalky.Prelude.{
  All, All-map, List, any, any-In, ap, arith, bind-ok, false, if◌then◌else◌, ltb, none, ok,
  ok-injective, refl, some, subst, ℕ, ◌>>=◌, ◌∙◌, ◌≡◌, ◌≢◌, ◌≤◌, ◌<◌, ◌⊎◌, [],
}
use stalky.Prelude.Words.{u64_max}
use stalky.Model.Floats.{Float32}
use stalky.Model.{Memory}
use stalky.Jobs.{context_assembled}
use stalky.Retrieval.{
  MemoryContextRequest, RetrievedMemory, eligible, rank_memories, rank_order, scored,
}
use stalky.Retrieval.Render.{conservative_token_estimate, render_memory_context}
use stalky.Retrieval.Scopes.{IsVisible, rank_memories-IsVisible}
use stalky.Retrieval.Budget.{IsContext, render_memory_context-IsContext}
use stalky.Store.{Database, MemoryEventRow, has_id, record_event_tx}
use stalky.Store.Assembled.{IsRead, candidates_of-IsRead}
use stalky.Store.Context.{
  MemoryContextAssembly, assemble_context, candidates_of, finish_context, included_ids, over_budget,
  validate_context_request,
}
use stalky.Store.Deletes.{delete_memory, permanent}
use stalky.Store.Effects.{reject-ok}
use stalky.Store.Erasures.{delete_memory-IsErased, record_event_tx-ok}
use stalky.Store.Found.{map-All}
use stalky.Store.Index.{retain-All}
use stalky.Store.Search.{Sqlite, hydrate_memory}

module _ (fl : Float32) (display_i64 : ℤ → Text) (sqlite : Sqlite) where
  open fl use {F}

  -- The context is some of the ranked memories' lines, each memory as it is stored and the request's
  -- to see, and nothing changes but the log.
  pub record IsAssembled (db : Database F) (request : MemoryContextRequest) (db' : Database F)
      (a : MemoryContextAssembly) : Type 0 where
    pub ranked : List (RetrievedMemory F)
    pub all_read : All (IsRead fl display_i64 sqlite db request) ranked
    pub all_visible : All (λ (r : RetrievedMemory F). IsVisible request r.memory) ranked
    pub within : a.estimated_tokens ≤ request.total_token_budget
    pub estimated : a.estimated_tokens ≡ conservative_token_estimate a.rendered
    pub has_lines :
        (a.rendered ≡ [])
        ⊎ ((kept : List (RetrievedMemory F)) × IsContext fl display_i64 request.total_token_budget
              ranked kept a.rendered)
    pub only_told : (events : List MemoryEventRow) × (record db { memory_events = events } ≡ db')

  ranked-IsRead :
      (db : Database F) (request : MemoryContextRequest) (cs : List (RetrievedMemory F))
      → All (IsRead fl display_i64 sqlite db request) cs
      → All (IsRead fl display_i64 sqlite db request) (rank_memories fl request cs)
  unfolding rank_memories
  ranked-IsRead db request cs h =
      sort_by-All (rank_order fl) (IsRead fl display_i64 sqlite db request) _ (
        map-All (IsRead fl display_i64 sqlite db request) (IsRead fl display_i64 sqlite db request)
          (scored fl request) _ (λ r k. k)
          (retain-All (IsRead fl display_i64 sqlite db request)
            (IsRead fl display_i64 sqlite db request) (λ c. eligible request c.memory) cs
            (λ r e k. k) h))

  pub bounded_budget :
      (request : MemoryContextRequest) (u : Unit {0})
      → validate_context_request request ≡ ok u
      → request.total_token_budget < u64_max
  unfolding validate_context_request
  bounded_budget request u h =
      let k = (reject-ok (ltb 16000 request.total_token_budget) _ _ u h).0 in ground (arith, k)

  finish_context-IsAssembled :
      (db : Database F) (request : MemoryContextRequest) (correlation_id : Text) (now_ms : ℤ)
      (cs : List (RetrievedMemory F)) (db' : Database F) (a : MemoryContextAssembly)
      → request.total_token_budget < u64_max
      → All (IsRead fl display_i64 sqlite db request) cs
      → finish_context fl display_i64 sqlite db request correlation_id now_ms cs ≡ ok (db', a)
      → IsAssembled db request db' a
  unfolding finish_context
  finish_context-IsAssembled db request correlation_id now_ms cs db' a b r h =
      let ranked = rank_memories fl request cs in
      let rendered = render_memory_context fl display_i64 request ranked in
      let memory_ids = included_ids fl rendered ranked in
      let tokens = conservative_token_estimate rendered in
      let assembly : MemoryContextAssembly = record {
        rendered = rendered;
        memory_ids = memory_ids;
        estimated_tokens = tokens;
      } in
      let told =
        record_event_tx db context_assembled correlation_id none
          (some (if is_empty memory_ids then text "empty" else text "bounded")) now_ms in
      let give = λ (t : Database F). ok (t, assembly) in
      let (fits, h1) =
        reject-ok (ltb request.total_token_budget tokens) over_budget (told >>= give) (db', a) h in
      let (t, t_ok, h2) = bind-ok told give (db', a) h1 in
      let (events, e) =
        record_event_tx-ok db context_assembled correlation_id none _ now_ms t t_ok in
      let same = ok-injective h2 in
      let is_a = ap (λ x. x.1) same in
      subst (IsAssembled db request db') is_a (record {
        ranked = ranked;
        all_read = ranked-IsRead db request cs r;
        all_visible = rank_memories-IsVisible fl request cs;
        within = ground (arith, fits);
        estimated = refl;
        has_lines = render_memory_context-IsContext fl display_i64 request ranked b;
        only_told = (events, e ∙ ap (λ x. x.0) same);
      })

  -- A context that is assembled is empty, or some of the lines of a ranking in its envelope. Every
  -- memory of the ranking is read from a stored row and its stored scope, is active or, if the
  -- request asks for the history, at least not rejected, forgotten or pending, and is the request's
  -- to see. Its scope is the active project, the app in use or the global one, or it applies to that
  -- app, is linked to one of the first 20 entities that are mentioned, or has a search document that
  -- the request's text matches. The context is as many bytes as it says, at most the request's
  -- budget, and of the tables only the log of events changes.
  pub assemble_context-IsAssembled :
      (db : Database F) (request : MemoryContextRequest) (correlation_id : Text) (now_ms : ℤ)
      (db' : Database F) (a : MemoryContextAssembly)
      → assemble_context fl display_i64 sqlite db request correlation_id now_ms ≡ ok (db', a)
      → IsAssembled db request db' a
  unfolding assemble_context
  assemble_context-IsAssembled db request correlation_id now_ms db' a h =
      let finish = finish_context fl display_i64 sqlite db request correlation_id now_ms in
      let candidates = candidates_of fl display_i64 sqlite db request in
      let (u, valid, h1) =
        bind-ok (validate_context_request request) (λ _. candidates >>= finish) (db', a) h in
      let (cs, cs_ok, h2) = bind-ok candidates finish (db', a) h1 in
      finish_context-IsAssembled db request correlation_id now_ms cs db' a
        (bounded_budget request u valid)
        (candidates_of-IsRead fl display_i64 sqlite db request cs cs_ok) h2

  read-elsewhere :
      (db : Database F) (request : MemoryContextRequest) (id : Text) (r : RetrievedMemory F)
      → any (has_id id) db.memories ≡ false
      → IsRead fl display_i64 sqlite db request r
      → r.memory.id ≢ id
  unfolding hydrate_memory
  read-elsewhere db request id r h f e =
      let own = ap (λ m. Memory.id m) f.is_read in
      let t =
        any-In (has_id id) db.memories f.raw.row f.is_stored
          ((text_eq_iff f.raw.row.id id).1 (own ∙ e)) in
      cc

  -- If a memory is permanently deleted, no memory of the ranking that a context is then made of has its
  -- id.
  pub deleted_is_left_out :
      (db : Database F) (id : Text) (expected : ℕ) (user : Text) (deleted_at : ℤ) (db' : Database F)
      (request : MemoryContextRequest) (correlation_id : Text) (now_ms : ℤ) (db'' : Database F)
      (a : MemoryContextAssembly)
      → delete_memory db id expected permanent user deleted_at ≡ ok db'
      → assemble_context fl display_i64 sqlite db' request correlation_id now_ms ≡ ok (db'', a)
      → (v : IsAssembled db' request db'' a) × All
          (λ (r : RetrievedMemory F). r.memory.id ≢ id)
          v.ranked
  deleted_is_left_out db id expected user deleted_at db' request correlation_id now_ms db'' a d h =
      let v = assemble_context-IsAssembled db' request correlation_id now_ms db'' a h in
      let gone = (delete_memory-IsErased db id expected user deleted_at db' d).no_memory in
      (
        v,
        All-map (IsRead fl display_i64 sqlite db' request)
            (λ (r : RetrievedMemory F). r.memory.id ≢ id)
            (λ r. read-elsewhere db' request id r gone) v.ranked v.all_read,
      )
