-- ===== src/Store/LongQueries.antt =====
-- Requests with long texts in crates/mega-store/src/context_repo.rs: `assemble_context` hands a text of up
-- to 4,000 characters to `search` of memory_repo.rs, which takes 500.
use stalky.Prelude.Int.{ℤ}
use stalky.Prelude.Text.{Text, is_blank}
use stalky.Prelude.{
  List, Result, any, arith, bind-ok, err, false, length, ltb, map, ok, refl, reject_if, ◌<◌, ◌≤◌,
  ◌>>=◌, ◌>>◌, ◌||◌, ◌≡◌, ◌≢◌, [],
}
use stalky.Model.Floats.{Float32}
use stalky.Retrieval.{MemoryContextRequest, RetrievedMemory}
use stalky.Store.{Database, StoreError, sql}
use stalky.Prelude.{take}
use stalky.Store.Context.{default_signals, global_filter}
use stalky.Store.Context.{
  MemoryContextAssembly, add_app, add_entities, add_project, add_query, add_searched,
  assemble_context, candidates_of, query_filter, validate_context_request,
}
use stalky.Store.Effects.{reject-ok}
use stalky.Store.Search.{Sqlite, hydrate_memory, is_unreadable, search, search_rows, validate}

-- It never succeeds, however it fails.
abbrev Refused : {A : Type 0} → Result A StoreError → Type 0
Refused {A} r = (a : A) → r ≢ ok a

start-Refused :
    {A B : Type 0} (m : Result A StoreError) (f : A → Result B StoreError)
    → Refused m
    → Refused (m >>= f)
start-Refused (ok a) f r b e = r a refl
start-Refused (err x) f r b e = cc

next-Refused :
    {A B : Type 0} (m : Result A StoreError) (f : A → Result B StoreError)
    → ((a : A) → Refused (f a))
    → Refused (m >>= f)
next-Refused (ok a) f r b e = r a b e
next-Refused (err x) f r b e = cc

module _ (fl : Float32) (display_i64 : ℤ → Text) (sqlite : Sqlite) where
  open fl use {F}

  -- The search for the text of a request.
  long-Refused :
      (db : Database F) (request : MemoryContextRequest)
      → 500 < length request.query_text
      → Refused (search sqlite db (query_filter request))
  unfolding search validate
  long-Refused db request h ms e =
      let filter = query_filter request in
      let (u, valid, _) =
        bind-ok (validate filter)
          (λ _.
            reject_if (any is_unreadable (search_rows sqlite db filter)) sql
            >> ok (map (hydrate_memory sqlite db) (search_rows sqlite db filter)))
          ms e in
      let short =
        (reject-ok (is_blank request.query_text || ltb 500 (length request.query_text)) _ _ u
          valid).0 in
      ground (arith, h, short)

  long_query-Refused :
      (db : Database F) (request : MemoryContextRequest) (cs : List (RetrievedMemory F))
      → is_blank request.query_text ≡ false
      → 500 < length request.query_text
      → Refused (add_query fl display_i64 sqlite db request cs)
  unfolding add_query add_searched
  long_query-Refused db request cs b h =
      rw (b, add_query, add_searched)
        (start-Refused (search sqlite db (query_filter request)) _ (long-Refused db request h))

  long_text-Refused :
      (db : Database F) (request : MemoryContextRequest) (correlation_id : Text) (now_ms : ℤ)
      (x : Database F × MemoryContextAssembly)
      → is_blank request.query_text ≡ false
      → 500 < length request.query_text
      → assemble_context fl display_i64 sqlite db request correlation_id now_ms ≢ ok x
  unfolding assemble_context candidates_of
  long_text-Refused db request correlation_id now_ms x b h =
      let entities = take 20 request.mentioned_entity_ids in
      let globals =
        add_searched fl display_i64 sqlite db (global_filter request) (default_signals fl) in
      next-Refused (validate_context_request request) _
        (λ u. start-Refused (candidates_of fl display_i64 sqlite db request) _ (
          next-Refused (add_project fl display_i64 sqlite db request []) _ (λ p.
            next-Refused (add_app fl display_i64 sqlite db request p) _ (λ a.
              next-Refused (add_entities fl display_i64 sqlite db request entities a) _
                (λ e. next-Refused (globals e) _ (λ g. long_query-Refused db request g b h))))))
        x

  -- A request that passes the checks of a request, with a text that is not blank and longer than 500
  -- characters, up to the 4,000 that those checks allow, gets no context.
  pub long_query_is_refused :
      (db : Database F) (request : MemoryContextRequest) (correlation_id : Text) (now_ms : ℤ)
      → request.total_token_budget ≤ 16000
      → length request.mentioned_entity_ids ≤ 20
      → is_blank request.query_text ≡ false
      → 500 < length request.query_text
      → length request.query_text ≤ 4000
      → (validate_context_request request ≡ ok tt)
        × ((x : Database F × MemoryContextAssembly)
            → assemble_context fl display_i64 sqlite db request correlation_id now_ms ≢ ok x)
  unfolding validate_context_request
  long_query_is_refused db request correlation_id now_ms budget entities b h k =
      (ground arith, λ x. long_text-Refused db request correlation_id now_ms x b h)
