-- ===== src/Gateway/Idempotency.antt =====
-- apps/gateway/src/services/idempotency.service.js and middleware/idempotency.middleware.js. A body is
-- its JSON text, and the hash is a parameter. A record's key is that of its unique index, and its id
-- is a number.
use udyog_setu.Common.{
  ℕ, suc, String, Option, none, some, Bool, not, ◌&&◌, List, [], ◌∷◌, ◌+◌, ◌*◌, first, is_some,
  truthy, str_eq, ltb, leb, ◌==◌, if◌then◌else◌,
}

pub data RecordStatus : Type 0 where
  processing completed failed : RecordStatus

abbrev pub status_index : RecordStatus → ℕ
status_index processing = 0
status_index completed = 1
status_index failed = 2

abbrev pub is_status : RecordStatus → RecordStatus → Bool
is_status a b = status_index a == status_index b

pub record Key : Type 0 where
  pub key : String
  pub method : String
  pub route : String
  pub actor_id : String

abbrev pub same_key : Key → Key → Bool
same_key a b =
    str_eq a.key b.key
    && str_eq a.method b.method
    && str_eq a.route b.route
    && str_eq a.actor_id b.actor_id

pub record Entry : Type 0 where
  pub id : ℕ
  pub index : Key
  pub request_hash : String
  pub response_status : Option ℕ
  pub response_body : Option String
  pub correlation_id : Option String
  pub status : RecordStatus
  pub locked_until : ℕ
  pub expires_at : ℕ

pub record Config : Type 0 where
  pub lock_seconds : ℕ
  pub ttl_seconds : ℕ
  pub hash : String → String

pub data State : Type 0 where
  created created_retry conflict replayed being_processed : State

pub record Table : Type 0 where
  pub entries : List Entry
  pub next_id : ℕ

-- Replace the entry of an id, if there is one.
abbrev pub update_entry : ℕ → (Entry → Entry) → List Entry → List Entry
update_entry id f [] = []
update_entry id f (e ∷ es) =
    let rest = update_entry id f es in if e.id == id then f e ∷ rest else e ∷ rest

abbrev pub find_entry : Key → List Entry → Option Entry
find_entry k = first (λ e. same_key e.index k)

unfoldable pub retaken : ℕ → Option String → Entry → Entry
retaken until correlation_id e = record e {
  status = processing;
  locked_until = until;
  correlation_id = correlation_id;
}

module _ (config : Config) where
  unfoldable pub fresh_entry : ℕ → ℕ → Key → String → Option String → Entry
  fresh_entry now id k body correlation_id = record {
    id = id;
    index = k;
    request_hash = config.hash body;
    response_status = none;
    response_body = none;
    correlation_id = correlation_id;
    status = processing;
    locked_until = now + config.lock_seconds * 1000;
    expires_at = now + config.ttl_seconds * 1000;
  }

  -- What happens to a key that the unique index has refused.
  unfoldable pub reuse : ℕ → String → Option String → Entry → Table → Table × State × Option Entry
  reuse now body correlation_id e t =
      let until = now + config.lock_seconds * 1000 in
      if not (str_eq e.request_hash (config.hash body))
      then (t, conflict, some e)
      else if is_status e.status completed
      then (t, replayed, some e)
      else if is_status e.status processing && ltb now e.locked_until
      then (t, being_processed, some e)
      else (
        record t { entries = update_entry e.id (retaken until correlation_id) t.entries },
        created,
        some (retaken until correlation_id e),
      )

  -- The index refuses the new record where one of its key is stored; `seen` is what the query after
  -- that finds, nothing where the record has expired in between.
  unfoldable pub begin_record :
      ℕ → Key → String → Option String → (Table → List Entry) → Table → Table × State × Option Entry
  begin_record now k body correlation_id seen t =
      let e = fresh_entry now t.next_id k body correlation_id in
      if not (is_some (find_entry k t.entries))
      then (record { entries = e ∷ t.entries; next_id = suc t.next_id }, created, some e)
      else elim (find_entry k (seen t)) [
        | none ↦ (t, created_retry, none)
        | some old ↦ reuse now body correlation_id old t
      ]

unfoldable pub answered : ℕ → Option String → Entry → Entry
answered status body e = record e {
  status = completed;
  response_status = some status;
  response_body = body;
}

unfoldable pub complete_record : ℕ → ℕ → Option String → Table → Table
complete_record id status body t = record t {
  entries = update_entry id (answered status body) t.entries;
}

unfoldable pub fail_record : ℕ → Table → Table
fail_record id t = record t {
  entries = update_entry id (λ e. record e { status = failed }) t.entries;
}

-- What the middleware does with a request.
pub data Reply : Type 0 where
  missing_key : Reply
  replay : ℕ → Option String → Reply
  conflict_409 : Reply
  accepted_202 : Reply
  forward : Option ℕ → Reply

abbrev status_or : Option ℕ → ℕ
status_or none = 200
status_or (some n) = if n == 0 then 200 else n

unfoldable pub reply_of : State → Option Entry → Reply
reply_of created none = forward none
reply_of created (some e) = forward (some e.id)
reply_of created_retry none = forward none
reply_of created_retry (some e) = forward (some e.id)
reply_of conflict e = conflict_409
reply_of replayed none = replay 200 none
reply_of replayed (some e) = replay (status_or e.response_status) e.response_body
reply_of being_processed e = accepted_202

-- The request, up to the handler of the route.
unfoldable pub handle_request :
    Config
    → ℕ
    → Option String
    → String
    → String
    → Option String
    → String
    → Option String
    → (Table → List Entry)
    → Table
    → Table × Reply
handle_request config now key method route actor_id body correlation_id seen t = elim key [
  | none ↦ (t, missing_key)
  | some text ↦
      if not (truthy (some text))
      then (t, missing_key)
      else let k : Key = record {
        key = text;
        method = method;
        route = route;
        actor_id =
            if truthy actor_id
            then elim actor_id [ none ↦ "anonymous" | some a ↦ a ]
            else "anonymous";
      } in
        let (next, state, e) = begin_record config now k body correlation_id seen t in
        (next, reply_of state e)
]

-- The `finish` hook of a forwarded request, when the response has been sent.
unfoldable pub finish_request : Option ℕ → ℕ → Option String → Table → Table
finish_request none status body t = t
finish_request (some id) status body t =
    if leb 500 status then fail_record id t else complete_record id status body t
