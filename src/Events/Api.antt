-- ===== src/Events/Api.antt =====
-- The handlers of crates/event_service/src/api.rs. The texts of the errors of the Redis client are a
-- parameter.
use Prim.Native.String.{◌++◌}
use wup_demo.Prelude.{
  ℕ, ℤ, String, str_eq, Bool, true, false, Option, none, some, List, [], ◌∷◌, length, if◌then◌else◌,
}
use wup_demo.Reply.{Reply}
use wup_demo.Events.{EventData, TokenMapping}
use wup_demo.Events.Redis.{
  Redis, Stored, Answer, list_events, get_event, get_token_mappings, event_exists, store_event,
}
use wup_demo.Events.Gamma.{Http, Result, PolymarketClient, to_string, fetch_event_data}

pub record EventListResponse : Type 0 where
  pub events : List String
  pub count : ℕ

pub record TokensResponse : Type 0 where
  pub platform : String
  pub event_slug : String
  pub tokens : List TokenMapping
  pub count : ℕ

pub record RefreshResponse : Type 0 where
  pub status : String
  pub platform : String
  pub event_slug : String
  pub token_count : ℕ

-- The statuses by their names.
abbrev pub bad_request : ℕ
bad_request = 400

abbrev pub not_found : ℕ
not_found = 404

abbrev pub internal_server_error : ℕ
internal_server_error = 500

abbrev pub bad_gateway : ℕ
bad_gateway = 502

abbrev pub no_event : String → String → String
no_event platform slug = "Event not found: " ++ (platform ++ (":" ++ slug))

abbrev pub refreshed : String → String → EventData → RefreshResponse
refreshed platform slug event = record {
  status = "refreshed";
  platform = platform;
  event_slug = slug;
  token_count = length event.tokens;
}

module _ ⦃R : Redis⦄ ⦃J : Stored EventData⦄ (redis_error : String) where
  abbrev listed : Answer (List String) → Reply EventListResponse
  listed Answer.failed = Reply.error internal_server_error redis_error
  listed (Answer.found events) = Reply.ok (record { events = events; count = length events })

  unfoldable pub list_events_handler : R.Store → Reply EventListResponse
  list_events_handler store = listed (list_events store)

  abbrev pub event_reply : String → String → Answer (Option EventData) → Reply EventData
  event_reply platform slug Answer.failed = Reply.error internal_server_error redis_error
  event_reply platform slug (Answer.found none) = Reply.error not_found (no_event platform slug)
  event_reply platform slug (Answer.found (some event)) = Reply.ok event

  unfoldable pub get_event_handler : String → String → R.Store → Reply EventData
  get_event_handler platform slug store = event_reply platform slug (get_event platform slug store)

  -- Without tokens it is asked whether there is such an event.
  abbrev no_tokens : String → String → Answer Bool → Reply TokensResponse
  no_tokens platform slug Answer.failed = Reply.error internal_server_error redis_error
  no_tokens platform slug (Answer.found true) =
      Reply.ok (record { platform = platform; event_slug = slug; tokens = []; count = 0 })
  no_tokens platform slug (Answer.found false) = Reply.error not_found (no_event platform slug)

  abbrev pub tokens_reply :
      String → String → Answer Bool → Answer (List TokenMapping) → Reply TokensResponse
  tokens_reply platform slug exists Answer.failed = Reply.error internal_server_error redis_error
  tokens_reply platform slug exists (Answer.found []) = no_tokens platform slug exists
  tokens_reply platform slug exists (Answer.found (token ∷ tokens)) = Reply.ok (record {
    platform = platform;
    event_slug = slug;
    tokens = token ∷ tokens;
    count = length (token ∷ tokens);
  })

  unfoldable pub get_tokens_handler : String → String → R.Store → Reply TokensResponse
  get_tokens_handler platform slug store =
      tokens_reply platform slug (event_exists platform slug store)
        (get_token_mappings platform slug store)

  abbrev pub stored_reply :
      RefreshResponse → R.Store → Option R.Store → Reply RefreshResponse × R.Store
  stored_reply response store none =
      (Reply.error internal_server_error ("Failed to store in Redis: " ++ redis_error), store)
  stored_reply response store (some after) = (Reply.ok response, after)

  abbrev pub fetched_reply :
      String → String → R.Store → Result EventData → Reply RefreshResponse × R.Store
  fetched_reply platform slug store (Result.err e) =
      (Reply.error bad_gateway ("Failed to fetch from Polymarket: " ++ to_string e), store)
  fetched_reply platform slug store (Result.ok event) =
      stored_reply (refreshed platform slug event) store (store_event platform slug event store)

  unfoldable pub refresh_event_handler :
      ⦃H : Http⦄
      → ℤ
      → PolymarketClient
      → String
      → String
      → R.Store
      → Reply RefreshResponse × R.Store
  refresh_event_handler now client platform slug store =
      if str_eq platform "polymarket"
      then fetched_reply platform slug store (fetch_event_data now slug client)
      else (
        Reply.error bad_request
            ("Unsupported platform: " ++ (platform ++ ". Only 'polymarket' is supported.")),
        store,
      )
