-- ===== src/Events/Refresh.antt =====
-- A refresh of an event, and what is answered for the event after it.
use wup_demo.Prelude.{ℤ, String, some, length, ◌≡◌}
use wup_demo.Reply.{Reply}
use wup_demo.Events.{Event, EventData, from_event, extract_token_mappings}
use wup_demo.Events.Redis.{Redis, Stored, store_event}
use wup_demo.Events.Gamma.{Http, Result, PolymarketClient, fetch_event_by_slug}
use wup_demo.Events.Api.{RefreshResponse}

abbrev ok_or : {A : Type 0} → A → Reply A → A
ok_or a (Reply.ok b) = b
ok_or a (Reply.error status message) = a

module _ ⦃R : Redis⦄ ⦃J : Stored EventData⦄ (redis_error : String) where
  -- What a refresh answers that succeeds, and where its event is from.
  abbrev pub Refreshed :
      ⦃H : Http⦄
      → ℤ
      → PolymarketClient
      → String
      → String
      → R.Store
      → R.Store
      → RefreshResponse
      → Type 0
  Refreshed ⦃H⦄ now client platform slug store after response =
      (event : Event) × (fetch_event_by_slug slug client ≡ Result.ok event)
      × (response.token_count ≡ length (extract_token_mappings H.from_str event))
      × (store_event platform slug (from_event H.from_str now event) store ≡ some after)
