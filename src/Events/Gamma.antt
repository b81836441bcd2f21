-- ===== src/Events/Gamma.antt =====
-- `PolymarketClient` of crates/external_services/src/polymarket/client.rs and the errors of error.rs
-- there. Sending a request and decoding a body are parameters.
use Prim.Native.String.{◌++◌}
use wup_demo.Prelude.{ℤ, String, Bool, Option, none, some, List, [], ◌∷◌, if◌then◌else◌}
use wup_demo.Events.{Event, EventData, from_event}

-- An error of another crate is its text.
pub data Error : Type 0 where
  http json redis event_not_found market_not_found invalid_response api : String → Error

unfoldable pub to_string : Error → String
to_string (Error.http e) = "HTTP request failed: " ++ e
to_string (Error.json e) = "JSON parsing failed: " ++ e
to_string (Error.redis e) = "Redis error: " ++ e
to_string (Error.event_not_found e) = "Event not found: " ++ e
to_string (Error.market_not_found e) = "Market not found: " ++ e
to_string (Error.invalid_response e) = "Invalid response: " ++ e
to_string (Error.api e) = "API error: " ++ e

pub data Result (A : Type 0) : Type 0 where
  ok : A → Result A
  err : Error → Result A

-- A response of `reqwest`. The body may fail to arrive, and is decoded as one type or another.
pub record Response : Type 0 where
  pub is_success : Bool
  pub status : String
  pub text : Option String
  pub json_events : Result (List Event)
  pub json_event : Result Event

-- The answer to a request for an address, and the decoder of a list of texts.
pub record Http : Type 0 where
  pub get : String → Result Response
  pub from_str : String → Option (List String)

pub record PolymarketClient : Type 0 where
  pub base_url : String

unfoldable pub new : PolymarketClient
new = record { base_url = "https://gamma-api.polymarket.com" }

unfoldable pub with_base_url : String → PolymarketClient
with_base_url base_url = record { base_url = base_url }

abbrev text_or_empty : Option String → String
text_or_empty none = ""
text_or_empty (some text) = text

-- The error for a response that is no success.
abbrev pub refused : Response → Error
refused response =
    Error.api ("API returned status " ++ (response.status ++ (": " ++ text_or_empty response.text)))

abbrev pub first_event : String → Result (List Event) → Result Event
first_event slug (Result.err e) = Result.err e
first_event slug (Result.ok []) =
    Result.err (Error.event_not_found ("No event found with slug: " ++ slug))
first_event slug (Result.ok (event ∷ events)) = Result.ok event

module _ ⦃H : Http⦄ where
  unfoldable pub fetch_event_by_slug : String → PolymarketClient → Result Event
  fetch_event_by_slug slug client = elim (H.get (client.base_url ++ ("/events?slug=" ++ slug))) [
    | Result.err e ↦ Result.err e
    | Result.ok response ↦
        if response.is_success
        then first_event slug response.json_events
        else Result.err (refused response)
  ]

  unfoldable pub fetch_event_by_id : String → PolymarketClient → Result Event
  fetch_event_by_id event_id client = elim (H.get (client.base_url ++ ("/events/" ++ event_id))) [
    | Result.err e ↦ Result.err e
    | Result.ok response ↦
        if response.is_success then response.json_event else Result.err (refused response)
  ]

  abbrev pub event_data : ℤ → Result Event → Result EventData
  event_data now (Result.err e) = Result.err e
  event_data now (Result.ok event) = Result.ok (from_event H.from_str now event)

  -- At the time that the clock shows.
  unfoldable pub fetch_event_data : ℤ → String → PolymarketClient → Result EventData
  fetch_event_data now slug client = event_data now (fetch_event_by_slug slug client)
