-- ===== src/Example/Messages.antt =====
-- Messages of two platforms about one asset.
use wup_demo.Prelude.{pos, some, none, [], ◌∷◌, String}
use wup_demo.Schema.{NormalizedOrderbook, snapshot, delta, Side, PriceLevel}

abbrev pub level : String → String → PriceLevel
level price size = record { price = price; size = size }

abbrev pub book_of : String → NormalizedOrderbook
book_of platform = record {
  platform = platform;
  clob_token_id = "token";
  market_id = "market";
  message_type = snapshot;
  bids = some (level "||" "|||||" ∷ level "|||" "||" ∷ level "x" "|" ∷ []);
  asks = some (level "|||||" "|" ∷ level "||||" "|||" ∷ []);
  updates = none;
  best_bid = some "|||";
  best_ask = none;
  exchange_timestamp = "10";
  received_at = pos 12;
  normalized_at = "";
}

abbrev pub change_of : String → NormalizedOrderbook
change_of platform = record {
  platform = platform;
  clob_token_id = "token";
  market_id = "market";
  message_type = delta;
  bids = none;
  asks = none;
  updates = some (
      record { side = Side.buy; price = "|||"; size = "" }
      ∷ record { side = Side.sell; price = "|||||"; size = "||||" }
      ∷ []);
  best_bid = none;
  best_ask = some "|||||";
  exchange_timestamp = "20";
  received_at = pos 22;
  normalized_at = "";
}
