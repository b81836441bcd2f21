-- ===== src/Service/Subject.antt =====
-- The subject that `publish_change` of crates/orderbook_service/src/service.rs publishes under.
use Prim.Native.String.{◌++◌}
use wup_demo.Prelude.{String}
use wup_demo.Schema.{NormalizedOrderbook}

-- `format!("orderbook.changes.{}.{}", msg.market_id, msg.clob_token_id)`
unfoldable pub change_subject : NormalizedOrderbook → String
change_subject msg = "orderbook.changes." ++ (msg.market_id ++ ("." ++ msg.clob_token_id))
