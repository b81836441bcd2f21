-- ===== src/Reply.antt =====
-- The answers of the HTTP interfaces (crates/orderbook_service/src/api.rs and
-- crates/event_service/src/api.rs): a value with the status 200, or a status and the text of the
-- field `error`.
use wup_demo.Prelude.{ℕ, String}

pub data Reply (A : Type 0) : Type 0 where
  ok : A → Reply A
  error : (status : ℕ) (message : String) → Reply A
