-- ===== src/Worker/Stamp.antt =====
-- `inject_received_at` of crates/polymarket/src/handler.rs, which writes the time of arrival into the
-- text of a message, and `on_message` with it. The printing of the time is a parameter.
use Prim.Native.Char.{code}
use Prim.Native.String.{◌++◌}
use text.Mathlib.TextLemmas.{nil-append, cons-append}
use wup_demo.Prelude.{ℕ, String, Bool, false, ◌&&◌, ◌||◌, ◌≡◌, arith, ◌==◌, leb, if◌then◌else◌}
use wup_demo.Text.{contains_char}
use wup_demo.Normalizer.{ExchangeAdapter, Broker, Sent}
use wup_demo.Worker.{PolymarketHandler, on_message}

abbrev between : ℕ → ℕ → ℕ → Bool
between low high n = leb low n && leb n high

-- `char::is_whitespace`: the property White_Space of Unicode.
abbrev is_whitespace : ℕ → Bool
is_whitespace n =
    between 9 13 n
    || n == 32
    || n == 133
    || n == 160
    || n == 5760
    || between 8192 8202 n
    || n == 8232
    || n == 8233
    || n == 8239
    || n == 8287
    || n == 12288

-- `msg.trim_start().starts_with('[')`
unfoldable pub is_array : String → Bool
is_array String.[] = false
is_array (String.◌∷◌ c s) =
    let rest = is_array s in if is_whitespace (code c) then rest else code c == b'['

-- `msg.replace("{\"", ..)`: the field goes into every object that has a first field.
unfoldable pub inject_all : String → String → String
inject_all field String.[] = ""
inject_all field (String.◌∷◌ c String.[]) = String.◌∷◌ c ""
inject_all field (String.◌∷◌ c (String.◌∷◌ d s)) =
    let skipped = inject_all field s in
    let rest = inject_all field (String.◌∷◌ d s) in
    if code c == b'{' && code d == b'"'
    then "{" ++ (field ++ ("\"" ++ skipped))
    else String.◌∷◌ c rest

-- The field goes after the first brace, if there is one.
unfoldable pub inject_first : String → String → String
inject_first field String.[] = ""
inject_first field (String.◌∷◌ c s) =
    let rest = inject_first field s in
    if code c == b'{' then String.◌∷◌ c (field ++ s) else String.◌∷◌ c rest

-- `"received_at":{},`
abbrev pub timestamp_field : String → String
timestamp_field received_at = "\"received_at\":" ++ (received_at ++ ",")

unfoldable pub inject_received_at : String → String → String
inject_received_at msg received_at =
    let field = timestamp_field received_at in
    if is_array msg then inject_all field msg else inject_first field msg

-- The whole of `on_message`, at a time of arrival that is printed.
unfoldable pub on_text :
    ExchangeAdapter → Broker → String → String → String → PolymarketHandler → Sent × Bool
on_text adapter broker received_at now msg h =
    on_message adapter broker now (inject_received_at msg received_at) h

inject_first-append :
    (field before after : String)
    → contains_char b'{' before ≡ false
    → inject_first field (before ++ String.◌∷◌ "{" after)
      ≡ before ++ String.◌∷◌ "{" (field ++ after)
unfolding inject_first contains_char
inject_first-append field String.[] after h =
    rw (nil-append (String.◌∷◌ "{" after), nil-append (String.◌∷◌ "{" (field ++ after)))
inject_first-append field (String.◌∷◌ c s) after h =
    rw (cons-append c s (String.◌∷◌ "{" after), cons-append c s (String.◌∷◌ "{" (field ++ after)))
      (ground (arith, inject_first-append field s after))

-- A text that is no array gets the field after its first brace, and nothing else changes.
pub inject_received_at-object :
    (before after received_at : String)
    → is_array (before ++ String.◌∷◌ "{" after) ≡ false
    → contains_char b'{' before ≡ false
    → inject_received_at (before ++ String.◌∷◌ "{" after) received_at
      ≡ before ++ String.◌∷◌ "{" (timestamp_field received_at ++ after)
unfolding inject_received_at
inject_received_at-object before after received_at no_array none =
    rw no_array (inject_first-append (timestamp_field received_at) before after none)
