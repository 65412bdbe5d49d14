-- ===== src/Proxy.antt =====
-- The RPC proxy (rpc-proxy/src/index.ts): which HTTP requests go on to the provider, and the relay
-- between the two ends of a WebSocket. A string is a list of UTF-16 code units.
pub mod Origins
pub mod Relay
use winny.Base.{
  ℕ, Bool, true, false, ◌&&◌, ◌||◌, not, Option, none, some, List, [], ◌∷◌, ◌++◌, ltb, leb, ◌==◌,
  if◌then◌else◌,
}
use winny.Text.{JsString, codes, same_text, trim_start, trim_end}

-- s.split(","), with the piece in hand.
unfoldable pub split_comma : JsString → JsString → List JsString
split_comma piece [] = piece ∷ []
split_comma piece (c ∷ s) =
    let here = split_comma (piece ++ (c ∷ [])) s in
    let next = piece ∷ split_comma [] s in if c == b',' then next else here

-- `.map((o) => o.trim()).filter(Boolean)`
unfoldable pub trimmed : List JsString → List JsString
trimmed [] = []
trimmed (o ∷ os) = elim (trim_end (trim_start o)) [ [] ↦ trimmed os | c ∷ s ↦ (c ∷ s) ∷ trimmed os ]

unfoldable pub get_allowed_origins : JsString → List JsString
get_allowed_origins allowed = trimmed (split_comma [] allowed)

-- list.includes(s)
unfoldable pub includes_text : JsString → List JsString → Bool
includes_text s [] = false
includes_text s (t ∷ ts) = same_text t s || includes_text s ts

unfoldable pub is_origin_allowed : Option JsString → JsString → Bool
is_origin_allowed none allowed = false
is_origin_allowed (some []) allowed = false
is_origin_allowed (some (c ∷ s)) allowed = includes_text (c ∷ s) (get_allowed_origins allowed)

-- `origin && …`: a header that is there and not empty.
unfoldable pub has_origin : Option JsString → Bool
has_origin none = false
has_origin (some []) = false
has_origin (some (c ∷ s)) = true

pub data Method : Type 0 where
  options post other : Method

-- An answer of the worker itself, or the provider's with the CORS headers for an origin.
pub data Response : Type 0 where
  reply : (status : ℕ) → (cors : Option JsString) → Response
  forwarded : (cors : Option JsString) → Response

unfoldable pub handle_http : Option JsString → Method → JsString → Response
handle_http origin options allowed =
    if not (is_origin_allowed origin allowed) then reply 403 none else reply 204 origin
handle_http origin other allowed = reply 405 none
handle_http origin post allowed =
    if has_origin origin && not (is_origin_allowed origin allowed)
    then reply 403 none
    else forwarded (if has_origin origin then origin else none)

-- What becomes of a request for a WebSocket, before the ends are joined.
pub data Upgrade : Type 0 where
  refused : ℕ → Upgrade
  joined : Upgrade

unfoldable pub handle_ws : Option JsString → Bool → JsString → Upgrade
handle_ws origin wants_websocket allowed =
    if has_origin origin && not (is_origin_allowed origin allowed)
    then refused 403
    else if not wants_websocket
    then refused 426
    else joined
