-- ===== src/Proxy/Origins.antt =====
-- Who gets through the proxy.
use winny.Base.{
  ◌≡◌, refl, Bool, true, false, ◌&&◌, not, Option, none, some, List, [], ◌∷◌, ◌⊎◌, inl, inr, arith,
}
use winny.Text.{JsString, same_text}
use winny.Proxy.{
  includes_text, get_allowed_origins, is_origin_allowed, has_origin, Method, options, post, other,
  forwarded, handle_http, joined, handle_ws,
}

pub same_text_lem : (s t : JsString) → same_text s t ≡ true → s ≡ t
unfolding same_text
same_text_lem [] [] h = refl
same_text_lem [] (d ∷ t) h = ground (arith, h)
same_text_lem (c ∷ s) [] h = ground (arith, h)
same_text_lem (c ∷ s) (d ∷ t) h = ground (arith, h, same_text_lem s t)

-- A member of a list of texts.
abbrev pub Among : JsString → List JsString → Type 0
Among s [] = ⊥
Among s (t ∷ ts) = (t ≡ s) ⊎ Among s ts

includes_text-Among : (s : JsString) (ts : List JsString) → includes_text s ts ≡ true → Among s ts
unfolding includes_text
includes_text-Among s [] h = ground (arith, h)
includes_text-Among s (t ∷ ts) h = go (same_text t s) refl (includes_text-Among s ts)
  where
    go :
        (b : Bool) → same_text t s ≡ b → (includes_text s ts ≡ true → Among s ts) → Among s (t ∷ ts)
    go true e rest = inl (same_text_lem t s e)
    go false e rest = inr (rest (ground (arith, h, e)))

-- The request has no origin, or one of those that the setting lists.
abbrev pub MayPass : Option JsString → JsString → Type 0
MayPass none allowed = Unit
MayPass (some origin) allowed = (origin ≡ []) ⊎ Among origin (get_allowed_origins allowed)

passes :
    (origin : Option JsString) (allowed : JsString)
    → (has_origin origin && not (is_origin_allowed origin allowed)) ≡ false
    → MayPass origin allowed
unfolding has_origin is_origin_allowed
passes none allowed h = tt
passes (some []) allowed h = inl refl
passes (some (c ∷ s)) allowed h =
    inr (includes_text-Among (c ∷ s) (get_allowed_origins allowed) (ground (arith, h)))

-- A request only reaches the provider if it is a POST and has no origin or a listed one.
pub handle_http-forwarded :
    (origin cors : Option JsString) (method : Method) (allowed : JsString)
    → handle_http origin method allowed ≡ forwarded cors
    → (method ≡ post) × MayPass origin allowed
unfolding handle_http
handle_http-forwarded origin cors options allowed h = absurd (ground (arith, h))
handle_http-forwarded origin cors other allowed h = absurd (ground (arith, h))
handle_http-forwarded origin cors post allowed h = (refl, passes origin allowed (ground (arith, h)))

-- The ends of a WebSocket are only joined for a request that asks for one and has no origin or a
-- listed one.
pub handle_ws-joined :
    (origin : Option JsString) (wants_websocket : Bool) (allowed : JsString)
    → handle_ws origin wants_websocket allowed ≡ joined
    → (wants_websocket ≡ true) × MayPass origin allowed
unfolding handle_ws
handle_ws-joined origin true allowed h = (refl, passes origin allowed (ground (arith, h)))
handle_ws-joined origin false allowed h = absurd (ground (arith, h))
