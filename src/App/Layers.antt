-- ===== src/App/Layers.antt =====
-- What the middlewares of app/main.py make of a request and of a response.
use iot_server.Prelude.{
  ℕ, ◌≡◌, refl, ap, String, Bool, true, false, Option, none, some, List, [], ◌∷◌, str_eq, eq_refl,
  eq_iff, ◌∙◌, ◌⊎◌, inl, inr, if◌then◌else◌, Bool-cases,
}
use iot_server.Valkey.{Valkey}
use iot_server.Http.{Exec, Result, ok, err, Exception}
use iot_server.E2e.Crypto.{Bytes, CryptoLibrary}
use iot_server.E2e.SessionStore.{SessionJson}
use iot_server.E2e.Middleware.{Request, Response, Answer, Parsing, error_response, one_of}
use iot_server.App.{
  AdministratorRow, Incoming, tenant_of, without_header, set_header, docs_paths, with_header,
  defended, on_response, chosen_id, e2e_layer, tenant_layer, docs_layer, headers_layer,
  request_id_layer, serve,
}

unfoldable pub get_header : String → List (String × String) → Option String
get_header name [] = none
get_header name ((k, x) ∷ rest) =
    let later = get_header name rest in if str_eq k name then some x else later

get-set :
    (name value : String) (hs : List (String × String))
    → get_header name (set_header name value hs) ≡ some value
unfolding get_header set_header
get-set name value [] = rw (eq_refl name) refl
get-set name value ((k, x) ∷ rest) = elim (Bool-cases (str_eq k name)) [
  | inl yes_ ↦ rw (yes_, eq_refl name) refl
  | inr no_ ↦ rw (no_, no_) (get-set name value rest)
]

other_key :
    (k name other : String)
    → str_eq name other ≡ false
    → str_eq k name ≡ true
    → str_eq k other ≡ false
other_key k name other h yes_ = ap (λ n. str_eq n other) ((eq_iff k name).0 yes_) ∙ h

get-without :
    (name other : String) (hs : List (String × String))
    → str_eq name other ≡ false
    → get_header other (without_header name hs) ≡ get_header other hs
unfolding get_header without_header
get-without name other [] h = refl
get-without name other ((k, x) ∷ rest) h = elim (Bool-cases (str_eq k name)) [
  | inl yes_ ↦ rw (yes_, other_key k name other h yes_) (get-without name other rest h)
  | inr no_ ↦
      rw no_ (ap (λ r. if str_eq k other then some x else r) (get-without name other rest h))
]

get-set-other :
    (name other value : String) (hs : List (String × String))
    → str_eq name other ≡ false
    → get_header other (set_header name value hs) ≡ get_header other hs
unfolding get_header set_header
get-set-other name other value [] h = rw h refl
get-set-other name other value ((k, x) ∷ rest) h = elim (Bool-cases (str_eq k name)) [
  | inl yes_ ↦ rw (yes_, h, other_key k name other h yes_) (get-without name other rest h)
  | inr no_ ↦
      rw no_
        (ap (λ r. if str_eq k other then some x else r) (get-set-other name other value rest h))
]

-- The headers that every response of the application has.
abbrev pub IsDefended : String → Response → Type 0
IsDefended id r =
    (get_header "x-request-id" r.headers ≡ some id)
    × (get_header "x-content-type-options" r.headers ≡ some "nosniff")
    × (get_header "x-frame-options" r.headers ≡ some "DENY")
    × (get_header "referrer-policy" r.headers ≡ some "strict-origin-when-cross-origin")

with_header-IsDefended :
    (id : String) (r : Response) → IsDefended id (with_header "x-request-id" id (defended r))
unfolding with_header defended
with_header-IsDefended id r =
    let id_ : String = "x-request-id" in
    let policy : String = "referrer-policy" in
    let frame : String = "x-frame-options" in
    let sniff : String = "x-content-type-options" in
    let first = set_header sniff "nosniff" r.headers in
    let second = set_header frame "DENY" first in
    let third = set_header policy "strict-origin-when-cross-origin" second in
    (
      get-set id_ id third,
      get-set-other id_ sniff id third refl
          ∙ get-set-other policy sniff "strict-origin-when-cross-origin" second refl
          ∙ get-set-other frame sniff "DENY" first refl
          ∙ get-set sniff "nosniff" r.headers,
      get-set-other id_ frame id third refl
          ∙ get-set-other policy frame "strict-origin-when-cross-origin" second refl
          ∙ get-set frame "DENY" first,
      get-set-other id_ policy id third refl
          ∙ get-set policy "strict-origin-when-cross-origin" second,
    )

module _ (lib : CryptoLibrary) (parse : Parsing) (v : Valkey) (json : SessionJson) (now : ℕ)
    (iv : Bytes) (rows : Option (List AdministratorRow)) (is_uuid : String → Bool) (fresh : String)
    (debug up : Bool) (routes : Incoming → Bytes → Exec v.Store Answer) where
  -- Every request is answered by a response with the three defensive headers and the request identifier,
  -- which is the one that was given if it is a UUID, unless a route or the library raises.
  pub serve-IsDefended :
      (request : Request) (given : String) (s : v.Store)
      → ((x : Exception) × ((serve lib parse v json now iv rows is_uuid fresh debug up routes
              request given s).0
            ≡ err x))
        ⊎ ((r : Response) × ((serve lib parse v json now iv rows is_uuid fresh debug up routes
                request given s).0
              ≡ ok r)
            × IsDefended (chosen_id is_uuid fresh given) r)
  unfolding serve request_id_layer headers_layer
  serve-IsDefended request given s =
      let id = chosen_id is_uuid fresh given in
      answered (
        docs_layer lib parse v json now iv rows is_uuid fresh debug up routes
          (record {
            request = request;
            request_id_header = given;
            current_account = none;
            tenant_id = none;
            request_id = id;
          })
          s)
    where
      answered :
          (p : Result Response × v.Store)
          → let id = chosen_id is_uuid fresh given in
            let q = on_response (with_header "x-request-id" id) (on_response defended p) in
            ((x : Exception) × (q.0 ≡ err x)) ⊎ ((r : Response) × (q.0 ≡ ok r) × IsDefended id r)
      answered (ok r, t) = unfold on_response in inr (_, refl, with_header-IsDefended _ r)
      answered (err x, t) = unfold on_response in inl (x, refl)

  -- No route ever sees a tenant: TenantContextMiddleware runs before E2EMiddleware, so that there is no
  -- account yet whose tenant it could look up.
  pub serve-blind :
      (request : Request) (given : String) (s : v.Store)
      → serve lib parse v json now iv rows is_uuid fresh debug up routes request given s
        ≡ serve lib parse v json now iv rows is_uuid fresh debug up
            (λ i. routes (record i { tenant_id = none }))
            request
            given
            s
  unfolding serve request_id_layer headers_layer docs_layer tenant_layer e2e_layer tenant_of
  serve-blind request given s = refl

  -- Outside debug mode the three paths of the documentation are answered by 404, and nothing else runs.
  pub serve-docs :
      (request : Request) (given : String) (s : v.Store)
      → debug ≡ false
      → one_of request.path docs_paths ≡ true
      → (r : Response) × (serve lib parse v json now iv rows is_uuid fresh debug up routes request
            given s
          ≡ (ok r, s))
        × (r.status ≡ 404)
  unfolding serve request_id_layer headers_layer docs_layer on_response with_header defended
  serve-docs request given s production hidden = (
    with_header "x-request-id" (chosen_id is_uuid fresh given)
        (defended (error_response 404 "Not found")),
    rw (production, hidden) refl,
    refl,
  )
