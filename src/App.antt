-- ===== src/App.antt =====
-- app/main.py and app/shared/middleware/tenant.py: the middlewares around the routes. Starlette runs the
-- one that is added last first. CORSMiddleware, which is added first, is taken with the routes. Names of
-- headers are in lower case, as Starlette keeps them.
pub mod Layers
use iot_server.Prelude.{
  ℕ, String, Bool, true, false, Option, none, some, List, [], ◌∷◌, str_eq, not, ◌&&◌, ◌||◌,
  if◌then◌else◌,
}
use iot_server.Valkey.{Valkey}
use iot_server.Http.{Exec, Result, ok, err, continue}
use iot_server.E2e.Crypto.{Bytes, CryptoLibrary}
use iot_server.E2e.SessionStore.{Account, SessionJson}
use iot_server.E2e.Middleware.{Request, Response, Answer, Parsing, dispatch, error_response, one_of}

-- A row of the table of administrators, as far as the tenant goes.
pub record AdministratorRow : Type 0 where
  pub id : String
  pub tenant_id : Option String

-- A request with what the middlewares keep in `request.state`.
pub record Incoming : Type 0 where
  pub request : Request
  -- the header X-Request-ID, or the empty text
  pub request_id_header : String
  pub current_account : Option Account
  pub tenant_id : Option String
  pub request_id : String

unfoldable pub tenant_of_row : String → List AdministratorRow → Option String
tenant_of_row id [] = none
tenant_of_row id (a ∷ rest) =
    let later = tenant_of_row id rest in if str_eq a.id id then a.tenant_id else later

-- The rows, or none where the database raises.
unfoldable pub resolve_tenant : Option (List AdministratorRow) → String → Option String
unfolding tenant_of_row
resolve_tenant none id = none
resolve_tenant (some rows) id = tenant_of_row id rows

unfoldable pub tenant_of : Option (List AdministratorRow) → Option Account → Option String
unfolding resolve_tenant
tenant_of rows none = none
tenant_of rows (some a) =
    if str_eq a.account_type "administrator" && not (str_eq a.account_id "") && not a.is_master
    then resolve_tenant rows a.account_id
    else none

unfoldable pub without_header : String → List (String × String) → List (String × String)
without_header name [] = []
without_header name ((k, x) ∷ rest) =
    let kept = without_header name rest in if str_eq k name then kept else (k, x) ∷ kept

-- `response.headers[name] = value`
unfoldable pub set_header : String → String → List (String × String) → List (String × String)
unfolding without_header
set_header name value [] = (name, value) ∷ []
set_header name value ((k, x) ∷ rest) =
    let later = set_header name value rest in
    if str_eq k name then (name, value) ∷ without_header name rest else (k, x) ∷ later

abbrev pub docs_paths : List String
docs_paths = "/docs" ∷ "/redoc" ∷ "/openapi.json" ∷ []

unfoldable pub with_header : String → String → Response → Response
unfolding set_header
with_header name value r = record r { headers = set_header name value r.headers }

unfoldable pub defended : Response → Response
unfolding with_header
defended r =
    with_header "referrer-policy" "strict-origin-when-cross-origin"
      (with_header "x-frame-options" "DENY" (with_header "x-content-type-options" "nosniff" r))

-- What a middleware does to a response that comes back.
unfoldable pub on_response :
    {S : Type 0} → (Response → Response) → Result Response × S → Result Response × S
on_response f (ok r, s) = (ok (f r), s)
on_response f (err x, s) = (err x, s)

-- A request identifier that is a UUID is kept, and another one is replaced by a new one.
unfoldable pub chosen_id : (String → Bool) → String → String → String
chosen_id is_uuid fresh given = if is_uuid given then given else fresh

module _ (lib : CryptoLibrary) (parse : Parsing) (v : Valkey) (json : SessionJson) (now : ℕ)
    (iv : Bytes) (rows : Option (List AdministratorRow)) (is_uuid : String → Bool) (fresh : String)
    (debug up : Bool) (routes : Incoming → Bytes → Exec v.Store Answer) where
  unfoldable pub e2e_layer : Incoming → Exec v.Store Response
  unfolding dispatch
  e2e_layer i =
      dispatch lib parse v json now
        (λ account body. routes (record i { current_account = account }) body) iv up i.request

  -- `TenantContextMiddleware.dispatch`
  unfoldable pub tenant_layer : Incoming → Exec v.Store Response
  unfolding e2e_layer tenant_of
  tenant_layer i = e2e_layer (record i { tenant_id = tenant_of rows i.current_account })

  -- `hide_docs_in_production`
  unfoldable pub docs_layer : Incoming → Exec v.Store Response
  unfolding tenant_layer one_of
  docs_layer i s =
      if not debug && one_of i.request.path docs_paths
      then (ok (error_response 404 "Not found"), s)
      else tenant_layer i s

  -- `security_headers_middleware`
  unfoldable pub headers_layer : Incoming → Exec v.Store Response
  unfolding docs_layer on_response defended
  headers_layer i s = on_response defended (docs_layer i s)

  -- `request_id_middleware`
  unfoldable pub request_id_layer : Incoming → Exec v.Store Response
  unfolding headers_layer on_response chosen_id with_header
  request_id_layer i s =
      let id = chosen_id is_uuid fresh i.request_id_header in
      on_response (with_header "x-request-id" id) (headers_layer (record i { request_id = id }) s)

  -- The application, on a request with a fresh state.
  unfoldable pub serve : Request → String → Exec v.Store Response
  unfolding request_id_layer
  serve request request_id_header = request_id_layer (record {
    request = request;
    request_id_header = request_id_header;
    current_account = none;
    tenant_id = none;
    request_id = "";
  })
