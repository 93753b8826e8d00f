-- ===== src/Api/Admin.antt =====
-- app/api/v1/admin.py, with app/auth/backend.py: login, accounts and thresholds. bcrypt and
-- python-jose are parameters. `require_admin` has let the caller in before the administrator's
-- endpoints run. The rows of the two tables are lists; a new row's `updated_at`, and the rounding
-- of a threshold to the REAL of its column, are left out.
pub mod Login
pub mod Thresholds
use loyiha.Base.{
  ℕ, ◌+◌, Bool, true, false, not, ◌&&◌, ◌||◌, ◌==◌, leb, ltb, Option, none, some, List, [], ◌∷◌,
  ◌++◌, String, str_eq, find, map, if◌then◌else◌, length, Result, ok, raised,
}
use loyiha.Contracts.Common.{Uuid, Score, one, codes, text_in}
use loyiha.State.Thresholds.{ThresholdCache, invalidate}
use loyiha.Api.Access.{
  OperatorRole, TokenClaims, HttpError, unauthorized, conflict, unprocessable, internal_error,
}

pub record Operator : Type 0 where
  pub operator_id : Uuid
  pub username : String
  pub hashed_password : String
  pub role : OperatorRole
  pub lane_ids : List String
  pub is_active : Bool
  pub last_login_at : Option ℕ

-- bcrypt, the signing of claims, and the text of an id; `check_password` is false on an exception
pub record Backend : Type 0 where
  pub check_password : String → String → Bool
  pub hash_password : String → String
  pub encode : String → TokenClaims → String
  pub str_of : Uuid → String
  pub jwt_secret : String
  pub jwt_expires_seconds : ℕ

pub record LoginRequest : Type 0 where
  pub username : String
  pub password : String

pub record TokenResponse : Type 0 where
  pub access_token : String
  pub expires_in : ℕ
  pub operator_id : String
  pub username : String
  pub role : OperatorRole
  pub lane_ids : List String

-- `select(Operator).where(username == …, is_active)`; usernames are unique
abbrev pub active_account : String → List Operator → Option Operator
active_account username rows =
    find (λ (o : Operator). str_eq o.username username && o.is_active) rows

-- `update(Operator).where(operator_id == …).values(last_login_at=now)`
unfoldable pub touch : ℕ → Uuid → List Operator → List Operator
touch now k [] = []
touch now k (o ∷ os) =
    (if o.operator_id == k then record o { last_login_at = some now } else o) ∷ touch now k os

pub record OperatorCreateRequest : Type 0 where
  pub username : String
  pub password : String
  pub role : OperatorRole
  pub lane_ids : List String

abbrev pub is_taken : String → List Operator → Bool
is_taken username [] = false
is_taken username (o ∷ os) = str_eq o.username username || is_taken username os

module _ (b : Backend) where
  -- the claims that `create_access_token` signs, with the id of the token
  abbrev pub claims_of : String → ℕ → Operator → TokenClaims
  claims_of jti now o = record {
    sub = b.str_of o.operator_id;
    username = o.username;
    role = o.role;
    lane_ids = o.lane_ids;
    jti = jti;
    iat = now;
    exp = now + b.jwt_expires_seconds;
  }

  -- `create_access_token`, which wants a secret of 32 characters
  unfoldable pub create_access_token : String → ℕ → Operator → Result HttpError String
  create_access_token jti now o =
      if ltb (length (codes b.jwt_secret)) 32
      then raised internal_error
      else ok (b.encode b.jwt_secret (claims_of jti now o))

  abbrev pub token_response :
      Operator
      → Result HttpError String
      → List Operator
      → Result HttpError (TokenResponse × List Operator)
  token_response o (raised e) rows = raised e
  token_response o (ok token) rows = ok (
    record {
      access_token = token;
      expires_in = b.jwt_expires_seconds;
      operator_id = b.str_of o.operator_id;
      username = o.username;
      role = o.role;
      lane_ids = o.lane_ids;
    },
    rows,
  )

  abbrev pub checked_login :
      String
      → ℕ
      → String
      → List Operator
      → Option Operator
      → Result HttpError (TokenResponse × List Operator)
  checked_login jti now password rows none = raised unauthorized
  checked_login jti now password rows (some o) =
      if not (b.check_password password o.hashed_password)
      then raised unauthorized
      else token_response o (create_access_token jti now o) (touch now o.operator_id rows)

  -- `login`
  unfoldable pub login :
      String → ℕ → LoginRequest → List Operator → Result HttpError (TokenResponse × List Operator)
  login jti now body rows =
      if not (text_in 1 64 body.username && ltb 0 (length (codes body.password)))
      then raised unprocessable
      else checked_login jti now body.password rows (active_account body.username rows)

  abbrev pub new_operator : Uuid → OperatorCreateRequest → Operator
  new_operator operator_id body = record {
    operator_id = operator_id;
    username = body.username;
    hashed_password = b.hash_password body.password;
    role = body.role;
    lane_ids = body.lane_ids;
    is_active = true;
    last_login_at = none;
  }

  -- `create_operator`
  unfoldable pub create_operator :
      Uuid → OperatorCreateRequest → List Operator → Result HttpError (Operator × List Operator)
  create_operator operator_id body rows =
      if not (text_in 3 64 body.username && leb 12 (length (codes body.password)))
      then raised unprocessable
      else if is_taken body.username rows
      then raised conflict
      else ok (new_operator operator_id body, rows ++ (new_operator operator_id body ∷ []))

-- `deactivate_operator`
unfoldable pub deactivate_operator : Uuid → List Operator → List Operator
deactivate_operator k [] = []
deactivate_operator k (o ∷ os) =
    (if o.operator_id == k then record o { is_active = false } else o) ∷ deactivate_operator k os

pub record ThresholdConfig : Type 0 where
  pub config_id : Uuid
  pub category : String
  pub alert_threshold : Score
  pub auto_clear_threshold : Score
  pub updated_by : String
  pub is_active : Bool
  pub note : Option String

-- A threshold is a float that is not negative; NaN fails the bounds as a value above 1 does.
pub record ThresholdUpdate : Type 0 where
  pub alert_threshold : Score
  pub auto_clear_threshold : Score
  pub note : Option String

abbrev pub retired_if : Bool → ThresholdConfig → ThresholdConfig
retired_if true r = record r { is_active = false }
retired_if false r = r

-- `update(ThresholdConfig).where(category == …, is_active).values(is_active=False)`
unfoldable pub deactivate : String → List ThresholdConfig → List ThresholdConfig
deactivate category [] = []
deactivate category (r ∷ rs) =
    retired_if (str_eq r.category category && r.is_active) r ∷ deactivate category rs

abbrev pub new_config : Uuid → String → String → ThresholdUpdate → ThresholdConfig
new_config config_id category username body = record {
  config_id = config_id;
  category = category;
  alert_threshold = body.alert_threshold;
  auto_clear_threshold = body.auto_clear_threshold;
  updated_by = username;
  is_active = true;
  note = body.note;
}

-- what an update changes: the table, and the cache of the process when there is one
pub record Tables : Type 0 where
  pub rows : List ThresholdConfig
  pub cache : Option ThresholdCache

abbrev pub invalidated : Option ThresholdCache → Option ThresholdCache
invalidated none = none
invalidated (some c) = some (invalidate c)

-- `update_threshold`; the column of the category holds 32 characters
unfoldable pub update_threshold :
    Uuid
    → TokenClaims
    → String
    → ThresholdUpdate
    → Tables
    → Result HttpError (ThresholdConfig × Tables)
update_threshold config_id claims category body t =
    if not (leb body.alert_threshold one && leb body.auto_clear_threshold one)
    then raised unprocessable
    else if ltb body.alert_threshold body.auto_clear_threshold
    then raised unprocessable
    else if not (leb (length (codes category)) 32)
    then raised internal_error
    else let row = new_config config_id category claims.username body in
      ok (
        row,
        record { rows = deactivate category t.rows ++ (row ∷ []); cache = invalidated t.cache },
      )
