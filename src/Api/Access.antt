-- ===== src/Api/Access.antt =====
-- app/auth/dependencies.py and `_check_lane_access` of app/api/v1/scans.py: roles and lanes.
-- The decoding of a token is python-jose's, and is an argument.
use loyiha.Base.{
  ℕ, ◌≡◌, ◌≤◌, ◌↔◌, inl, inr, refl, Bool, true, false, not, ◌&&◌, Option, none, some, List, [], ◌∷◌,
  String, arith, ltb, is_empty, contains, contains_iff, String_eq, In, if◌then◌else◌, Result, ok,
  raised, Option-cases,
}
use loyiha.State.Session.{Scan}

pub data OperatorRole : Type 0 where
  operator supervisor admin : OperatorRole

pub record TokenClaims : Type 0 where
  pub sub : String
  pub username : String
  pub role : OperatorRole
  pub lane_ids : List String
  pub jti : String
  pub iat : ℕ
  pub exp : ℕ

-- The status codes of the `HTTPException`s; `internal_error` is what an exception that no handler
-- expects becomes.
pub data HttpError : Type 0 where
  unauthorized forbidden not_found conflict unprocessable internal_error : HttpError

-- `_ROLE_LEVEL`
abbrev pub role_level : OperatorRole → ℕ
role_level operator = 1
role_level supervisor = 2
role_level admin = 3

-- `_BYPASS_CLAIMS`
abbrev pub bypass_claims : TokenClaims
bypass_claims = record {
  sub = "e18dd952-0e93-4bef-8dbe-2694ccd6d66c";
  username = "admin";
  role = admin;
  lane_ids = "lane-1" ∷ "lane-2" ∷ [];
  jti = "bypass";
  iat = 0;
  exp = 9999999999;
}

-- `decode_access_token`: the claims of a token whose signature and expiry hold
abbrev pub Decoder : Type 0
Decoder = String → Option TokenClaims

-- the inner `_dep` of `_require(min_role)`
unfoldable pub require :
    Decoder → Bool → OperatorRole → Option String → Result HttpError TokenClaims
require decode bypass min_role creds = if bypass then ok bypass_claims else elim creds [
  | none ↦ raised unauthorized
  | some token ↦ elim (decode token) [
    | none ↦ raised unauthorized
    | some claims ↦
        if ltb (role_level claims.role) (role_level min_role) then raised forbidden else ok claims
  ]
]

-- Without the bypass a caller is let in exactly with a valid token whose role is at least the
-- required one, and under the claims of that token.
pub require_iff :
    (decode : Decoder) (min_role : OperatorRole) (creds : Option String) (claims : TokenClaims)
    → (require decode false min_role creds ≡ ok claims) ↔ (
        (token : String) × (creds ≡ some token)
        × (decode token ≡ some claims)
        × (role_level min_role ≤ role_level claims.role))
unfolding require
require_iff decode min_role none claims = (λ h. cc, λ (t, e, d, l). cc)
require_iff decode min_role (some token) claims = (
  λ h. (token, refl, ground (arith, h), ground (arith, h)),
  λ (t, e, d, l).
      let same : token ≡ t = ground (arith, e) in
      let valid : decode token ≡ some claims = rw same d in ground (arith, valid, l),
)

abbrev pub is_operator : OperatorRole → Bool
is_operator operator = true
is_operator _ = false

in_lanes : Option String → List String → Bool
in_lanes none lanes = false
in_lanes (some lane) lanes = contains lanes lane

-- `_check_lane_access`: true where it returns, false where it raises 403
unfoldable pub check_lane_access : Scan → TokenClaims → Bool
unfolding in_lanes
check_lane_access scan claims =
    if not (is_operator claims.role)
    then true
    else not (is_empty claims.lane_ids) && in_lanes scan.lane_id claims.lane_ids

-- An operator reaches exactly the scans of the lanes in its claims; a scan with no lane, and an
-- operator with no lanes, are refused.
pub lane_access_operator :
    (scan : Scan) (claims : TokenClaims)
    → claims.role ≡ operator
    → (check_lane_access scan claims ≡ true)
      ↔ ((lane : String) × (scan.lane_id ≡ some lane) × In lane claims.lane_ids)
unfolding check_lane_access
lane_access_operator scan claims r = elim (Option-cases scan.lane_id) [
  | inl n ↦ (λ h. absurd (ground (arith, r, n, h)), λ (lane, e, i). cc (n, e))
  | inr (lane, e) ↦ (
    λ h. (lane, e, (contains_iff claims.lane_ids lane).0 (ground (arith, r, e, h))),
    λ (lane', e', i).
        let same : lane' ≡ lane = cc (e, e') in
        let listed : contains claims.lane_ids lane ≡ true =
          (contains_iff claims.lane_ids lane).1 (rw same at i) in
        ground (arith, r, e, listed),
  )
]
