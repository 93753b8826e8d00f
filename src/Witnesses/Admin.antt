-- ===== src/Witnesses/Admin.antt =====
-- Two accounts, a token that is read back, and a table of thresholds.
use loyiha.Base.{
  ◌≤◌, ◌≡◌, refl, true, inl, inr, Option, none, some, List, [], ◌∷◌, ok, if◌then◌else◌, str_eq,
}
use loyiha.Contracts.Common.{one}
use loyiha.State.Thresholds.{empty_cache, invalidate}
use loyiha.Api.Access.{operator, admin, Decoder}
use loyiha.Api.Admin.{
  Operator, Backend, LoginRequest, TokenResponse, claims_of, login, deactivate_operator,
  ThresholdConfig, ThresholdUpdate, Tables, update_threshold, deactivate, new_config,
}
use loyiha.Api.Admin.Login.{login-deactivate_operator}
use loyiha.Api.Admin.Thresholds.{IsUpdated, update_threshold-active}
use loyiha.Witnesses.Api.{lane_operator}

abbrev backend : Backend
backend = record {
  check_password = str_eq;
  hash_password = λ p. p;
  encode = λ secret c. c.username;
  str_of = λ k. "op-1";
  jwt_secret = "0123456789abcdef0123456789abcdef";
  jwt_expires_seconds = 3600;
}

abbrev anvar : Operator
anvar = record {
  operator_id = 1;
  username = "anvar";
  hashed_password = "olma-anor-uzum";
  role = operator;
  lane_ids = "lane-1" ∷ [];
  is_active = true;
  last_login_at = none;
}

abbrev accounts : List Operator
accounts = record anvar { operator_id = 2; username = "zarina"; role = admin } ∷ anvar ∷ []

abbrev request : LoginRequest
request = record { username = "anvar"; password = "olma-anor-uzum" }

abbrev reader : Decoder
reader token = if str_eq token "anvar" then some (claims_of backend "jti" 5 anvar) else none

abbrev found_or_anvar : Option Operator → Operator
found_or_anvar none = anvar
found_or_anvar (some o) = o

login-deactivate_operator_example : ¬ (
    (out : TokenResponse × List Operator) × (login backend "jti" 5 request
        (deactivate_operator 1 accounts)
      ≡ ok out))
login-deactivate_operator_example =
    login-deactivate_operator backend "jti" 5 request anvar accounts
      ((λ i. elim i [ inl e ↦ cc | inr f ↦ f ]), ((λ i. i), tt)) (inr (inl refl)) refl

abbrev threshold : ThresholdConfig
threshold = record {
  config_id = 1;
  category = "firearm";
  alert_threshold = 9;
  auto_clear_threshold = 2;
  updated_by = "zarina";
  is_active = true;
  note = none;
}

abbrev tables : Tables
tables = record {
  rows = threshold ∷ record threshold { config_id = 2; category = "unknown" } ∷ [];
  cache = some empty_cache;
}

abbrev lower : ThresholdUpdate
lower = record { alert_threshold = 5; auto_clear_threshold = 1; note = some "past" }

updated :
    (out : ThresholdConfig × Tables) × (update_threshold 3 lane_operator "firearm" lower tables
      ≡ ok out)
unfolding update_threshold deactivate one
updated = (_, refl)

update_threshold-active_example :
    (updated.0.0 ≡ new_config 3 "firearm" "op" lower)
    × (1 ≤ 5)
    × (5 ≤ one)
    × IsUpdated "firearm" updated.0.0 tables.rows updated.0.1.rows
    × (updated.0.1.cache ≡ some (invalidate empty_cache))
update_threshold-active_example =
    update_threshold-active 3 lane_operator "firearm" lower tables updated.0 updated.1
