-- ===== src/Api/Admin/Login.antt =====
-- app/api/v1/admin.py: what a login is good for, and when an account can no longer log in.
use loyiha.Base.{
  ℕ, ◌≡◌, refl, sym, ap, subst, inl, inr, true, not, ◌&&◌, ◌==◌, ==_iff, ltb, Option, none, some,
  List, [], ◌∷◌, String, str_eq, eq_iff, map, length, In, IsDistinct, Result, ok, ok_inj, raised,
  Bool-cases,
}
use loyiha.Contracts.Common.{Uuid, text_in, codes}
use loyiha.Api.Access.{HttpError}
use loyiha.Api.Admin.{
  Operator, Backend, LoginRequest, TokenResponse, active_account, create_access_token,
  token_response, checked_login, login, deactivate_operator,
}

token_of :
    (b : Backend) (o : Operator) (t : Result HttpError String) (rows : List Operator)
    (out : TokenResponse × List Operator)
    → token_response b o t rows ≡ ok out
    → t ≡ ok out.0.access_token
token_of b o (raised e) rows out h = cc
token_of b o (ok token) rows out h =
    ap (λ (p : TokenResponse × List Operator). ok (p.0.access_token)) (ok_inj h)

checked_login_ok :
    (b : Backend) (jti : String) (now : ℕ) (password : String) (rows : List Operator)
    (found : Option Operator) (out : TokenResponse × List Operator)
    → checked_login b jti now password rows found ≡ ok out
    → (o : Operator) × (found ≡ some o)
      × (b.check_password password o.hashed_password ≡ true)
      × (create_access_token b jti now o ≡ ok out.0.access_token)
checked_login_ok b jti now password rows none out h = cc
checked_login_ok b jti now password rows (some o) out h =
    elim (Bool-cases (b.check_password password o.hashed_password)) [
      | inr e ↦ cc (rw e at h)
      | inl e ↦ (o, refl, e, token_of b o _ _ out (rw e at h))
    ]

abbrev pub usernames : List Operator → List String
usernames = map (λ o. o.username)

nobody :
    (name : String) (k : Uuid) (rows : List Operator)
    → ¬ In name (usernames rows)
    → active_account name (deactivate_operator k rows) ≡ none
unfolding deactivate_operator
nobody name k [] h = refl
nobody name k (o ∷ os) h = elim (Bool-cases (str_eq o.username name)) [
  | inl e ↦ absurd (h (inl (sym ((eq_iff o.username name).0 e))))
  | inr e ↦ elim (Bool-cases (o.operator_id == k)) [
    | inl q ↦ rw (q, e) (nobody name k os (λ i. h (inr i)))
    | inr q ↦ rw (q, e) (nobody name k os (λ i. h (inr i)))
  ]
]

In-usernames : (o : Operator) (rows : List Operator) → In o rows → In o.username (usernames rows)
In-usernames o [] i = i
In-usernames o (x ∷ xs) (inl e) = inl (ap (λ (y : Operator). y.username) e)
In-usernames o (x ∷ xs) (inr i) = inr (In-usernames o xs i)

gone :
    (o : Operator) (rows : List Operator)
    → IsDistinct (usernames rows)
    → In o rows
    → active_account o.username (deactivate_operator o.operator_id rows) ≡ none
unfolding deactivate_operator
gone o [] d i = absurd i
gone o (x ∷ xs) (new, d) (inl e) =
    let same : (x.operator_id == o.operator_id) ≡ true =
      (==_iff x.operator_id o.operator_id).1 (sym (ap (λ (y : Operator). y.operator_id) e)) in
    let name : str_eq x.username o.username ≡ true =
      (eq_iff x.username o.username).1 (sym (ap (λ (y : Operator). y.username) e)) in
    let rest =
      nobody o.username o.operator_id xs
        (subst (λ n. ¬ In n (usernames xs)) (sym (ap (λ (y : Operator). y.username) e)) new) in
    rw (same, name) rest
gone o (x ∷ xs) (new, d) (inr i) = elim (Bool-cases (str_eq x.username o.username)) [
  | inl e ↦ absurd (
      new (
        subst (λ n. In n (usernames xs)) (sym ((eq_iff x.username o.username).0 e))
          (In-usernames o xs i)))
  | inr e ↦ elim (Bool-cases (x.operator_id == o.operator_id)) [
    | inl q ↦ rw (q, e) (gone o xs d i)
    | inr q ↦ rw (q, e) (gone o xs d i)
  ]
]

-- A deactivated account no longer logs in, with whatever password, where usernames are unique.
pub login-deactivate_operator :
    (b : Backend) (jti : String) (now : ℕ) (body : LoginRequest) (o : Operator)
    (rows : List Operator)
    → IsDistinct (usernames rows)
    → In o rows
    → body.username ≡ o.username
    → ¬ (
        (out : TokenResponse × List Operator) × (login b jti now body
            (deactivate_operator o.operator_id rows)
          ≡ ok out))
unfolding login
login-deactivate_operator b jti now body o rows d i name (out, h) =
    elim (Bool-cases (not (text_in 1 64 body.username && ltb 0 (length (codes body.password))))) [
      | inl e ↦ cc (rw e at h)
      | inr e ↦
          let (x, found, pass, token) =
            checked_login_ok b jti now body.password _ _ out (rw e at h) in
          cc (
            found,
            gone o rows d i,
            ap (λ n. active_account n (deactivate_operator o.operator_id rows)) name,
          )
    ]
