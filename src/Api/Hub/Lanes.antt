-- ===== src/Api/Hub/Lanes.antt =====
-- app/api/v1/ws.py: who is told of a lane, and what a closed connection leaves behind.
use loyiha.Base.{
  ℕ, ◌≡◌, ◌≢◌, refl, ◌↔◌, ◌⊎◌, inl, inr, Bool, true, false, ◌||◌, ◌==◌, ==_refl, some, List, [],
  ◌∷◌, ◌++◌, String, str_eq, eq_iff, any, contains, contains_iff, String_eq, In, Bool-cases, or_iff,
}
use loyiha.Api.Hub.{Subscriber, Hub, all_lanes, lane_keys, without, connect, disconnect, targets}

-- The connection is subscribed somewhere in the list.
abbrev pub has : ℕ → List Subscriber → Bool
has ws subs = any (λ x. x.ws == ws) subs

without-fresh : (ws : ℕ) (subs : List Subscriber) → has ws subs ≡ false → without ws subs ≡ subs
without-fresh ws [] h = refl
without-fresh ws (x ∷ xs) h = elim (Bool-cases (x.ws == ws)) [
  | inl e ↦ cc (rw e at h)
  | inr e ↦ rw (e, without-fresh ws xs (rw e at h)) refl
]

-- A connection that is opened and closed leaves every lane as it was, if the connection is new.
pub disconnect-connect :
    (sub : Subscriber) (hub : Hub) (lane : String)
    → ((key : String) → has sub.ws (hub key) ≡ false)
    → disconnect sub (connect sub hub) lane ≡ hub lane
unfolding disconnect connect
disconnect-connect sub hub lane fresh = elim (Bool-cases (contains (lane_keys sub.lane_ids) lane)) [
  | inl e ↦ rw (e, fresh lane, ==_refl sub.ws, without-fresh sub.ws (hub lane) (fresh lane)) refl
  | inr e ↦ rw e refl
]

any-append :
    (p : Subscriber → Bool) (xs ys : List Subscriber) → any p (xs ++ ys) ≡ (any p xs || any p ys)
any-append p [] ys = refl
any-append p (x ∷ xs) ys = elim (Bool-cases (p x)) [
  | inl e ↦ rw e refl
  | inr e ↦ rw e (any-append p xs ys)
]

has-connect :
    (sub : Subscriber) (hub : Hub) (lane : String)
    → has sub.ws (hub lane) ≡ false
    → has sub.ws (connect sub hub lane) ≡ contains (lane_keys sub.lane_ids) lane
unfolding connect
has-connect sub hub lane fresh = elim (Bool-cases (contains (lane_keys sub.lane_ids) lane)) [
  | inl e ↦ rw (e, fresh, ==_refl sub.ws) refl
  | inr e ↦ rw e fresh
]

lane_keys_iff :
    (ids : List String) (lane : String)
    → ((contains (lane_keys ids) lane || contains (lane_keys ids) "ALL") ≡ true)
      ↔ (In lane ids ⊎ (ids ≡ []) ⊎ In "ALL" ids)
unfolding lane_keys
lane_keys_iff [] lane = (λ h. inr (inl refl), λ h. (or_iff _ _).1 (inr refl))
lane_keys_iff (x ∷ xs) lane = (
  λ h. elim ((or_iff _ _).0 h) [
    | inl e ↦ inl ((contains_iff (x ∷ xs) lane).0 e)
    | inr e ↦ inr (inr ((contains_iff (x ∷ xs) "ALL").0 e))
  ],
  λ h. (or_iff _ _).1 (elim h [
    | inl i ↦ inl ((contains_iff (x ∷ xs) lane).1 i)
    | inr i ↦ inr (elim i [ inl e ↦ cc | inr j ↦ (contains_iff (x ∷ xs) "ALL").1 j ])
  ]),
)

-- A new connection is told of a lane exactly when the lane is one of its claims, or the claims have
-- no lane or the lane "ALL".
pub targets-connect :
    (sub : Subscriber) (hub : Hub) (lane : String)
    → ((key : String) → has sub.ws (hub key) ≡ false)
    → lane ≢ ""
    → (has sub.ws (targets (connect sub hub) (some lane)) ≡ true)
      ↔ (In lane sub.lane_ids ⊎ (sub.lane_ids ≡ []) ⊎ In "ALL" sub.lane_ids)
unfolding targets
targets-connect sub hub lane fresh named =
    rw
      (
        other,
        any-append (λ x. x.ws == sub.ws) (connect sub hub lane) (connect sub hub all_lanes),
        has-connect sub hub lane (fresh lane),
        has-connect sub hub all_lanes (fresh all_lanes),
      )
      (lane_keys_iff sub.lane_ids lane)
  where
    other : str_eq lane "" ≡ false
    other = elim (Bool-cases (str_eq lane "")) [
      | inl e ↦ absurd (named ((eq_iff lane "").0 e))
      | inr e ↦ e
    ]
