-- ===== src/Api/Hub.antt =====
-- app/api/v1/ws.py: the hub that pushes messages to the open consoles. A connection is a number; a
-- send fails when the connection is dead. The order of sends, from a set, is left out.
pub mod Lanes
use loyiha.Base.{
  ℕ, Bool, true, false, not, ◌&&◌, ◌||◌, ◌==◌, Option, none, some, List, [], ◌∷◌, ◌++◌, String,
  str_eq, if◌then◌else◌, keep, any, contains, String_eq, ℕ_eq, dedup, is_empty,
}

-- `(ws, claims)`: two connections differ by their number, and the claims of one do not change
pub record Subscriber : Type 0 where
  pub ws : ℕ
  pub lane_ids : List String

-- `_subscribers`: a missing lane has nobody
abbrev pub Hub : Type 0
Hub = String → List Subscriber

abbrev pub all_lanes : String
all_lanes = "ALL"

-- `_lane_keys`
unfoldable pub lane_keys : List String → List String
lane_keys lane_ids = if is_empty lane_ids then all_lanes ∷ [] else lane_ids

abbrev pub without : ℕ → List Subscriber → List Subscriber
without ws subs = keep (λ sub. not (sub.ws == ws)) subs

-- `add`, to a set
abbrev pub with_one : Subscriber → List Subscriber → List Subscriber
with_one sub subs = if any (λ x. x.ws == sub.ws) subs then subs else sub ∷ subs

unfoldable pub connect : Subscriber → Hub → Hub
connect sub hub lane =
    if contains (lane_keys sub.lane_ids) lane then with_one sub (hub lane) else hub lane

unfoldable pub disconnect : Subscriber → Hub → Hub
disconnect sub hub lane =
    if contains (lane_keys sub.lane_ids) lane then without sub.ws (hub lane) else hub lane

-- the connections that a message of a lane goes to; an empty lane name is none
unfoldable pub targets : Hub → Option String → List Subscriber
targets hub none = hub all_lanes
targets hub (some lane) = if str_eq lane "" then hub all_lanes else hub lane ++ hub all_lanes

abbrev lane_or_all : Option String → String
lane_or_all none = all_lanes
lane_or_all (some lane) = if str_eq lane "" then all_lanes else lane

-- `broadcast_lane`: who was sent the message, and the hub without the connections that failed under
-- the message's lane
unfoldable pub broadcast_lane : (ℕ → Bool) → Hub → Option String → List Subscriber × Hub
broadcast_lane alive hub lane = (
  targets hub lane,
  λ key.
      if str_eq key (lane_or_all lane)
      then keep (λ sub. alive sub.ws || not (any (λ x. x.ws == sub.ws) (targets hub lane)))
          (hub key)
      else hub key,
)

-- `broadcast_all`, over the lanes that have a key
unfoldable pub broadcast_all : Hub → List String → List ℕ
broadcast_all hub [] = []
broadcast_all hub (lane ∷ lanes) = ids (hub lane) (broadcast_all hub lanes)
  where
    ids : List Subscriber → List ℕ → List ℕ
    ids [] rest = rest
    ids (sub ∷ subs) rest = if contains rest sub.ws then ids subs rest else ids subs (sub.ws ∷ rest)
