-- ===== src/Matches.antt =====
-- internal/managers/matches/matches.go: the life of a match, from the tickets that it takes to the
-- message that asks for a game server.
pub mod Touched
pub mod Create
pub mod Rollback
pub mod Ownership
pub mod Received
mod Tests
use rivalry.Prelude.{
  String, Bool, true, false, Option, none, some, List, [], ◌∷◌, ◌==◌, if◌then◌else◌,
}
use rivalry.Prelude.Results.{
  Action, Result, ok, err, pure, lift, and_then, ◌>>=◌, ◌>>◌, if_failed, deferred,
}
use rivalry.Wire.Api
use rivalry.Wire.Api.{Match}
use rivalry.Platform.Backoff.{retry, exponential}
use rivalry.Platform.Env.{Env}
use rivalry.Tickets.Matching.{assign_match_requests_to_match, release_match_requests_from_match}

abbrev pub unassigned_matches_topic : String
unassigned_matches_topic = "match"

module _ {W S : Type 0} (env : Env W S) where
  open env use {kv_store, stream_client, backoff}

  unfoldable pub get_match : String → Action W Match
  get_match match_id = do
    found ← kv_store.get "matches" match_id
    lift (env.matches.unmarshal found)

  -- The end of `CreateMatch`: the message, and the second deferred function.
  announce : Match → Action W Bool
  announce m =
      deferred (kv_store.del "matches" (m.match_id ∷ []))
        (stream_client.send_message unassigned_matches_topic m.match_id >> pure true)

  -- `CreateMatch` once the tickets are taken, up to the end.
  store_match : Match → Action W Bool
  store_match m = do
    match_bytes ← lift (env.matches.marshal m)
    kv_store.set "matches" m.match_id match_bytes 0
    announce m

  -- `CreateMatch` after the call that takes the tickets; the first deferred function gives them
  -- back.
  store_if_taken : Match → Bool → Action W Bool
  unfolding store_match
  store_if_taken m false = pure false
  store_if_taken m true = deferred (release_match_requests_from_match env m) (store_match m)

  -- `CreateMatch` for a match that has an identifier.
  create_identified : Match → Action W Bool
  create_identified m = do
    successful ← assign_match_requests_to_match env m
    store_if_taken m successful

  -- `if len(match.MatchId) == 0 { match.MatchId = xid.New().String() }`
  unfoldable pub identify : Match → W → Match × W
  identify m w =
      let (fresh, w') = env.new_id w in
      if m.match_id == "" then (record m { match_id = fresh }, w') else (m, w)

  unfoldable pub create_match : Match → Action W Bool
  unfolding create_identified store_if_taken announce
  create_match m w = let (m', w') = identify m w in create_identified m' w'

  pub stream_matches : Action W (Unit {0})
  stream_matches = stream_client.subscribe unassigned_matches_topic

  -- What the callback of `StreamMatches` does with what it read: the callback that it calls is
  -- handed nil where the match could not be read, and may panic.
  unfoldable pub hand_over : (Option Match → W → Option W) → Result Match × W → Option W
  hand_over f (ok m, w) = f (some m) w
  hand_over f (err e, w) = f none w

  -- The callback of `StreamMatches`.
  unfoldable pub match_received : (Option Match → W → Option W) → String → W → Option W
  unfolding hand_over
  match_received f match_id w =
      hand_over f (retry backoff (get_match match_id) (exponential backoff ∷ []) w)

  unfoldable pub requeue : String → Action W (Unit {0})
  requeue match_id = stream_client.send_message unassigned_matches_topic match_id
