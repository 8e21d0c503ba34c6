-- ===== src/System/Exclusive.antt =====
-- What the services keep of each other's work: stored matches own their tickets.
use rivalry.Prelude.{String, ◌≡◌, Option, some, List, [], ◌∷◌}
use rivalry.Platform.View.{View, ticket_assignments}
use rivalry.Platform.Store.{IsReliable}
use rivalry.Platform.Env.{Env, IsSound}
use rivalry.System.{Outside, Event, asked, woken, forwarded, batched, announced, handle, run}
use rivalry.System.Acts.{stays, Goes, Goes-unless_panic}
use rivalry.System.Handlers.{IsQuiet, match_player-Runs, on_update-Runs, publish_accumulated-Runs}
use rivalry.System.Backends.{matcher-Goes}
use rivalry.System.Dispatch.{dispenser-Goes}
use rivalry.System.Keeps.{AreOwned, AreExclusive, Keeps, Runs-Keeps}

module _ {W S : Type 0} {v : View W} {env : Env W S} (sound : IsSound v env)
    (reliable : IsReliable v env.kv_store) (outside : Outside W)
    (quiet : IsQuiet v env outside) where
  handle-Goes : (e : Event S) (w : W) → Goes v env (λ w'. w') w (handle env outside e w)
  unfolding handle
  handle-Goes (asked service req) w = match_player-Runs sound outside quiet service req w
  handle-Goes (woken k) w = on_update-Runs sound outside quiet k w
  handle-Goes (forwarded queue sts) w = publish_accumulated-Runs sound outside quiet queue sts w
  handle-Goes (batched b) w = matcher-Goes sound outside quiet b w
  handle-Goes (announced match_id) w = dispenser-Goes sound outside quiet match_id w

  run-Goes : (es : List (Event S)) (w : W) → Goes v env (λ w'. w') w (run env outside es w)
  unfolding run
  run-Goes [] w = stays
  run-Goes (e ∷ es) w =
      Goes-unless_panic v env (λ w'. w') (λ w'. w') (run env outside es) w _ (handle-Goes e w)
        (run-Goes es)

  run-Keeps :
      (es : List (Event S)) (w w' : W) → run env outside es w ≡ some w' → Keeps sound reliable w w'
  run-Keeps es w w' e = Runs-Keeps sound reliable w w' (rw e at (run-Goes es w))

  -- Whatever the services handle, in any order and up to a panic, with a store whose deletions go
  -- through and whose failed writes did nothing, and with services outside that leave the store alone: if
  -- each stored match owned all of its tickets, each does at the end, and two stored matches that share a
  -- ticket are one.
  pub run-AreOwned :
      (es : List (Event S)) (w w' : W)
      → run env outside es w ≡ some w'
      → AreOwned v env w
      → AreOwned v env w' × AreExclusive v env w'
  run-AreOwned es w w' e owned = let now = (run-Keeps es w w' e).0 owned in (now, apart now)
    where
      one_owner : (i j : String) (o : Option String) → o ≡ some i → o ≡ some j → i ≡ j
      one_owner i j o p q = cc

      apart : AreOwned v env w' → AreExclusive v env w'
      apart now i j m n k at_i at_j in_m in_n =
          one_owner i j (v.entry w' ticket_assignments k) (now i m at_i k in_m)
            (now j n at_j k in_n)

  -- Under the same conditions a ticket that a match owns is owned by that match ever after.
  pub run-owner :
      (es : List (Event S)) (w w' : W) (k i : String)
      → run env outside es w ≡ some w'
      → v.entry w ticket_assignments k ≡ some i
      → v.entry w' ticket_assignments k ≡ some i
  run-owner es w w' k i e at = (run-Keeps es w w' e).1 k i at
