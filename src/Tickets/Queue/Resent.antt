-- ===== src/Tickets/Queue/Resent.antt =====
-- Where the stream takes each message and the owners can be read, a ticket that is requeued is owned
-- by a match or back on the stream.
use rivalry.Prelude.{
  Option, String, ◌≡◌, ◌≢◌, refl, sym, ap, ◌∙◌, ◌⊎◌, inl, inr, some, none, List, [], ◌∷◌, ◌++◌, Map,
  map, IsIn, All, All-IsIn, if◌then◌else◌,
}
use rivalry.Prelude.Results.{Result, ok, err, Error}
use rivalry.Wire.Streams.{StreamTicket}
use rivalry.Platform.View.{View, ticket_assignments}
use rivalry.Platform.Backoff.{Attempts-cases, retry-Attempts, exponential}
use rivalry.Platform.Env.{Env, IsSound}
use rivalry.Tickets.{get_match_request_topic, send_stream_ticket, publish_stream_ticket}
use rivalry.Tickets.Queue.{ids_of, requeue_match_requests}
use rivalry.Tickets.Queue.Owners.{is_none}
use rivalry.Tickets.Queue.Requeue.{
  unowned, AreRepublished, Requeues, requeue_match_requests_lem, done, sent_one, failed_one,
}

-- The stream takes each message, and the owners of tickets can be read.
pub record IsAnswering {W S : Type 0} (env : Env W S) : Type 0 where
  pub send_done :
      (topic b : String) (w : W)
      → (w' : W) × (env.stream_client.send_message topic b w ≡ (ok tt, w'))
  pub mget_done :
      (ks : List String) (w : W)
      → (found : Map String) × (w' : W) × (env.kv_store.mget "ticket_assignments" ks w
          ≡ (ok found, w'))

module _ {W S : Type 0} (env : Env W S) where
  abbrev pub CanMarshal : StreamTicket → Type 0
  CanMarshal t = (b : String) × (env.stream_tickets.marshal t ≡ ok b)

  -- One of the messages is the ticket, on the topic of its queue.
  abbrev pub IsAmong : StreamTicket → List (String × String) → Type 0
  IsAmong t ms =
      (b : String) × (env.stream_tickets.unmarshal b ≡ ok t)
      × IsIn (get_match_request_topic t.matchmaking_queue, b) ms

abbrev pub HasOwner : {W : Type 0} → View W → String → W → Type 0
HasOwner v k w = v.entry w ticket_assignments k ≢ none

-- What was requeued is owned or was sent, and nothing else has changed.
abbrev pub Resends : {W S : Type 0} → View W → Env W S → List StreamTicket → W → W → Type 0
Resends v env ts w w' =
    (v.entry w' ≡ v.entry w)
    × ((ms : List (String × String)) × (v.sent w' ≡ v.sent w ++ ms)
        × ((t : StreamTicket) → IsIn t ts → HasOwner v t.match_request_id w ⊎ IsAmong env t ms))

impossible :
    {W A : Type 0} {a : A} {e : Error} {w w' : W} → ◌≢◌ {A = Result A × W} (ok a, w) (err e, w')
impossible h = cc

module _ {W S : Type 0} {v : View W} {env : Env W S} (sound : IsSound v env)
    (answering : IsAnswering env) where
  send_done :
      (t : StreamTicket) (w w' : W) (e : Error)
      → CanMarshal env t
      → send_stream_ticket env t w ≢ (err e, w')
  unfolding send_stream_ticket
  send_done t w w' e (b, m) q =
      let (w1, s) = answering.send_done (get_match_request_topic t.matchmaking_queue) b w in
      let sent : send_stream_ticket env t w ≡ (ok tt, w1) = rw (m, s) refl in
      impossible (sym sent ∙ q)

  publish_done :
      (t : StreamTicket) (w w' : W) (e : Error)
      → CanMarshal env t
      → publish_stream_ticket env t w ≢ (err e, w')
  unfolding publish_stream_ticket
  publish_done t w w' e can q = rw q at (
      Attempts-cases (λ _. Unit {0}) Goes (λ _ _ _ _ _. tt)
        (λ w1 _ x w2 f. absurd (send_done t w1 w2 x can f)) tt
        (retry-Attempts env.backoff sound.backoff_lem (send_stream_ticket env t)
          (exponential env.backoff ∷ []) w))
    where
      Goes : Result (Unit {0}) × W → Type 0
      Goes (ok _, _) = Unit
      Goes (err _, _) = ⊥

  IsIn-unowned :
      (w : W) (t : StreamTicket) (ts : List StreamTicket)
      → IsIn t ts
      → HasOwner v t.match_request_id w ⊎ IsIn t (unowned v w ts)
  IsIn-unowned w t [] i = absurd i
  IsIn-unowned w t (u ∷ ts) i =
      at_head (v.entry w ticket_assignments u.match_request_id) refl i (IsIn-unowned w t ts)
    where
      further :
          HasOwner v t.match_request_id w ⊎ IsIn t (unowned v w ts)
          → HasOwner v t.match_request_id w ⊎ IsIn t (u ∷ unowned v w ts)
      further (inl owned) = inl owned
      further (inr i) = inr (inr i)

      at_head :
          (o : Option String)
          → v.entry w ticket_assignments u.match_request_id ≡ o
          → (t ≡ u) ⊎ IsIn t ts
          → (IsIn t ts → HasOwner v t.match_request_id w ⊎ IsIn t (unowned v w ts))
          → HasOwner v t.match_request_id w
            ⊎ IsIn t (if is_none o then u ∷ unowned v w ts else unowned v w ts)
      at_head none e (inl same) rest = inr (inl same)
      at_head none e (inr i) rest = further (rest i)
      at_head (some x) e (inl same) rest = inl λ free. cc (same, e, free)
      at_head (some x) e (inr i) rest = rest i

  AreRepublished-IsAmong :
      (t : StreamTicket) (ts : List StreamTicket) (ms : List (String × String))
      → IsIn t ts
      → CanMarshal env t
      → AreRepublished env ts ms
      → IsAmong env t ms
  AreRepublished-IsAmong t _ _ i can done = absurd i
  AreRepublished-IsAmong t _ _ (inl same) can (sent_one {b = b} u more) = (
    b,
    u ∙ ap ok (sym same),
    inl (ap (λ x. (get_match_request_topic x.matchmaking_queue, b)) same),
  )
  AreRepublished-IsAmong t _ _ (inr i) can (sent_one u more) =
      let (b, r, j) = AreRepublished-IsAmong t _ _ i can more in (b, r, inr j)
  AreRepublished-IsAmong t _ _ (inl same) can (failed_one w w' e f more) =
      absurd (publish_done t w w' e can (ap (λ x. publish_stream_ticket env x w) same ∙ f))
  AreRepublished-IsAmong t _ _ (inr i) can (failed_one w w' e f more) =
      AreRepublished-IsAmong t _ _ i can more

  pub requeue-Resends :
      (ts : List StreamTicket) (w : W)
      → All (CanMarshal env) ts
      → (w' : W) × (requeue_match_requests env (map some ts) w ≡ some w') × Resends v env ts w w'
  requeue-Resends ts w can =
      let (w', e, r) = requeue_match_requests_lem sound ts w in (w', e, resends w' r)
    where
      sent :
          (w' : W)
          → v.entry w' ≡ v.entry w
          → (ms : List (String × String)) → v.sent w' ≡ v.sent w ++ ms
          → AreRepublished env (unowned v w ts) ms
          → Resends v env ts w w'
      sent w' e ms s r = (e, (ms, s, λ t i. among t i (IsIn-unowned w t ts i)))
        where
          among :
              (t : StreamTicket)
              → IsIn t ts
              → HasOwner v t.match_request_id w ⊎ IsIn t (unowned v w ts)
              → HasOwner v t.match_request_id w ⊎ IsAmong env t ms
          among t i (inl owned) = inl owned
          among t i (inr j) =
              inr (AreRepublished-IsAmong t _ ms j (All-IsIn (CanMarshal env) t ts can i) r)

      resends : (w' : W) → Requeues v env ts w w' → Resends v env ts w w'
      resends w' (e, _, inl (w1, w2, x, f, _)) =
          let (found, w3, g) = answering.mget_done (ids_of ts) w1 in absurd (impossible (sym g ∙ f))
      resends w' (e, _, inr (ms, s, r)) = sent w' e ms s r
