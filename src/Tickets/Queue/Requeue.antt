-- ===== src/Tickets/Queue/Requeue.antt =====
-- What `RequeueMatchRequests` puts back on the stream.
use rivalry.Prelude.{
  String, ◌≡◌, refl, sym, ap, ◌∙◌, ◌⊎◌, inl, inr, true, false, Option, none, some, List, [], ◌∷◌,
  ◌++◌, append-nil, append_assoc, Map, lookup, leb, contains, map, if◌then◌else◌, eq_refl, arith,
  Bool-cases,
}
use rivalry.Prelude.Results.{Result, ok, err, Error, unless_panic}
use rivalry.Wire.Streams.{StreamTicket}
use rivalry.Platform.View.{View, IsSame, ticket_assignments}
use rivalry.Platform.Env.{Env, IsSound}
use rivalry.Tickets.{get_match_request_topic, publish_stream_ticket}
use rivalry.Tickets.Publish.{SendsTicket, publish_stream_ticket_lem}
use rivalry.Tickets.Queue.{ids_of, non_nil, unallocated, republish, requeue, requeue_match_requests}
use rivalry.Tickets.Queue.Owners.{is_none, has-empty, has-unallocated, ReadsOwners, reads_owners}

-- The tickets that no match owns, in their order.
abbrev pub unowned : {W : Type 0} → View W → W → List StreamTicket → List StreamTicket
unowned v w [] = []
unowned v w (t ∷ ts) =
    if is_none (v.entry w ticket_assignments t.match_request_id)
    then t ∷ unowned v w ts
    else unowned v w ts

module _ {W S : Type 0} (env : Env W S) where
  -- The messages for a list of tickets: one for each, on the topic of its queue, but for those
  -- whose publication failed.
  pub data AreRepublished : List StreamTicket → List (String × String) → Type 0 where
    done : AreRepublished [] []
    sent_one :
        {t : StreamTicket} {ts : List StreamTicket} {b : String} {ms : List (String × String)}
        → env.stream_tickets.unmarshal b ≡ ok t
        → AreRepublished ts ms
        → AreRepublished (t ∷ ts) ((get_match_request_topic t.matchmaking_queue, b) ∷ ms)
    failed_one :
        {t : StreamTicket} {ts : List StreamTicket} {ms : List (String × String)} (w w' : W)
        (e : Error)
        → publish_stream_ticket env t w ≡ (err e, w')
        → AreRepublished ts ms
        → AreRepublished (t ∷ ts) ms

-- The store is left alone. Either the owners could not be read, and nothing is sent; or the
-- tickets without an owner are republished, and no other.
abbrev pub Requeues : {W S : Type 0} → View W → Env W S → List StreamTicket → W → W → Type 0
Requeues {W} v env ts w w' =
    (v.entry w' ≡ v.entry w)
    × (v.published w' ≡ v.published w)
    × (((w1 w2 : W) × (e : Error) × (env.kv_store.mget "ticket_assignments" (ids_of ts) w1
            ≡ (err e, w2))
          × (v.sent w' ≡ v.sent w))
        ⊎ ((ms : List (String × String)) × (v.sent w' ≡ v.sent w ++ ms)
            × AreRepublished env (unowned v w ts) ms))

-- A stretch that republishes the tickets `ts` and changes nothing else.
abbrev Republishes : {W S : Type 0} → View W → Env W S → List StreamTicket → W → W → Type 0
Republishes v env ts w w' =
    (v.entry w' ≡ v.entry w)
    × (v.published w' ≡ v.published w)
    × ((ms : List (String × String)) × (v.sent w' ≡ v.sent w ++ ms) × AreRepublished env ts ms)

non_nil-some : (ts : List StreamTicket) → non_nil (map some ts) ≡ some ts
unfolding non_nil
non_nil-some [] = refl
non_nil-some (t ∷ ts) = rw (non_nil-some ts) refl

module _ {W S : Type 0} {v : View W} {env : Env W S} (sound : IsSound v env) where
  after_publish :
      (w0 w : W) (t : StreamTicket) (ts : List StreamTicket) (w2 : W) (o : Result (Unit {0}) × W)
      → publish_stream_ticket env t w ≡ o
      → SendsTicket v env t w o
      → Republishes v env ts o.1 w2
      → Republishes v env (t ∷ ts) w w2
  after_publish w0 w t ts w2 (ok _, w1) h (b, u, e, s, p) (e', p', (ms, s', r)) = (
    e' ∙ e,
    p' ∙ p,
    (
      (get_match_request_topic t.matchmaking_queue, b) ∷ ms,
      s' ∙ ap (λ l. l ++ ms) s ∙ append_assoc (v.sent w) _ ms,
      AreRepublished.sent_one u r,
    ),
  )
  after_publish w0 w t ts w2 (err z, w1) h (e, s, p) (e', p', (ms, s', r)) =
      (e' ∙ e, p' ∙ p, (ms, s' ∙ ap (λ l. l ++ ms) s, AreRepublished.failed_one w w1 z h r))

  republish-Republishes :
      (requeue_ids : S) (w0 : W) (ts : List StreamTicket) (w : W)
      → ((k : String)
          → contains k (ids_of ts) ≡ true
          → env.sets.has k requeue_ids ≡ is_none (v.entry w0 ticket_assignments k))
      → Republishes v env (unowned v w0 ts) w (republish env requeue_ids ts w)
  unfolding republish
  republish-Republishes requeue_ids w0 [] w h =
      (refl, refl, ([], sym (append-nil (v.sent w)), AreRepublished.done))
  republish-Republishes requeue_ids w0 (t ∷ ts) w h =
      elim (Bool-cases (is_none (v.entry w0 ticket_assignments t.match_request_id))) [
        | inl free ↦
            rw (h t.match_request_id (rw (eq_refl t.match_request_id)), free)
              (after_publish w0 w t (unowned v w0 ts) _ _ refl (publish_stream_ticket_lem sound t w)
                (republish-Republishes requeue_ids w0 ts _ later))
        | inr owned ↦
            rw (h t.match_request_id (rw (eq_refl t.match_request_id)), owned)
              (republish-Republishes requeue_ids w0 ts w later)
      ]
    where
      later :
          (k : String)
          → contains k (ids_of ts) ≡ true
          → env.sets.has k requeue_ids ≡ is_none (v.entry w0 ticket_assignments k)
      later k c = h k (ground arith)

  unowned-nil :
      (w : W) (ts : List StreamTicket)
      → ((k : String)
          → contains k (ids_of ts) ≡ true
          → is_none (v.entry w ticket_assignments k) ≡ false)
      → unowned v w ts ≡ []
  unowned-nil w [] h = refl
  unowned-nil w (t ∷ ts) h =
      rw (h t.match_request_id (rw (eq_refl t.match_request_id)))
        (unowned-nil w ts λ k c. h k (ground arith))

  -- After the owners were read.
  after_read :
      (ts : List StreamTicket) (w : W) (found : Map String)
      → ((k : String)
          → lookup k found
            ≡ (if contains k (ids_of ts) then v.entry w ticket_assignments k else none))
      → let requeue_ids = unallocated env found (ids_of ts) env.sets.new_set in
        Republishes v env
          (unowned v w ts)
          w
          (if leb (env.sets.cardinality requeue_ids) 0 then w else republish env requeue_ids ts w)
  after_read ts w found read =
      let requeue_ids = unallocated env found (ids_of ts) env.sets.new_set in
      elim (Bool-cases (leb (env.sets.cardinality requeue_ids) 0)) [
        | inl empty ↦ rw empty (
            rw
              (unowned-nil w ts
                λ k c. sym (members k c) ∙ has-empty sound.sets_lem requeue_ids empty k)
              (refl, refl, ([], sym (append-nil (v.sent w)), AreRepublished.done)))
        | inr some_left ↦ rw some_left (republish-Republishes requeue_ids w ts w members)
      ]
    where
      members :
          (k : String)
          → contains k (ids_of ts) ≡ true
          → env.sets.has k (unallocated env found (ids_of ts) env.sets.new_set)
            ≡ is_none (v.entry w ticket_assignments k)
      members k c = ground (
        arith,
        has-unallocated sound found (ids_of ts) env.sets.new_set k,
        sound.sets_lem.has-new_set k,
        read k,
      )

  unowned-same :
      (w w' : W) (ts : List StreamTicket)
      → v.entry w' ≡ v.entry w
      → unowned v w' ts ≡ unowned v w ts
  unowned-same w w' [] e = refl
  unowned-same w w' (t ∷ ts) e = rw (e, unowned-same w w' ts e)

  requeue-Requeues : (ts : List StreamTicket) (w : W) → Requeues v env ts w (requeue env ts w)
  unfolding requeue ReadsOwners
  requeue-Requeues ts w = after _ (reads_owners sound ts w)
    where
      put_back :
          (w1 w2 : W)
          → IsSame v w w1
          → Republishes v env (unowned v w1 ts) w1 w2
          → Requeues v env ts w w2
      put_back w1 w2 (e, s, p) (e', p', (ms, s', r)) =
          (e' ∙ e, p' ∙ p, inr (ms, s' ∙ ap (λ l. l ++ ms) s, rw (← unowned-same w w1 ts e) r))

      after :
          (o : Result (Map String) × W)
          → ReadsOwners sound ts w o
          → Requeues v env ts w (elim o.0 [
            | err e ↦ o.1
            | ok found ↦
                let requeue_ids = unallocated env found (ids_of ts) env.sets.new_set in
                if leb (env.sets.cardinality requeue_ids) 0
                then o.1
                else republish env requeue_ids ts o.1
          ])
      after (ok found, w1) (read, q) = put_back w1 _ q (after_read ts w1 found read)
      after (err _, w1) ((w2, w3, e, h), (e', s, p)) = (e', p, inl (w2, w3, e, h, s))

  -- For tickets of which none is nil, `RequeueMatchRequests` returns, and the store is as before.
  -- Either the read of the owners failed, and nothing is sent; or one message is sent for each
  -- ticket without an owner, in their order and on the topic of its queue, but for those whose
  -- publication failed, and none for another ticket.
  pub requeue_match_requests_lem :
      (ts : List StreamTicket) (w : W)
      → (w' : W) × (requeue_match_requests env (map some ts) w ≡ some w') × Requeues v env ts w w'
  unfolding requeue_match_requests
  requeue_match_requests_lem ts w =
      (requeue env ts w, rw (requeue_match_requests, non_nil-some ts) refl, requeue-Requeues ts w)

  -- Where `RequeueMatchRequests` does not panic, the store is as before.
  pub entry-requeue_match_requests :
      (tickets : List (Option StreamTicket)) (w w' : W)
      → requeue_match_requests env tickets w ≡ some w'
      → v.entry w' ≡ v.entry w
  unfolding requeue_match_requests
  entry-requeue_match_requests tickets w w' e = all_there (non_nil tickets) e
    where
      same : (a b : W) → v.entry a ≡ v.entry w → some a ≡ some b → v.entry b ≡ v.entry w
      same a b q e = cc

      all_there :
          (o : Option (List StreamTicket))
          → unless_panic (λ ts. some (requeue env ts w)) o ≡ some w'
          → v.entry w' ≡ v.entry w
      all_there none e = cc
      all_there (some ts) e = same (requeue env ts w) w' (requeue-Requeues ts w).0 e
