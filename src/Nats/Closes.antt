-- ===== src/Nats/Closes.antt =====
-- No subscription outlives its client.
use rivalry.Prelude.{String, ◌≡◌, ◌≢◌, refl, ◌⊎◌, inl, inr, List, [], ◌∷◌, ◌++◌}
use rivalry.Prelude.Results.{Result, ok, err, Error}
use rivalry.Nats.{
  Connection, NatsStream, new_nats, subscribe, remember, close, release, subscribe_all, watch,
  until_done,
}

-- What nats.go documents of the subscriptions that are live on a connection.
pub record IsConnection {W Subscription : Type 0} (Live : W → Subscription → Type 0)
    (nc : Connection W Subscription) : Type 0 where
  pub queue_subscribe_lem :
      (topic group : String) (w w' : W) (sub : Subscription)
      → nc.queue_subscribe topic group w ≡ (ok sub, w')
      → (s : Subscription) → Live w' s
      → Live w s ⊎ (s ≡ sub)
  pub queue_subscribe_failed :
      (topic group : String) (w w' : W) (e : Error)
      → nc.queue_subscribe topic group w ≡ (err e, w')
      → (s : Subscription) → Live w' s
      → Live w s
  pub subscribe_lem :
      (topic : String) (w w' : W) (sub : Subscription)
      → nc.subscribe topic w ≡ (ok sub, w')
      → (s : Subscription) → Live w' s
      → Live w s ⊎ (s ≡ sub)
  pub subscribe_failed :
      (topic : String) (w w' : W) (e : Error)
      → nc.subscribe topic w ≡ (err e, w')
      → (s : Subscription) → Live w' s
      → Live w s
  pub unsubscribe_lem :
      (sub : Subscription) (w : W) (s : Subscription)
      → Live (nc.unsubscribe sub w) s
      → Live w s × (s ≢ sub)
  pub drain_subscription_lem :
      (sub : Subscription) (w : W) (s : Subscription)
      → Live (nc.drain_subscription sub w) s
      → Live w s
  pub drain_lem : (w : W) (s : Subscription) → Live (nc.drain w) s → Live w s

abbrev IsIn : {A : Type 0} → A → List A → Type 0
IsIn a [] = ⊥
IsIn a (b ∷ l) = (a ≡ b) ⊎ IsIn a l

IsIn-append_left : {A : Type 0} (a : A) (xs ys : List A) → IsIn a xs → IsIn a (xs ++ ys)
IsIn-append_left a [] ys h = absurd h
IsIn-append_left a (x ∷ xs) ys (inl e) = inl e
IsIn-append_left a (x ∷ xs) ys (inr h) = inr (IsIn-append_left a xs ys h)

IsIn-append_one : {A : Type 0} (a b : A) (xs : List A) → a ≡ b → IsIn a (xs ++ b ∷ [])
IsIn-append_one a b [] e = inl e
IsIn-append_one a b (x ∷ xs) e = inr (IsIn-append_one a b xs e)

module _ {W Subscription : Type 0} {Live : W → Subscription → Type 0}
    {nc : Connection W Subscription} (laws : IsConnection Live nc) where
  -- The client remembers every subscription that is live.
  IsTracked : NatsStream Subscription → W → Type 0
  IsTracked n w = (s : Subscription) → Live w s → IsIn s n.subs

  subscribe-IsTracked :
      (topic : String) (n : NatsStream Subscription) (w : W)
      → IsTracked n w
      → IsTracked (subscribe nc topic n w).0.1 (subscribe nc topic n w).1
  unfolding subscribe remember IsTracked
  subscribe-IsTracked topic n w tracked = after (nc.queue_subscribe topic n.group w) refl
    where
      after :
          (o : Result Subscription × W)
          → nc.queue_subscribe topic n.group w ≡ o
          → IsTracked (remember nc n o).0.1 (remember nc n o).1
      after (ok sub, w') e s live =
          elim (laws.queue_subscribe_lem topic n.group w w' sub e s live) [
            | inl old ↦ IsIn-append_left s n.subs (sub ∷ []) (tracked s old)
            | inr new ↦ IsIn-append_one s sub n.subs new
          ]
      after (err x, w') e s live =
          tracked s (laws.queue_subscribe_failed topic n.group w w' x e s live)

  subscribe_all-IsTracked :
      (topics : List String) (n : NatsStream Subscription) (w : W)
      → IsTracked n w
      → IsTracked (subscribe_all nc topics n w).0 (subscribe_all nc topics n w).1
  unfolding subscribe_all
  subscribe_all-IsTracked [] n w tracked = tracked
  subscribe_all-IsTracked (topic ∷ topics) n w tracked =
      subscribe_all-IsTracked topics _ _ (subscribe-IsTracked topic n w tracked)

  released :
      (subs : List Subscription) (w : W) (s : Subscription)
      → Live (release nc subs w) s
      → Live w s × ¬ IsIn s subs
  unfolding release
  released [] w s live = (live, λ h. h)
  released (sub ∷ subs) w s live =
      let (before, rest) = released subs _ s live in
      let (old, other) =
        laws.unsubscribe_lem sub w s
          (laws.drain_subscription_lem sub (nc.unsubscribe sub w) s before) in
      (old, neither other rest)
    where
      neither : s ≢ sub → ¬ IsIn s subs → ¬ ((s ≡ sub) ⊎ IsIn s subs)
      neither other rest (inl e) = other e
      neither other rest (inr h) = rest h

  -- Whatever a new client of the stream subscribed to, and whichever subscriptions failed: on a
  -- connection that had none before, none is live after Close.
  pub close-subscribe_all :
      (topics : List String) (group : String) (w : W) (s : Subscription)
      → ((t : Subscription) → ¬ Live w t)
      → ¬ Live
          (close nc
            (subscribe_all nc topics (new_nats nc group) w).0
            (subscribe_all nc topics (new_nats nc group) w).1)
          s
  unfolding close new_nats IsTracked
  close-subscribe_all topics group w s fresh live =
      let (before, gone) = released _ _ s (laws.drain_lem _ s live) in
      gone
        (subscribe_all-IsTracked topics (new_nats nc group) w (λ t h. absurd (fresh t h)) s before)

  -- Each of the subscriptions is another one than `sub`, and is live in `w`.
  abbrev pub AreOthers : Subscription → W → W → Type 0
  AreOthers sub w w' = (s : Subscription) → Live w' s → Live w s × (s ≢ sub)

  -- How a watch ends, by what the broker answered.
  abbrev pub Ends : W → Result Subscription × W → Result (Unit {0}) × W → Type 0
  Ends w (ok sub, w1) (r, w2) = (r ≡ ok tt) × AreOthers sub (nc.wait w1) w2
  Ends w (err e, w1) (r, w2) = (r ≡ err e) × ((s : Subscription) → Live w2 s → Live w s)

  -- A watch of the pub-sub client that was subscribed lasts until its context is done, whatever other
  -- watches do meanwhile on the connection; it ends without an error, its own subscription is not live
  -- any more, and it added none. One that was refused ends with the broker's error and added none.
  pub watch-Ends : (topic : String) (w : W) → Ends w (nc.subscribe topic w) (watch nc topic w)
  unfolding watch until_done
  watch-Ends topic w = after (nc.subscribe topic w) refl
    where
      after : (o : Result Subscription × W) → nc.subscribe topic w ≡ o → Ends w o (until_done nc o)
      after (ok sub, w1) e = (refl, λ s live. laws.unsubscribe_lem sub (nc.wait w1) s live)
      after (err x, w1) e = (refl, λ s live. laws.subscribe_failed topic w w1 x e s live)
