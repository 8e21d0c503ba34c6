-- ===== src/Nats/Tests.antt =====
-- A connection in memory: its world is the list of the topics that are subscribed to.
use rivalry.Prelude.{
  String, ◌≡◌, ◌≢◌, refl, ap, ◌⊎◌, inl, inr, true, ◌==◌, eq_iff, List, [], ◌∷◌, contains,
  if◌then◌else◌, Bool-cases, arith,
}
use rivalry.Prelude.Results.{Result, ok, err, Error}
use rivalry.Nats.{Connection, NatsStream, new_nats, subscribe_all, close, watch}
use rivalry.Nats.Closes.{IsConnection, Ends, close-subscribe_all, watch-Ends}

abbrev without : String → List String → List String
without t [] = []
without t (u ∷ us) = let rest = without t us in if u == t then rest else u ∷ rest

contains-without :
    (s t : String) (us : List String)
    → contains s (without t us) ≡ true
    → (contains s us ≡ true) × (s ≢ t)
contains-without s t [] h = cc
contains-without s t (u ∷ us) h = elim (Bool-cases (u == t)) [
  | inl gone ↦ ground (arith, contains-without s t us, eq_iff u t)
  | inr kept ↦ ground (arith, contains-without s t us, eq_iff s u, eq_iff s t, eq_iff u t)
]

abbrev opened : String → List String → Result String × List String
opened topic w = (ok topic, topic ∷ w)

abbrev connection : Connection (List String) String
connection = record {
  publish = λ _ _ w. (ok tt, w);
  queue_subscribe = λ topic _ w. opened topic w;
  subscribe = opened;
  unsubscribe = without;
  drain_subscription = λ _ w. w;
  drain = λ w. w;
  wait = λ w. w;
}

abbrev Live : List String → String → Type 0
Live w s = contains s w ≡ true

opened_lem :
    (topic : String) (w w' : List String) (sub : String)
    → opened topic w ≡ (ok sub, w')
    → (s : String) → Live w' s
    → Live w s ⊎ (s ≡ sub)
opened_lem topic w w' sub e s live =
    let is_sub : topic ≡ sub = ok_inj _ refl (ap (λ o. o.0) e) in
    let is_w : topic ∷ w ≡ w' = ap (λ o. o.1) e in
    ground (arith, ap (λ l. contains s l) is_w, eq_iff s topic, is_sub)
  where
    ok_inj : (r : Result String) → r ≡ ok topic → r ≡ ok sub → topic ≡ sub
    ok_inj r p q = cc (p, q)

never_fails : (topic : String) (w w' : List String) (e : Error) → opened topic w ≢ (err e, w')
never_fails topic w w' e h = no_error _ refl (ap (λ o. o.0) h)
  where
    no_error : (r : Result String) → r ≡ ok topic → r ≢ err e
    no_error r p q = cc (p, q)

connection-IsConnection : IsConnection Live connection
connection-IsConnection = record {
  queue_subscribe_lem = λ topic _ w w' sub e s. opened_lem topic w w' sub e s;
  queue_subscribe_failed = λ topic _ w w' x e s live. absurd (never_fails topic w w' x e);
  subscribe_lem = λ topic w w' sub e s. opened_lem topic w w' sub e s;
  subscribe_failed = λ topic w w' x e s live. absurd (never_fails topic w w' x e);
  unsubscribe_lem = λ sub w s live. contains-without s sub w live;
  drain_subscription_lem = λ sub w s live. live;
  drain_lem = λ w s live. live;
}

nothing_live : (t : String) → ¬ Live [] t
nothing_live t h = cc

abbrev subscribed : NatsStream String × List String
subscribed =
    subscribe_all connection ("match" ∷ "match_request_duel" ∷ []) (new_nats connection "om") []

close-subscribe_all_example : ¬ Live (close connection subscribed.0 subscribed.1) "match"
close-subscribe_all_example =
    close-subscribe_all connection-IsConnection ("match" ∷ "match_request_duel" ∷ []) "om" []
      "match" nothing_live

watch-Ends_example :
    Ends connection-IsConnection
      ("match" ∷ [])
      (ok "ticket_updates_a", "ticket_updates_a" ∷ "match" ∷ [])
      (watch connection "ticket_updates_a" ("match" ∷ []))
watch-Ends_example = watch-Ends connection-IsConnection "ticket_updates_a" ("match" ∷ [])

-- Another watch begins while this one lasts, and is still there after it.
abbrev busy : Connection (List String) String
busy = record connection { wait = λ w. "ticket_updates_b" ∷ w }

other_stays : (watch busy "ticket_updates_a" ("match" ∷ [])).1 ≡ "ticket_updates_b" ∷ "match" ∷ []
unfolding watch
other_stays = refl
