-- ===== src/Sample/Cluster.antt =====
-- A Kubernetes cluster in memory, which always answers and validates names, and a profile with the queues "duel" and
-- "team" for its namespace "games".
use Prim.Native.Char.{code}
use rivalry.Prelude.{
  String, ℕ, pos, leb, ◌||◌, ◌≡◌, ◌≢◌, refl, ap, inl, Bool, true, false, Option, none, some, [],
  ◌∷◌, ◌==◌, ◌&&◌, if◌then◌else◌,
}
use rivalry.Prelude.Results.{Result, ok, err, Error, not_found, external}
use rivalry.Operator.Grows.{
  IsAmong, here, there, IsBuilt, IsAdmitted, dispenser, accumulator, matcher, frontend,
}
use rivalry.Operator.{
  dispenser_of, accumulator_of, matcher_of, frontend_of, frontend_service_of, accumulator_name,
  matcher_name,
}
use rivalry.Operator.Profiles.{Profile, MatchmakingQueue}
use rivalry.Operator.Cluster.{
  Kubernetes, ClusterView, IsKubernetes, IsWorking, Admission, Objects, Deployment, Service,
  CreatesDeployment, CreatesService, Finds, with_object, template_name,
}

pub record ClusterMemory : Type 0 where
  pub deployments : Objects Deployment
  pub services : Objects Service

abbrev pub view : ClusterView ClusterMemory
view = record { deployments = λ w. w.deployments; services = λ w. w.services }

abbrev pub queue : String → MatchmakingQueue
queue n = record {
  name = n;
  matchmaker_target = "pairs:50051";
  max_tickets = pos 4;
  max_delay = pos 0;
}

abbrev pub profile : Profile
profile = record {
  name = "arena";
  namespace = "games";
  spec = record {
    nats_address = "nats:4222";
    redis_address = "redis:6379";
    frontend_service = record { image = "frontend:1" };
    accumulator_service = record { image = "accumulator:1" };
    matcher_service = record { image = "matcher:1" };
    dispenser_service = record { image = "dispenser:1"; assignment_target = "servers:50051" };
    matchmaking_queues = queue "duel" ∷ queue "team" ∷ [];
  };
}

abbrev between : ℕ → ℕ → ℕ → Bool
between a b n = leb a n && leb n b

abbrev is_alphanumeric : ℕ → Bool
is_alphanumeric n = between b'a' b'z' n || between b'0' b'9' n

-- A name of Kubernetes, after a character that may end it or not.
is_name_after : Bool → String → Bool
is_name_after may_end String.[] = may_end
is_name_after may_end (String.◌∷◌ c s) =
    (is_alphanumeric (code c) && is_name_after true s)
    || (may_end && between b'-' b'-' (code c) && is_name_after false s)

-- Letters of the lower case, digits and hyphens, and no hyphen at either end.
unfoldable pub is_name : String → Bool
unfolding is_name_after
is_name s = is_name_after false s

abbrev pub admission : Admission
admission = record { deployment = λ d. is_name d.name; service = λ s. is_name s.name }

abbrev answer : {A : Type 0} → ClusterMemory → Option A → Result A × ClusterMemory
answer w none = (err not_found, w)
answer w (some a) = (ok a, w)

abbrev create_deployment_if :
    Deployment → ClusterMemory → Option Deployment → Result (Unit {0}) × ClusterMemory
create_deployment_if d w none =
    (ok tt, record w { deployments = with_object d.namespace d.name d w.deployments })
create_deployment_if d w (some _) = (err (external "AlreadyExists"), w)

abbrev create_service_if :
    Service → ClusterMemory → Option Service → Result (Unit {0}) × ClusterMemory
create_service_if s w none =
    (ok tt, record w { services = with_object s.namespace s.name s w.services })
create_service_if s w (some _) = (err (external "AlreadyExists"), w)

abbrev create_admitted : {W : Type 0} → Bool → W → Result (Unit {0}) × W → Result (Unit {0}) × W
create_admitted true w o = o
create_admitted false w o = (err (external "Invalid"), w)

abbrev is_not_found : Error → Bool
is_not_found not_found = true
is_not_found _ = false

abbrev pub kubernetes : Kubernetes ClusterMemory
kubernetes = record {
  get_profile = λ n j w. answer w (if n == "games" && j == "arena" then some profile else none);
  get_deployment = λ n j w. answer w (w.deployments n j);
  get_service = λ n j w. answer w (w.services n j);
  create_deployment = λ d w.
      create_admitted (is_name d.name) w
        (create_deployment_if d w (w.deployments d.namespace d.name));
  create_service = λ s w.
      create_admitted (is_name s.name) w (create_service_if s w (w.services s.namespace s.name));
  is_not_found = is_not_found;
  unmarshal_deployment = λ t. ok (record {
    name = template_name t;
    namespace = "";
    app = template_name t;
    image = "latest";
    args = [];
    owner = none;
  });
  unmarshal_service = λ t.
      ok (record { name = template_name t; namespace = ""; app = template_name t; owner = none });
  own_deployment = λ p d. ok (record d { owner = some p.name });
  own_service = λ p s. ok (record s { owner = some p.name });
}

-- Nothing but a dispenser, which somebody else made.
abbrev pub other_dispenser : Deployment
other_dispenser = record {
  name = "rivalry-dispenser";
  namespace = "games";
  app = "other";
  image = "other:1";
  args = [];
  owner = none;
}

abbrev pub start : ClusterMemory
start = record {
  deployments =
      λ n j. if n == "games" && j == "rivalry-dispenser" then some other_dispenser else none;
  services = λ _ _. none;
}

answer-Finds :
    {A : Type 0} (objects : ClusterMemory → Objects A) (n j : String) (w : ClusterMemory)
    (o : Option A)
    → objects w n j ≡ o
    → Finds view is_not_found objects n j w (answer w o)
answer-Finds objects n j w none e = ((λ _. e), (refl, refl))
answer-Finds objects n j w (some a) e = (e, (refl, refl))

created_deployment :
    (d : Deployment) (w : ClusterMemory) (o : Option Deployment)
    → w.deployments d.namespace d.name ≡ o
    → CreatesDeployment view is_not_found d w (create_deployment_if d w o)
created_deployment d w none e = (e, refl, refl)
created_deployment d w (some _) e = inl (refl, refl)

created_service :
    (s : Service) (w : ClusterMemory) (o : Option Service)
    → w.services s.namespace s.name ≡ o
    → CreatesService view is_not_found s w (create_service_if s w o)
created_service d w none e = (e, refl, refl)
created_service d w (some _) e = inl (refl, refl)

deployment_if_admitted :
    (b : Bool) (d : Deployment) (w : ClusterMemory) (o : Result (Unit {0}) × ClusterMemory)
    → CreatesDeployment view is_not_found d w o
    → CreatesDeployment view is_not_found d w (create_admitted b w o)
deployment_if_admitted true d w o h = h
deployment_if_admitted false d w o h = inl (refl, refl)

service_if_admitted :
    (b : Bool) (s : Service) (w : ClusterMemory) (o : Result (Unit {0}) × ClusterMemory)
    → CreatesService view is_not_found s w o
    → CreatesService view is_not_found s w (create_admitted b w o)
service_if_admitted true s w o h = h
service_if_admitted false s w o h = inl (refl, refl)

get_profile-same : (w : ClusterMemory) (o : Option Profile) → (answer w o).1 ≡ w
get_profile-same w none = refl
get_profile-same w (some _) = refl

of_ok : {A : Type 0} {a b : A} → Result.ok a ≡ ok b → b ≡ a
of_ok e = cc

pub kubernetes-IsKubernetes : IsKubernetes view kubernetes
kubernetes-IsKubernetes = record {
  get_deployment_lem = λ n j w. answer-Finds view.deployments n j w (w.deployments n j) refl;
  get_service_lem = λ n j w. answer-Finds view.services n j w (w.services n j) refl;
  get_profile_lem = λ n j w. rw (get_profile-same w _) (refl, refl);
  create_deployment_lem = λ d w.
      deployment_if_admitted (is_name d.name) d w _
        (created_deployment d w (w.deployments d.namespace d.name) refl);
  create_service_lem = λ s w.
      service_if_admitted (is_name s.name) s w _
        (created_service s w (w.services s.namespace s.name) refl);
  unmarshal_deployment_lem = λ t d e. rw (of_ok e) (refl, refl);
  unmarshal_service_lem = λ t s e. rw (of_ok e) (refl, refl);
  own_deployment_lem = λ p d d' e. of_ok e;
  own_service_lem = λ p s s' e. of_ok e;
}

missing :
    {A : Type 0} (w w' : ClusterMemory) (o : Option A) (e : Error)
    → answer w o ≡ (err e, w')
    → is_not_found e ≡ true
missing {A = A} w w' none e h = is_that _ refl (ap (λ r. r.0) h)
  where
    is_that : (r : Result A) → r ≡ err not_found → r ≡ err e → is_not_found e ≡ true
    is_that r q q' = let same : e ≡ not_found = cc (q, q') in ap is_not_found same
missing w w' (some a) e h = absurd (ok_is_ok (ap (λ r. r.0) h))
  where
    ok_is_ok : Result.ok a ≢ err e
    ok_is_ok q = cc

pub kubernetes-IsWorking : IsWorking view kubernetes admission
kubernetes-IsWorking = record {
  get_deployment_answers = λ n j w w' e. missing w w' (w.deployments n j) e;
  get_service_answers = λ n j w w' e. missing w w' (w.services n j) e;
  create_deployment_answers = λ d w admitted free. rw (admitted, free) refl;
  create_service_answers = λ s w admitted free. rw (admitted, free) refl;
  unmarshal_deployment_answers = λ t _. (_, refl);
  unmarshal_service_answers = (_, refl);
  own_deployment_answers = λ p d _ _. (_, refl);
  own_service_answers = λ p s _ _. (_, refl);
}

duel_or_team :
    (P : MatchmakingQueue → Type 0) {mp : MatchmakingQueue}
    → IsAmong mp (queue "duel" ∷ queue "team" ∷ [])
    → P (queue "duel")
    → P (queue "team")
    → P mp
duel_or_team P here d t = d
duel_or_team P (there here) d t = t
duel_or_team P (there (there none_left)) d t = elim none_left [ ]

deployment_admitted : (d : Deployment) → IsBuilt kubernetes profile d → is_name d.name ≡ true
unfolding is_name dispenser_of accumulator_of matcher_of frontend_of accumulator_name matcher_name
deployment_admitted d (dispenser s m e) = rw (e, of_ok m) refl
deployment_admitted d (accumulator mp s among m e) =
    rw e (duel_or_team (λ q. is_name (accumulator_name q) ≡ true) among refl refl)
deployment_admitted d (matcher mp s among m e) =
    rw e (duel_or_team (λ q. is_name (matcher_name q) ≡ true) among refl refl)
deployment_admitted d (frontend s m e) = rw (e, of_ok m) refl

pub profile-IsAdmitted : IsAdmitted kubernetes profile admission
unfolding is_name frontend_service_of
profile-IsAdmitted = record {
  admits_deployments = deployment_admitted;
  admits_service = λ s (t, m, e). rw (e, of_ok m) refl;
}
