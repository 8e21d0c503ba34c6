-- ===== src/Operator/Cluster.antt =====
-- The Kubernetes objects that the operator makes, as far as it reads or sets them, and the calls of
-- controller-runtime and of the YAML library, which are parameters. Each embedded template has one
-- container.
use rivalry.Prelude.{
  String, ◌≡◌, ◌≢◌, ◌⊎◌, Bool, true, Option, none, some, List, ◌==◌, ◌&&◌, if◌then◌else◌,
}
use rivalry.Prelude.Results.{Action, Result, ok, err, Error}
use rivalry.Operator.Profiles.{Profile}

pub record Deployment : Type 0 where
  pub name : String
  pub namespace : String
  -- `spec.selector.matchLabels.app`, which is also the label of the pods.
  pub app : String
  pub image : String
  pub args : List String
  -- The profile that controls the object.
  pub owner : Option String

pub record Service : Type 0 where
  pub name : String
  pub namespace : String
  pub app : String
  pub owner : Option String

-- The files under cmd/operator/controllers/templates.
pub data Template : Type 0 where
  frontend_service frontend_deployment accumulator_deployment matcher_deployment : Template
  dispenser_deployment : Template

pub record Kubernetes (W : Type 0) : Type 0 where
  pub get_profile : String → String → Action W Profile
  pub get_deployment : String → String → Action W Deployment
  pub get_service : String → String → Action W Service
  pub create_deployment : Deployment → Action W (Unit {0})
  pub create_service : Service → Action W (Unit {0})
  pub is_not_found : Error → Bool
  pub unmarshal_deployment : Template → Result Deployment
  pub unmarshal_service : Template → Result Service
  pub own_deployment : Profile → Deployment → Result Deployment
  pub own_service : Profile → Service → Result Service

-- The objects of a cluster, by namespace and name.
abbrev pub Objects : Type 0 → Type 0
Objects A = String → String → Option A

abbrev pub with_object : {A : Type 0} → String → String → A → Objects A → Objects A
with_object namespace name a f n k = if namespace == n && name == k then some a else f n k

pub record ClusterView (W : Type 0) : Type 0 where
  pub deployments : W → Objects Deployment
  pub services : W → Objects Service

module _ {W : Type 0} (v : ClusterView W) (is_not_found : Error → Bool) where
  abbrev pub IsSame : W → W → Type 0
  IsSame w w' = (v.deployments w' ≡ v.deployments w) × (v.services w' ≡ v.services w)

  -- An object that is read is the one in the cluster; one that is not found is not there.
  abbrev pub Finds : {A : Type 0} → (W → Objects A) → String → String → W → Result A × W → Type 0
  Finds objects n k w (ok a, w') = (objects w n k ≡ some a) × IsSame w w'
  Finds objects n k w (err e, w') = (is_not_found e ≡ true → objects w n k ≡ none) × IsSame w w'

  -- A creation that succeeds made a new object; one that fails may have made it.
  abbrev pub CreatesDeployment : Deployment → W → Result (Unit {0}) × W → Type 0
  CreatesDeployment d w (ok _, w') =
      (v.deployments w d.namespace d.name ≡ none)
      × (v.deployments w' ≡ with_object d.namespace d.name d (v.deployments w))
      × (v.services w' ≡ v.services w)
  CreatesDeployment d w (err _, w') =
      (IsSame w w'
        ⊎ ((v.deployments w d.namespace d.name ≡ none)
            × (v.deployments w' ≡ with_object d.namespace d.name d (v.deployments w))
            × (v.services w' ≡ v.services w)))

  abbrev pub CreatesService : Service → W → Result (Unit {0}) × W → Type 0
  CreatesService s w (ok _, w') =
      (v.services w s.namespace s.name ≡ none)
      × (v.services w' ≡ with_object s.namespace s.name s (v.services w))
      × (v.deployments w' ≡ v.deployments w)
  CreatesService s w (err _, w') =
      (IsSame w w'
        ⊎ ((v.services w s.namespace s.name ≡ none)
            × (v.services w' ≡ with_object s.namespace s.name s (v.services w))
            × (v.deployments w' ≡ v.deployments w)))

-- What the templates say.
abbrev pub template_name : Template → String
template_name frontend_service = "rivalry-frontend"
template_name frontend_deployment = "rivalry-frontend"
template_name accumulator_deployment = "rivalry-accumulator"
template_name matcher_deployment = "rivalry-matcher"
template_name dispenser_deployment = "rivalry-dispenser"

pub record IsKubernetes {W : Type 0} (v : ClusterView W) (k : Kubernetes W) : Type 0 where
  pub get_deployment_lem :
      (namespace name : String) (w : W)
      → Finds v k.is_not_found v.deployments namespace name w (k.get_deployment namespace name w)
  pub get_service_lem :
      (namespace name : String) (w : W)
      → Finds v k.is_not_found v.services namespace name w (k.get_service namespace name w)
  pub get_profile_lem :
      (namespace name : String) (w : W)
      → IsSame v k.is_not_found w (k.get_profile namespace name w).1
  pub create_deployment_lem :
      (d : Deployment) (w : W) → CreatesDeployment v k.is_not_found d w (k.create_deployment d w)
  pub create_service_lem :
      (s : Service) (w : W) → CreatesService v k.is_not_found s w (k.create_service s w)
  pub unmarshal_deployment_lem :
      (t : Template) (d : Deployment)
      → k.unmarshal_deployment t ≡ ok d
      → (d.name ≡ template_name t) × (d.owner ≡ none)
  pub unmarshal_service_lem :
      (t : Template) (s : Service)
      → k.unmarshal_service t ≡ ok s
      → (s.name ≡ template_name t) × (s.owner ≡ none)
  pub own_deployment_lem :
      (p : Profile) (d d' : Deployment)
      → k.own_deployment p d ≡ ok d'
      → d' ≡ record d { owner = some p.name }
  pub own_service_lem :
      (p : Profile) (s s' : Service)
      → k.own_service p s ≡ ok s'
      → s' ≡ record s { owner = some p.name }

-- The API server validates each object that is to be created, its name and its labels among others;
-- these are the objects that it admits.
pub record Admission : Type 0 where
  pub deployment : Deployment → Bool
  pub service : Service → Bool

-- A cluster that answers, with templates that can be read: a read fails only where there is nothing,
-- the creation of an object that is admitted only where the name is taken, and what has no owner can
-- be owned.
pub record IsWorking {W : Type 0} (v : ClusterView W) (k : Kubernetes W) (admits : Admission)
    : Type 0 where
  pub get_deployment_answers :
      (namespace name : String) (w w' : W) (e : Error)
      → k.get_deployment namespace name w ≡ (err e, w')
      → k.is_not_found e ≡ true
  pub get_service_answers :
      (namespace name : String) (w w' : W) (e : Error)
      → k.get_service namespace name w ≡ (err e, w')
      → k.is_not_found e ≡ true
  pub create_deployment_answers :
      (d : Deployment) (w : W)
      → admits.deployment d ≡ true
      → v.deployments w d.namespace d.name ≡ none
      → (k.create_deployment d w).0 ≡ ok tt
  pub create_service_answers :
      (s : Service) (w : W)
      → admits.service s ≡ true
      → v.services w s.namespace s.name ≡ none
      → (k.create_service s w).0 ≡ ok tt
  pub unmarshal_deployment_answers :
      (t : Template) → t ≢ frontend_service → (d : Deployment) × (k.unmarshal_deployment t ≡ ok d)
  pub unmarshal_service_answers : (s : Service) × (k.unmarshal_service frontend_service ≡ ok s)
  pub own_deployment_answers :
      (p : Profile) (d : Deployment)
      → d.owner ≡ none
      → d.namespace ≡ p.namespace
      → (d' : Deployment) × (k.own_deployment p d ≡ ok d')
  pub own_service_answers :
      (p : Profile) (s : Service)
      → s.owner ≡ none
      → s.namespace ≡ p.namespace
      → (s' : Service) × (k.own_service p s ≡ ok s')
