-- ===== src/Client/Interfaces.antt =====
-- pkg/client/clientset/versioned: the interfaces that the typed and the fake clients implement, in
-- clientset.go and typed/mesh/v1alpha1 (mesh_client.go, service.go and configuration.go). `S` stands for
-- the state that the client works on and `W` for what a watch returns.
use lite_mesh.Base.{Text, List, Option}
use lite_mesh.Kube.{Error, GetOptions, ListOptions, DeleteOptions}
use lite_mesh.Apis.{Service, ServiceList, Configuration, ConfigurationList}

-- A pointer, which may be nil, and an error; or nothing if an assertion panics.
abbrev pub Returned : Type 0 → Type 0
Returned T = Option (Option T × Option Error)

-- The methods of `ServiceInterface` and of `ConfigurationInterface`, which differ in the types of the
-- object and of the list.
pub record ResourceInterface (T L S W : Type 0) : Type 0 where
  pub create : T → S → Returned T × S
  pub update : T → S → Returned T × S
  pub update_status : T → S → Returned T × S
  pub delete : Text → Option DeleteOptions → S → Option Error × S
  pub delete_collection : Option DeleteOptions → ListOptions → S → Option Error × S
  pub get : Text → GetOptions → S → Returned T × S
  pub list : ListOptions → S → Returned L × S
  pub watch : ListOptions → S → W × S
  pub patch : Text → Text → Text → List Text → S → Returned T × S

abbrev pub ServiceInterface : Type 0 → Type 0 → Type 0
ServiceInterface S W = ResourceInterface Service ServiceList S W

abbrev pub ConfigurationInterface : Type 0 → Type 0 → Type 0
ConfigurationInterface S W = ResourceInterface Configuration ConfigurationList S W

-- `C` stands for a REST client, which may be nil; the two getters are the other methods.
pub record MeshV1alpha1Interface (S C W : Type 0) : Type 0 where
  pub rest_client : Option C
  pub configurations : Text → ConfigurationInterface S W
  pub services : Text → ServiceInterface S W

-- `clientset.Interface`; `D` stands for a discovery client, which may be nil.
pub record Interface (S C D W : Type 0) : Type 0 where
  pub discovery : Option D
  pub mesh_v1alpha1 : MeshV1alpha1Interface S C W
  pub mesh : MeshV1alpha1Interface S C W

-- A creation, and then a read of the created object by its name.
abbrev pub create_get :
    {T L S W : Type 0}
    → ResourceInterface T L S W
    → T
    → Text
    → GetOptions
    → S
    → Returned T × Returned T
create_get client x name options s =
    let (created, s') = client.create x s in (created, (client.get name options s').0)
