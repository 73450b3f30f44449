-- ===== src/Kube/Pod.antt =====
-- Pod templates (k8s.io/api/core/v1). A user's own security context and node affinity are
-- copied and never looked into: they are `given` texts.
use borgbase_operator.Base.{ℕ, Text, Dict, Bool, List, Option}
use borgbase_operator.Api.Meta.{SecretKeySelector}

pub data EnvSource : Type 0 where
  field_ref : Text → EnvSource
  secret_key_ref : SecretKeySelector → EnvSource

pub record EnvVar : Type 0 where
  pub name : Text
  pub value : Text
  pub value_from : Option EnvSource

-- `envFrom`: the name of the Secret, if it is a Secret.
pub record EnvFromSource : Type 0 where
  pub secret_ref : Option Text

pub record ClaimSource : Type 0 where
  pub claim_name : Text
  pub read_only : Bool

pub record Volume : Type 0 where
  pub name : Text
  pub secret : Option Text
  pub claim : Option ClaimSource
  pub empty_dir : Bool

pub record VolumeMount : Type 0 where
  pub name : Text
  pub mount_path : Text
  pub read_only : Bool

pub record Resources : Type 0 where
  pub requests : Dict Text
  pub limits : Dict Text

pub data PodSecurity : Type 0 where
  -- seccompProfile: RuntimeDefault, and nothing else
  runtime_default : PodSecurity
  given : Text → PodSecurity

pub data ContainerSecurity : Type 0 where
  -- allowPrivilegeEscalation: false, capabilities: drop ALL
  drop_all : ContainerSecurity
  given : Text → ContainerSecurity

pub record PodAffinityTerm : Type 0 where
  pub topology_key : Text
  pub match_labels : Dict Text

pub record WeightedTerm : Type 0 where
  pub weight : ℕ
  pub term : PodAffinityTerm

-- `none` is a nil slice.
pub record PodAffinity : Type 0 where
  pub required : Option (List PodAffinityTerm)
  pub preferred : Option (List WeightedTerm)

pub record Affinity : Type 0 where
  pub other : Text
  pub pod_affinity : Option PodAffinity

pub record Container : Type 0 where
  pub name : Text
  pub image : Text
  pub command : List Text
  pub args : List Text
  pub working_dir : Text
  pub env : List EnvVar
  pub env_from : List EnvFromSource
  pub volume_mounts : List VolumeMount
  pub resources : Resources
  pub security : ContainerSecurity
  pub stdin : Bool
  pub tty : Bool

pub record PodSpec : Type 0 where
  pub restart_policy : Text
  pub containers : List Container
  pub volumes : List Volume
  pub affinity : Option Affinity
  pub automount_token : Option Bool
  pub security : PodSecurity

pub record PodTemplate : Type 0 where
  pub labels : Dict Text
  pub pod : PodSpec
