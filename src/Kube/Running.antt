-- ===== src/Kube/Running.antt =====
-- Pods that run, with the fields of their status that the program reads (k8s.io/api/core/v1).
use borgbase_operator.Base.{Text, List, Option}
use borgbase_operator.Api.Meta.{ObjectMeta, ConditionStatus}

-- `state.waiting`: the reason and the message.
pub record Waiting : Type 0 where
  pub reason : Text
  pub message : Text

pub record ContainerStatus : Type 0 where
  pub name : Text
  pub waiting : Option Waiting

pub record PodCondition : Type 0 where
  pub type : Text
  pub status : ConditionStatus
  pub reason : Text
  pub message : Text

pub record Pod : Type 0 where
  pub meta : ObjectMeta
  pub phase : Text
  pub container_statuses : List ContainerStatus
  pub conditions : List PodCondition
