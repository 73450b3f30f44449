-- ===== src/Api/Meta.antt =====
-- Object metadata, conditions and selectors of Kubernetes, with the fields that the program
-- reads or writes. A timestamp is a number of nanoseconds; one that is unset is `none`.
use borgbase_operator.Base.{ℕ, Text, Dict, Bool, List, Option}

pub record OwnerReference : Type 0 where
  pub kind : Text
  pub uid : Text
  pub name : Text
  pub controller : Option Bool

pub record ObjectMeta : Type 0 where
  pub name : Text
  pub namespace : Text
  pub uid : Text
  pub labels : Dict Text
  pub annotations : Dict Text
  pub generation : ℕ
  pub creation_timestamp : ℕ
  pub deletion_timestamp : Option ℕ
  pub finalizers : List Text
  pub owner_references : List OwnerReference

pub data ConditionStatus : Type 0 where
  condition_true condition_false condition_unknown : ConditionStatus

pub record Condition : Type 0 where
  pub type : Text
  pub status : ConditionStatus
  pub reason : Text
  pub message : Text
  pub observed_generation : ℕ

pub record SecretKeySelector : Type 0 where
  pub name : Text
  pub key : Text
