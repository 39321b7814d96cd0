-- ===== src/Core/Block.antt =====
-- forge-core/src/block.rs. A time stamp of the crate `chrono` is a number.
use apeiron.Base.{ℕ, Option, List, Text}
use apeiron.Core.Id.{BlockId, ContributorId, DerivationHash}
use apeiron.Core.Trust.{SemVer, TrustLevel, TrustScore}

abbrev pub DateTime : Type 0
DateTime = ℕ

pub data DependencyKind : Type 0 where
  runtime build : DependencyKind

pub record Dependency : Type 0 where
  pub name : Text
  pub version_req : Text
  pub kind : DependencyKind

pub record Capability : Type 0 where
  pub name : Text
  pub version : SemVer

pub data CognitiveLoad : Type 0 where
  low medium high : CognitiveLoad

pub record BlockManifest : Type 0 where
  pub name : Text
  pub version : SemVer
  pub description : Text
  pub requires : List Dependency
  pub provides : List Capability
  pub cognitive_load : CognitiveLoad
  pub minimum_trust_level : TrustLevel

pub record Block : Type 0 where
  pub id : BlockId
  pub manifest : BlockManifest
  pub composed_of : Option (List BlockId)
  pub trust_score : TrustScore
  pub author : ContributorId
  pub nix_derivation : DerivationHash
  pub created_at : DateTime
  pub updated_at : DateTime
