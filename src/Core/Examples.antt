-- ===== src/Core/Examples.antt =====
-- forge-core/src/examples.rs: the three example blocks, a chain of dependencies. A call of
-- `Utc::now`, and each of `BlockId::new`, is an argument. `unwrap` panics on an error.
use apeiron.Base.{
  ℕ, ◌≡◌, refl, Bool, true, false, ◌&&◌, ◌||◌, none, List, [], ◌∷◌, Text, codes, text_eq,
}
use apeiron.Base.Outcome.{Outcome, value, panic, ◌>>=◌}
use apeiron.Core.Id.{Uuid, new_block_id, new_contributor_id, new_derivation_hash}
use apeiron.Core.Trust.{
  F64, TrustScore, level_zero, level_one, level_two, new_sem_ver, new_trust_score, Checked, ok, err,
}
use apeiron.Core.Block.{
  Block, BlockManifest, Capability, Dependency, DateTime, runtime, build, low, medium, high,
}

unfoldable pub unwrap {ℓ} : {A : Type ℓ} → Checked A → Outcome A
unwrap (ok a) = value a
unwrap (err e) = panic

-- The patterns of 0.9, 0.85 and 0.7.
abbrev score_git : F64
score_git = 0x3fec_cccc_cccc_cccd

abbrev score_rust : F64
score_rust = 0x3feb_3333_3333_3333

abbrev score_bose : F64
score_bose = 0x3fe6_6666_6666_6666

abbrev capability : Text → ℕ → ℕ → ℕ → Capability
capability name major minor patch = record { name = name; version = new_sem_ver major minor patch }

abbrev pub git_manifest : BlockManifest
git_manifest = record {
  name = codes "git-env";
  version = new_sem_ver 2 43 0;
  description = codes "Provides the git CLI in a reproducible Nix environment.";
  requires = [];
  provides = capability (codes "git-cli") 2 43 0 ∷ [];
  cognitive_load = low;
  minimum_trust_level = level_zero;
}

abbrev rust_dev_manifest : BlockManifest
rust_dev_manifest = record {
  name = codes "rust-dev-env";
  version = new_sem_ver 1 82 0;
  description = codes "Provides rustc and cargo via rustup in a reproducible environment.";
  requires =
      (record { name = codes "git-cli"; version_req = codes ">= 2.40"; kind = runtime }) ∷ [];
  provides = capability (codes "rustc") 1 82 0 ∷ capability (codes "cargo") 1 82 0 ∷ [];
  cognitive_load = medium;
  minimum_trust_level = level_one;
}

abbrev bose_search_manifest : BlockManifest
bose_search_manifest = record {
  name = codes "bose-search";
  version = new_sem_ver 0 1 0;
  description = codes "Provides the web_search MCP tool backed by SearXNG (247 engines).";
  requires =
      (record { name = codes "rustc"; version_req = codes ">= 1.82"; kind = build })
      ∷ (record { name = codes "cargo"; version_req = codes ">= 1.82"; kind = build })
      ∷ [];
  provides = capability (codes "web-search-mcp") 0 1 0 ∷ [];
  cognitive_load = high;
  minimum_trust_level = level_two;
}

abbrev pub example_block : DateTime → Uuid → BlockManifest → TrustScore → Text → Block
example_block now id manifest score derivation = record {
  id = new_block_id id;
  manifest = manifest;
  composed_of = none;
  trust_score = score;
  author = new_contributor_id (codes "forge-team");
  nix_derivation = new_derivation_hash derivation;
  created_at = now;
  updated_at = now;
}

unfoldable pub example_blocks : DateTime → Uuid → Uuid → Uuid → Outcome (List Block)
unfolding unwrap
example_blocks now git_id rust_dev_id bose_search_id = do
  git_score ← unwrap (new_trust_score score_git)
  rust_score ← unwrap (new_trust_score score_rust)
  bose_score ← unwrap (new_trust_score score_bose)
  value (
      example_block now git_id git_manifest git_score (codes "ywi5ib7yrjba3k3b26yfnbx7gappr3dg")
      ∷ example_block now rust_dev_id rust_dev_manifest rust_score
          (codes "3b26yfnbx7gappr3dgywi5ib7yrjba3k")
      ∷ example_block now bose_search_id bose_search_manifest bose_score
          (codes "pr3dgywi5ib7yrjba3k3b26yfnbx7gap")
      ∷ [])

-- Whether a block of the list offers the capability of this name.
provides : Text → List Capability → Bool
provides name [] = false
provides name (c ∷ cs) = text_eq c.name name || provides name cs

offered : Text → List Block → Bool
unfolding provides
offered name [] = false
offered name (b ∷ bs) = provides name b.manifest.provides || offered name bs

met : List Dependency → List Block → Bool
unfolding offered
met [] earlier = true
met (d ∷ ds) earlier = offered d.name earlier && met ds earlier

-- Whether each block needs only what the blocks before it offer.
pub is_chain : List Block → List Block → Bool
unfolding met
is_chain earlier [] = true
is_chain earlier (b ∷ bs) = met b.manifest.requires earlier && is_chain (b ∷ earlier) bs

-- At every time and with all identifiers, making the example blocks does not panic, and each block
-- requires only capabilities that the blocks before it provide.
pub example_blocks-is_chain :
    (now : DateTime) (git_id rust_dev_id bose_search_id : Uuid)
    → (blocks : List Block) × (example_blocks now git_id rust_dev_id bose_search_id ≡ value blocks)
      × (is_chain [] blocks ≡ true)
unfolding example_blocks new_trust_score is_chain text_eq
example_blocks-is_chain now git_id rust_dev_id bose_search_id = (_, refl, refl)
