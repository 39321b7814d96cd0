-- ===== src/Executor/Runner/Hash.antt =====
-- What `compute_hash` of forge-executor/src/runner.rs depends on.
use apeiron.Base.{ℕ, zero, suc, ◌≡◌, refl, sym, ap, ◌∙◌, [], ◌∷◌, ◌++◌, append-nil, Bytes}
use apeiron.Core.Id.{new_content_hash}
use apeiron.Core.Id.Hex.{IsHash}
use apeiron.Executor.Runner.{Sha256, compute_hash}

abbrev pub replicate : ℕ → ℕ → Bytes
replicate zero x = []
replicate (suc n) x = x ∷ replicate n x

replicate-cons : (n x : ℕ) (t : Bytes) → replicate n x ++ x ∷ t ≡ x ∷ (replicate n x ++ t)
replicate-cons zero x t = refl
replicate-cons (suc n) x t = ap (λ u. x ∷ u) (replicate-cons n x t)

replicate_comm : (m n x : ℕ) → replicate m x ++ replicate n x ≡ replicate n x ++ replicate m x
replicate_comm zero n x = sym (append-nil (replicate n x))
replicate_comm (suc m) n x =
    ap (λ u. x ∷ u) (replicate_comm m n x) ∙ sym (replicate-cons n x (replicate m x))

module _ (sha : Sha256) where
  -- The hash of the two outputs is the hash of one text, stdout followed by stderr.
  pub compute_hash-append :
      (stdout stderr : Bytes)
      → compute_hash sha stdout stderr ≡ compute_hash sha (stdout ++ stderr) []
  unfolding compute_hash
  compute_hash-append stdout stderr =
      let e = sha.update-append sha.new stdout stderr in
      let f = sha.update-append sha.new (stdout ++ stderr) [] in
      let g = append-nil (stdout ++ stderr) in
      ap (λ h. new_content_hash (sha.finalize h)) (e ∙ sym (f ∙ ap (sha.update sha.new) g))

  -- The hash forgets where stdout ends and stderr begins: outputs that are one text when joined
  -- have one hash.
  pub compute_hash_cut :
      (a b c d : Bytes) → a ++ b ≡ c ++ d → compute_hash sha a b ≡ compute_hash sha c d
  compute_hash_cut a b c d e =
      compute_hash-append a b ∙ ap (λ t. compute_hash sha t []) e ∙ sym (compute_hash-append c d)

  -- Swapping two outputs that repeat one byte keeps the hash, also where they differ in length.
  compute_hash_swap :
      (m n x : ℕ)
      → compute_hash sha (replicate m x) (replicate n x)
        ≡ compute_hash sha (replicate n x) (replicate m x)
  compute_hash_swap m n x = compute_hash_cut _ _ _ _ (replicate_comm m n x)

  -- The result is a hash of 32 bytes.
  pub compute_hash-IsHash : (stdout stderr : Bytes) → IsHash (compute_hash sha stdout stderr)
  unfolding compute_hash
  compute_hash-IsHash stdout stderr = record {
    size = sha.digest_size _;
    range = sha.digest_range _;
  }
