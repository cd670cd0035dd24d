-- ===== src/Security/Checksum/Streamed.antt =====
-- `sha256_file` answers, and its answer is the digest of the whole content.
use Prim.Native.Nat.{min}
use filedrop.Base.{
  ℕ, zero, suc, ◌+◌, ◌-◌, ◌≤◌, ◌≡◌, refl, ap, ◌∙◌, ◌⊎◌, inl, inr, Option, none, some, List, [], ◌∷◌,
  ◌++◌, arith, Text, text, length, length-drop, take, drop, take-append-drop, concat, Option-cases,
}
use filedrop.Errors.{io, Result, ok, err}
use filedrop.Security.Checksum.{
  Sha256, IsStreaming, update_all, digest, hex_encode, ReadPlan, hash_buf_size, hash_loop,
  sha256_file,
}

module _ (H : Sha256) (plan : ReadPlan) where
  -- The chunks that the loop hashes when no read fails.
  chunks : ℕ → ℕ → List ℕ → List (List ℕ)
  chunks fuel i [] = []
  chunks zero i (b ∷ rest) = []
  chunks (suc fuel) i (b ∷ rest) = elim (plan i) [
    | none ↦ []
    | some n ↦
        let m = suc (min n (hash_buf_size - 1)) in
        take m (b ∷ rest) ∷ chunks fuel (i + 1) (drop m (b ∷ rest))
  ]

  -- Each round ends the loop, or shortens what is left.
  hash_loop_cases :
      (fuel i : ℕ) (s : H.State) (content : List ℕ)
      → length content ≤ fuel
      → ((j : ℕ) × (plan j ≡ none)
          × (hash_loop H plan fuel i s content ≡ some (err (io (text "read failed")))))
        ⊎ ((hash_loop H plan fuel i s content
              ≡ some (ok (hex_encode (H.finalize (update_all H s (chunks fuel i content))))))
            × (concat (chunks fuel i content) ≡ content))
  unfolding hash_loop chunks
  hash_loop_cases fuel i s [] h = elim (Option-cases (plan i)) [
    | inl e ↦ inl (i, e, rw (e, hash_loop))
    | inr (n, e) ↦ inr (rw (e, hash_loop), refl)
  ]
  hash_loop_cases zero i s (b ∷ rest) h = absurd (omega arith)
  hash_loop_cases (suc fuel) i s (b ∷ rest) h = elim (Option-cases (plan i)) [
    | inl e ↦ inl (i, e, rw (e, hash_loop))
    | inr (n, e) ↦
        let k = min n (hash_buf_size - 1) in
        let short : length (drop k rest) ≤ fuel = omega (arith, length-drop k rest) in
        let next =
          hash_loop_cases fuel (i + 1) (H.update s (b ∷ take k rest)) (drop k rest) short in
        elim next [
          | inl (j, f, q) ↦ inl (j, f, rw (e, hash_loop) q)
          | inr (q, c) ↦ inr (
            rw (e, hash_loop) (rw (e, chunks) q),
            rw (e, chunks)
                (ap (λ x. b ∷ (take k rest ++ x)) c ∙ ap (◌∷◌ b) (take-append-drop k rest)),
          )
        ]
  ]

  pub sha256_file-answers :
      (file : Option (List ℕ)) → (r : Result Text) × (sha256_file H plan file ≡ some r)
  unfolding sha256_file
  sha256_file-answers none = (_, refl)
  sha256_file-answers (some content) =
      elim (hash_loop_cases (length content) 0 H.new content (omega arith)) [
        | inl (j, f, q) ↦ (_, q)
        | inr (q, c) ↦ (_, q)
      ]

  -- `sha256_file` always answers: with the hexadecimal digest of the whole content, however the reads
  -- cut it, or, if a read fails, with an error.
  pub sha256_file-digest :
      IsStreaming H
      → (content : List ℕ)
      → ((j : ℕ) × (plan j ≡ none)
          × (sha256_file H plan (some content) ≡ some (err (io (text "read failed")))))
        ⊎ (sha256_file H plan (some content) ≡ some (ok (hex_encode (digest H content))))
  unfolding sha256_file
  sha256_file-digest L content =
      elim (hash_loop_cases (length content) 0 H.new content (omega arith)) [
        | inl (j, f, q) ↦ inl (j, f, q)
        | inr (q, c) ↦
            let same : H.finalize (update_all H H.new (chunks (length content) 0 content))
                ≡ digest H content =
              L.streams (chunks (length content) 0 content) ∙ ap (digest H) c in
            inr (q ∙ ap (λ d. some (ok (hex_encode d))) same)
      ]
