-- ===== src/Decrypting/Walking/Boundary.antt =====
-- Where the walk writes.
use fork_kustomize_controlle.Prelude.{
  ℕ, zero, suc, String, false, not, Option, some, List, [], ◌∷◌, ◌==◌, if◌then◌else◌, ◌≡◌, subst,
  contains, string_eq, Bool-cases, inl, inr, Option-cases,
}
use fork_kustomize_controlle.Errors.{Result, ok, err}
use fork_kustomize_controlle.Decrypting.Paths.{is_abs, join}
use fork_kustomize_controlle.Decrypting.Formats.{Format}
use fork_kustomize_controlle.Decrypting.Types.{KeyApi, State}
use fork_kustomize_controlle.Decrypting.Keys.{sops_provider}
use fork_kustomize_controlle.Decrypting.Trees.{TreeApi, sops_decrypt_with_format}
use fork_kustomize_controlle.Decrypting.Files.{
  Walked, FileApi, decrypting, writing, record_decrypted,
}
use fork_kustomize_controlle.Decrypting.Files.Boundary.{Frame, Secured}
use fork_kustomize_controlle.Decrypting.Walking.{
  walk_each, at_directory, into, continue_on, mark_visited, recurse_kustomization_files,
  decrypt_sources, is_ignored, begin,
}
use fork_kustomize_controlle.Decrypting.Walking.Visits.{Keeps-directory}

module _ {W T : Type 0} (api : KeyApi W) (trees : TreeApi W T) (files : FileApi W) (root : String)
    (Holds : Walked W → Type 0) where
  -- The predicate holds in the state that is returned, if any.
  record Leaves (o : Option (Result {0} Unit × Walked W)) : Type 0 where
    at : (q : Result {0} Unit × Walked W) → o ≡ some q → Holds q.1

  Leaves-some : (q : Result {0} Unit × Walked W) → Holds q.1 → Leaves (some q)
  Leaves-some q p = record { at = λ r e. subst (λ x. Holds x.1) (injected e) p }
    where
      injected : {a b : Result {0} Unit × Walked W} → some a ≡ some b → a ≡ b
      injected h = cc

  Leaves-continue :
      (r : Result {0} Unit) (t : Walked W) (rest : Option (Result {0} Unit × Walked W))
      → Holds t
      → Leaves rest
      → Leaves (continue_on api trees files r t rest)
  Leaves-continue (ok u) t rest p leaves = leaves
  Leaves-continue (err e) t rest p leaves = elim (Bool-cases (is_ignored api trees files e)) [
    | inl ignored ↦ rw ignored leaves
    | inr other ↦ rw other (Leaves-some (err e, t) p)
  ]

  LeavesAll : (String → Walked W → Option (Result {0} Unit × Walked W)) → Type 0
  LeavesAll recurse = (path : String) (s : Walked W) → Holds s → Leaves (recurse path s)

  Leaves-each :
      (recurse : String → Walked W → Option (Result {0} Unit × Walked W))
      → LeavesAll recurse
      → (path : String) (resources : List String) (s : Walked W) → Holds s
      → Leaves (walk_each api trees files recurse path resources s)
  unfolding walk_each LeavesAll
  Leaves-each recurse h path [] s p = Leaves-some (ok tt, s) p
  Leaves-each recurse h path (res ∷ rest) s p =
      elim (Option-cases (recurse (if is_abs res then res else join path res) s)) [
        | inl out ↦ rw out (record { at = λ q e. cc })
        | inr (q, returns) ↦
            let later = (h (if is_abs res then res else join path res) s p).at q returns in
            rw returns (Leaves-continue q.0 q.1 _ later (Leaves-each recurse h path rest q.1 later))
      ]

  module _ (frame : Frame api trees files root Holds)
      (marks : (s : Walked W) (abs : String)
        → contains abs s.visited ≡ false
        → Holds s
        → Holds (mark_visited api trees files abs s)) where
    Leaves-at :
        (recurse : String → Walked W → Option (Result {0} Unit × Walked W))
        → LeavesAll recurse
        → (path : String) (paths : Result (String × String)) (s : Walked W) → Holds s
        → Leaves (
            at_directory api trees files (walk_each api trees files recurse path) root path paths s)
    Leaves-at recurse h path (err e) s p = Leaves-some (err e, s) p
    Leaves-at recurse h path (ok (abs, rel)) s p = elim (Bool-cases (contains abs s.visited)) [
      | inl seen ↦ rw seen (Leaves-some (ok tt, s) p)
      | inr fresh ↦ rw fresh (
          onward _ (
            (Keeps-directory api trees files root frame path abs rel).at
              (mark_visited api trees files abs s) (marks s abs fresh p)))
    ]
      where
        onward :
            (q : Result (List String) × Walked W)
            → Holds q.1
            → Leaves (into api trees files (walk_each api trees files recurse path) q)
        onward (ok resources, t) p = Leaves-each recurse h path resources t p
        onward (err e, t) p = Leaves-some (err e, t) p

    Leaves-recurse : (n : ℕ) → LeavesAll (recurse_kustomization_files api trees files root n)
    unfolding recurse_kustomization_files LeavesAll
    Leaves-recurse zero path s p = record { at = λ q e. cc }
    Leaves-recurse (suc n) path s p =
        Leaves-at (recurse_kustomization_files api trees files root n) (Leaves-recurse n) path _ s p

    -- What every visit keeps, the walk keeps.
    pub recurse_keeps :
        (n : ℕ) (path : String) (s : Walked W) (q : Result {0} Unit × Walked W)
        → Holds s
        → recurse_kustomization_files api trees files root n path s ≡ some q
        → Holds q.1
    unfolding LeavesAll
    recurse_keeps n path s q p e = (Leaves-recurse n path s p).at q e

module _ {W T : Type 0} (api : KeyApi W) (trees : TreeApi W T) (files : FileApi W) where
  returned :
      (Inv : W → Type 0) (q q' : Result {0} Unit × Walked W)
      → Inv q.1.state.session.world
      → some q ≡ some q'
      → Inv q'.1.state.session.world
  returned Inv q q' holds e = subst (λ x. Inv x.1.state.session.world) (injected e) holds
    where
      injected : {a b : Result {0} Unit × Walked W} → some a ≡ some b → a ≡ b
      injected h = cc

  -- The predicate on the world, of a state.
  abbrev InWorld : (W → Type 0) → Walked W → Type 0
  InWorld Inv s = Inv s.state.session.world

  recursed :
      (root : String) (Inv : W → Type 0)
      → Frame api trees files root (InWorld Inv)
      → (n : ℕ) (path : String) (s : Walked W) (r : Result {0} Unit) (t : Walked W)
      → Inv s.state.session.world
      → recurse_kustomization_files api trees files root n path s ≡ some (r, t)
      → Inv t.state.session.world
  recursed root Inv frame n path s r t holds e =
      recurse_keeps api trees files root (InWorld Inv) frame (λ s abs fresh p. p) n path s (r, t)
        holds e

  framed :
      (root : String) (Inv : W → Type 0)
      → ((s : State W) (bytes : String) (in_f out_f : Format)
          → Inv s.session.world
          → Inv (sops_decrypt_with_format api trees bytes in_f out_f s).1.session.world)
      → ((w : W) (file out : String)
          → Secured api trees files root file
          → Inv w
          → Inv (files.write_file file out w).1)
      → Frame api trees files root (InWorld Inv)
  unfolding decrypting writing record_decrypted
  framed root Inv decrypts writes = record {
    decryption = λ s bytes in_f out_f p. decrypts s.state bytes in_f out_f p;
    write = λ s path out inside p. writes s.state.session.world path out inside p;
    recording = λ s path fresh p. p;
  }

  -- DecryptSources writes to no path but those that SecureJoin makes of the decryptor's root: a
  -- predicate on the world that every such write keeps, and every decryption, holds after
  -- DecryptSources if it held before.
  pub decrypt_sources-boundary :
      (Inv : W → Type 0) (fuel : ℕ) (path : String) (s : State W) (r : Result {0} Unit)
      (t : Walked W)
      → ((s : State W) (bytes : String) (in_f out_f : Format)
          → Inv s.session.world
          → Inv (sops_decrypt_with_format api trees bytes in_f out_f s).1.session.world)
      → ((w : W) (file out : String)
          → Secured api trees files s.decryptor.root file
          → Inv w
          → Inv (files.write_file file out w).1)
      → Inv s.session.world
      → decrypt_sources api trees files fuel path s ≡ some (r, t)
      → Inv t.state.session.world
  unfolding decrypt_sources
  decrypt_sources-boundary Inv fuel path s r t decrypts writes holds h =
      elim (Option-cases s.decryptor.kustomization.spec.decryption) [
        | inl absent ↦ started (simp absent at h)
        | inr (dec, here) ↦ elim (Bool-cases (not (dec.provider == sops_provider))) [
          | inl other ↦ started (simp (here, other) at h)
          | inr sops ↦ walked (simp (here, sops) at h)
        ]
      ]
    where
      started :
          ◌≡◌ {A = Option (Result {0} Unit × Walked W)}
            (some (ok tt, begin api trees files s))
            (some (r, t))
          → Inv t.state.session.world
      started e = returned Inv (ok tt, begin api trees files s) (r, t) holds e

      walked :
          recurse_kustomization_files api trees files s.decryptor.root fuel path
              (begin api trees files s)
            ≡ some (r, t)
          → Inv t.state.session.world
      walked e =
          recursed s.decryptor.root Inv (framed s.decryptor.root Inv decrypts writes) fuel path
            (begin api trees files s) r t holds e
