-- ===== src/Decrypting/Walking/Termination.antt =====
-- That the walk ends.
use fork_kustomize_controlle.Prelude.{
  ℕ, zero, suc, ◌<◌, ◌≤◌, String, true, false, not, Option, some, List, [], ◌∷◌, ◌==◌,
  if◌then◌else◌, ◌≡◌, refl, sym, ap, ◌∙◌, subst, contains, string_eq, select, length, Bool-cases,
  inl, inr, arith, is_some, eq_refl, eq_iff,
}
use fork_kustomize_controlle.Errors.{Err, Result, ok, err}
use fork_kustomize_controlle.Decrypting.Task.{return, wrap, failed_with, >>=-eq-ok}
use fork_kustomize_controlle.Decrypting.Paths.{is_abs, join}
use fork_kustomize_controlle.Decrypting.Types.{KeyApi}
use fork_kustomize_controlle.Decrypting.Trees.{TreeApi}
use fork_kustomize_controlle.Decrypting.Files.{
  Walked, FileApi, FileInfo, reading, decrypting, writing, record_decrypted, secured,
}
use fork_kustomize_controlle.Decrypting.Files.Boundary.{Frame, SecuredIn, secured-SecuredIn}
use fork_kustomize_controlle.Decrypting.Walking.{
  is_ignored, visit_directory, check_dir, stat_error, walk_each, at_directory, into, continue_on,
  mark_visited, recurse_kustomization_files,
}
use fork_kustomize_controlle.Decrypting.Walking.Visits.{Keeps-directory}

return-ok :
    {S A : Type 0} (r : Result A) (u : S) (a : A) (v : S) → return r u ≡ (ok a, v) → r ≡ ok a
unfolding return
return-ok r u a v h = ap (λ q. q.0) h

failed_with-ok :
    {A : Type 0} (f : Err → Err) (r : Result A) (a : A) → failed_with f r ≡ ok a → r ≡ ok a
failed_with-ok f (ok b) a h = h
failed_with-ok f (err e) a h = cc

read-ok :
    {W A : Type 0} (f : Err → Err) (call : W → Result A) (s : Walked W) (a : A) (u : Walked W)
    → wrap f (reading call) s ≡ (ok a, u)
    → call s.state.session.world ≡ ok a
unfolding wrap reading
read-ok f call s a u h = failed_with-ok f _ a (ap (λ q. q.0) h)

below_zero : {A : Type 0} (m : ℕ) → m < 0 → A
below_zero m h = absurd (omega (arith, h))

-- How many of the directories are not among the visited ones.
abbrev pub unvisited : List String → List String → ℕ
unvisited dirs visited = length (select (λ d. not (contains d visited)) dirs)

unvisited-le :
    (dirs visited : List String) (a : String)
    → unvisited dirs (a ∷ visited) ≤ unvisited dirs visited
unvisited-le [] visited a = ground arith
unvisited-le (d ∷ dirs) visited a = ground (arith, unvisited-le dirs visited a)

unvisited-lt :
    (dirs visited : List String) (a : String)
    → contains a dirs ≡ true
    → contains a visited ≡ false
    → unvisited dirs (a ∷ visited) < unvisited dirs visited
unvisited-lt [] visited a h fresh = cc
unvisited-lt (d ∷ dirs) visited a h fresh = elim (Bool-cases (d == a)) [
  | inl here ↦
      let same = (eq_iff d a).0 here in
      subst (λ x. unvisited (x ∷ dirs) (a ∷ visited) < unvisited (x ∷ dirs) visited) (sym same)
        (simp (fresh, eq_refl a) (ground (arith, unvisited-le dirs visited a)))
  | inr other ↦
      ground (arith, unvisited-le dirs visited a, unvisited-lt dirs visited a (rw other at h) fresh)
]

module _ {W T : Type 0} (api : KeyApi W) (trees : TreeApi W T) (files : FileApi W)
    (root : String) where
  -- The visit of a directory leaves the visited ones.
  SameVisited : List String → Walked W → Type 0
  SameVisited v s = s.visited ≡ v

  frame-SameVisited : (v : List String) → Frame api trees files root (SameVisited v)
  unfolding SameVisited decrypting writing record_decrypted
  frame-SameVisited v = record {
    decryption = λ s bytes in_f out_f p. p;
    write = λ s path out inside p. p;
    recording = λ s path fresh p. p;
  }

  visited-directory :
      (path abs rel : String) (s : Walked W)
      → (visit_directory api trees files root path abs rel s).1.visited ≡ s.visited
  unfolding SameVisited
  visited-directory path abs rel s =
      (Keeps-directory api trees files root (frame-SameVisited s.visited) path abs rel).at s refl

  -- Only a directory is visited.
  is_dir-checked :
      (fi : FileInfo) (u : Unit) → check_dir api trees files fi ≡ ok u → fi.is_dir ≡ true
  is_dir-checked fi u h = elim (Bool-cases fi.is_dir) [
    | inl here ↦ here
    | inr other ↦ cc (rw other at h)
  ]

  directory-lstat :
      (path abs rel : String) (s t : Walked W) (resources : List String)
      → visit_directory api trees files root path abs rel s ≡ (ok resources, t)
      → (fi : FileInfo) × (files.lstat abs s.state.session.world ≡ ok fi) × (fi.is_dir ≡ true)
  unfolding visit_directory
  directory-lstat path abs rel s t resources h =
      let (fi, u, first, rest) =
        >>=-eq-ok (wrap (stat_error api trees files root) (reading (files.lstat abs))) _ s h in
      let (checked, v, second, more) = >>=-eq-ok (return (check_dir api trees files fi)) _ u rest in
      (
        fi,
        read-ok (stat_error api trees files root) (files.lstat abs) s fi u first,
        is_dir-checked fi checked (return-ok (check_dir api trees files fi) u checked v second),
      )

  -- The directories that `SecureJoin` finds under the root are among these, at every time.
  -- `SecureJoin` returns a clean path with its links resolved: one spelling of each directory.
  abbrev pub Contained : List String → Type 0
  Contained dirs =
      (w : W) (path : String) (fi : FileInfo)
      → SecuredIn api trees files root w path
      → files.lstat path w ≡ ok fi
      → fi.is_dir ≡ true
      → contains path dirs ≡ true

  module _ (dirs : List String) (contained : Contained dirs) where
    -- The walk ends, and visits no directory less.
    record Ends (v : List String) (o : Option (Result {0} Unit × Walked W)) : Type 0 where
      result : Result {0} Unit × Walked W
      returns : o ≡ some result
      bound : unvisited dirs result.1.visited ≤ unvisited dirs v

    Ends-weaken :
        (v v' : List String) (o : Option (Result {0} Unit × Walked W))
        → unvisited dirs v' ≤ unvisited dirs v
        → Ends v' o
        → Ends v o
    Ends-weaken v v' o le ends = record {
      result = ends.result;
      returns = ends.returns;
      bound = ground (arith, le, ends.bound);
    }

    Ends-continue :
        (v : List String) (r : Result {0} Unit) (t : Walked W)
        (rest : Option (Result {0} Unit × Walked W))
        → unvisited dirs t.visited ≤ unvisited dirs v
        → Ends v rest
        → Ends v (continue_on api trees files r t rest)
    Ends-continue v (ok u) t rest le ends = ends
    Ends-continue v (err e) t rest le ends = elim (Bool-cases (is_ignored api trees files e)) [
      | inl ignored ↦ rw ignored ends
      | inr other ↦ rw other (record { result = (err e, t); returns = refl; bound = le })
    ]

    -- A function that ends whenever fewer than `n` directories are left.
    EndsBelow : ℕ → (String → Walked W → Option (Result {0} Unit × Walked W)) → Type 0
    EndsBelow n recurse =
        (path : String) (s : Walked W)
        → unvisited dirs s.visited < n
        → Ends s.visited (recurse path s)

    Ends-each :
        (n : ℕ) (recurse : String → Walked W → Option (Result {0} Unit × Walked W))
        → EndsBelow n recurse
        → (path : String) (resources : List String) (s : Walked W) → unvisited dirs s.visited < n
        → Ends s.visited (walk_each api trees files recurse path resources s)
    unfolding walk_each EndsBelow
    Ends-each n recurse h path [] s enough = record {
      result = (ok tt, s);
      returns = refl;
      bound = ground arith;
    }
    Ends-each n recurse h path (res ∷ rest) s enough =
        let first = h (if is_abs res then res else join path res) s enough in
        rw first.returns (
          Ends-continue s.visited first.result.0 first.result.1 _ first.bound (
            Ends-weaken s.visited first.result.1.visited _ first.bound (
              Ends-each n recurse h path rest first.result.1
                (ground (arith, first.bound, enough)))))

    -- The visit of a directory, and what follows it.
    Ends-into :
        (n : ℕ) (recurse : String → Walked W → Option (Result {0} Unit × Walked W))
        → EndsBelow n recurse
        → (path abs rel : String) (s : Walked W) (q : Result (List String) × Walked W)
        → visit_directory api trees files root path abs rel (mark_visited api trees files abs s) ≡ q
        → SecuredIn api trees files root s.state.session.world abs
        → contains abs s.visited ≡ false
        → unvisited dirs s.visited < suc n
        → Ends s.visited (into api trees files (walk_each api trees files recurse path) q)
    Ends-into n recurse h path abs rel s (err e, t) visit joined fresh enough =
        let same =
          sym (ap (λ q. q.1.visited) visit)
          ∙ visited-directory path abs rel (mark_visited api trees files abs s) in
        record {
          result = (err e, t);
          returns = refl;
          bound = rw same (unvisited-le dirs s.visited abs);
        }
    Ends-into n recurse h path abs rel s (ok resources, t) visit joined fresh enough =
        let same =
          sym (ap (λ q. q.1.visited) visit)
          ∙ visited-directory path abs rel (mark_visited api trees files abs s) in
        let (fi, stat, is_dir) =
          directory-lstat path abs rel (mark_visited api trees files abs s) t resources visit in
        let less =
          subst (λ v. unvisited dirs v < unvisited dirs s.visited) (sym same)
            (unvisited-lt dirs s.visited abs
              (contained s.state.session.world abs fi joined stat is_dir) fresh) in
        Ends-weaken s.visited t.visited _ (ground (arith, less))
          (Ends-each n recurse h path resources t (ground (arith, less, enough)))

    Ends-at :
        (n : ℕ) (recurse : String → Walked W → Option (Result {0} Unit × Walked W))
        → EndsBelow n recurse
        → (path : String) (paths : Result (String × String)) (s : Walked W)
        → (secured files root path s).0 ≡ paths
        → unvisited dirs s.visited < suc n
        → Ends s.visited (
            at_directory api trees files (walk_each api trees files recurse path) root path paths s)
    Ends-at n recurse h path (err e) s here enough = record {
      result = (err e, s);
      returns = refl;
      bound = ground arith;
    }
    Ends-at n recurse h path (ok (abs, rel)) s here enough =
        elim (Bool-cases (contains abs s.visited)) [
          | inl seen ↦
              rw seen (record { result = (ok tt, s); returns = refl; bound = ground arith })
          | inr fresh ↦ rw fresh (
              Ends-into n recurse h path abs rel s _ refl
                (secured-SecuredIn api trees files root path abs rel s here) fresh enough)
        ]

    recurse-Ends : (n : ℕ) → EndsBelow n (recurse_kustomization_files api trees files root n)
    unfolding recurse_kustomization_files EndsBelow
    recurse-Ends zero path s enough = below_zero (unvisited dirs s.visited) enough
    recurse-Ends (suc n) path s enough =
        Ends-at n (recurse_kustomization_files api trees files root n) (recurse-Ends n) path _ s
          refl enough

    -- If the paths of directories that SecureJoin makes of the root are, at every time, those of a
    -- list, then recurseKustomizationFiles returns, a result or an error, when the fuel exceeds the
    -- number of paths of the list that were not visited.
    pub recurse-returns :
        (n : ℕ) (path : String) (s : Walked W)
        → unvisited dirs s.visited < n
        → is_some (recurse_kustomization_files api trees files root n path s) ≡ true
    unfolding EndsBelow
    recurse-returns n path s enough = rw (recurse-Ends n path s enough).returns refl
