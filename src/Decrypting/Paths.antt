-- ===== src/Decrypting/Paths.antt =====
-- The paths of the decryptor: `securePaths`, `stripRoot` and `securePathErr`, with the functions of
-- path/filepath that they call, on a system whose separator is the slash.
use Prim.Native.String.{◌++◌}
use fork_kustomize_controlle.Prelude.{
  String, Bool, true, false, ◌||◌, Option, none, some, List, [], ◌∷◌, ◌==◌, if◌then◌else◌, is_some,
  on_option,
}
use fork_kustomize_controlle.Prelude.Texts.{cut_prefix, split_at, join_with}
use fork_kustomize_controlle.Errors.{
  Err, Result, ok, wrapf, terminal, path_error, recurse_ignore, ◌>>=◌,
}

-- `filepath.IsAbs`
unfoldable pub is_abs : String → Bool
unfolding cut_prefix
is_abs path = is_some (cut_prefix "/" path)

-- One element of a path, on the elements before it, the last of them first.
abbrev pub step_up : Bool → List String → List String
step_up rooted [] = if rooted then [] else ".." ∷ []
step_up rooted (s ∷ above) = if s == ".." then ".." ∷ (s ∷ above) else above

abbrev pub clean_step : Bool → String → List String → List String
clean_step rooted s above =
    if s == "" || s == "." then above else if s == ".." then step_up rooted above else s ∷ above

unfoldable pub clean_from : Bool → List String → List String → List String
clean_from rooted above [] = above
clean_from rooted above (s ∷ ss) = clean_from rooted (clean_step rooted s above) ss

abbrev pub reversed_onto : List String → List String → List String
reversed_onto [] ys = ys
reversed_onto (x ∷ xs) ys = reversed_onto xs (x ∷ ys)

unfoldable pub cleaned : Bool → String → List String
unfolding split_at clean_from
cleaned rooted path = reversed_onto (clean_from rooted [] (split_at 47 path)) []

abbrev pub or_dot : String → String
or_dot s = if s == "" then "." else s

-- `filepath.Clean`
unfoldable pub clean : String → String
unfolding is_abs join_with cleaned
clean path =
    if is_abs path
    then "/" ++ join_with "/" (cleaned true path)
    else or_dot (join_with "/" (cleaned false path))

-- `filepath.Join` of two elements
unfoldable pub join : String → String → String
unfolding clean
join a b =
    if a == ""
    then (if b == "" then "" else clean b)
    else if b == ""
    then clean a
    else clean (a ++ ("/" ++ b))

abbrev pub without_root : String → String → String
without_root root path =
    if path == root
    then "/"
    else if root == "/"
    then path
    else on_option (cut_prefix (root ++ "/") path) path (λ rest. rest)

-- `stripRoot`
unfoldable pub strip_root : String → String → String
unfolding clean join cut_prefix
strip_root root path = clean (join "./" (without_root (clean ("/" ++ root)) (clean ("/" ++ path))))

-- `securePaths`, with `securejoin.SecureJoin`
unfoldable pub secure_paths :
    (String → String → Result String) → String → String → Result (String × String)
unfolding is_abs strip_root
secure_paths secure_join root path = do
  abs ← secure_join root (if is_abs path then strip_root root path else path)
  ok (abs, strip_root root abs)

-- `errors.As` for a `fs.PathError`: its operation, its path and its cause
unfoldable pub as_path_error : Err → Option (String × (String × Err))
as_path_error (path_error op path e) = some (op, (path, e))
as_path_error (wrapf f e) = as_path_error e
as_path_error (terminal e) = as_path_error e
as_path_error (recurse_ignore e) = as_path_error e
as_path_error _ = none

-- `securePathErr`
unfoldable pub secure_path_err : String → Err → Err
unfolding as_path_error strip_root
secure_path_err root e =
    on_option (as_path_error e) e (λ p. path_error p.0 (strip_root root p.1.0) p.1.1)
