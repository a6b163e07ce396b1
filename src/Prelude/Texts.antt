-- ===== src/Prelude/Texts.antt =====
-- Texts, walked character by character: what the program calls of Go's `strings` and `bytes`.
use Prim.Native.Char.{Char, code}
use Prim.Native.String.{String, ◌++◌}
use Prim.Native.Nat.{ℕ}
use mathlib.Core.Bool.{Bool, true, false, ◌||◌}
use mathlib.Core.Option.{Option, none, some}
use mathlib.Core.List.{List, [], ◌∷◌}
use fork_kustomize_controlle.Prelude.Tests.{eqb, if◌then◌else◌, on_option, is_some}

-- `strings.CutPrefix`: what is behind a prefix, if the text has it.
unfoldable pub cut_prefix : String → String → Option String
cut_prefix String.[] s = some s
cut_prefix (String.◌∷◌ c p) String.[] = none
cut_prefix (String.◌∷◌ c p) (String.◌∷◌ d s) =
    let rest = cut_prefix p s in if eqb (code c) (code d) then rest else none

-- What is before the first occurrence of `p`, if there is one.
unfoldable pub before : String → String → Option String
unfolding cut_prefix
before p String.[] = if is_some (cut_prefix p String.[]) then some String.[] else none
before p (String.◌∷◌ c s) =
    let rest = before p s in
    if is_some (cut_prefix p (String.◌∷◌ c s))
    then some String.[]
    else on_option rest none (λ b. some (String.◌∷◌ c b))

-- `bytes.Contains`
unfoldable pub occurs_in : String → String → Bool
unfolding before
occurs_in p s = is_some (before p s)

-- `strings.HasSuffix`
unfoldable pub has_suffix : String → String → Bool
has_suffix p String.[] = on_option (cut_prefix p String.[]) false (λ r. is_blank r)
  where
    is_blank : String → Bool
    is_blank String.[] = true
    is_blank (String.◌∷◌ c r) = false
has_suffix p (String.◌∷◌ c s) =
    let rest = has_suffix p s in
    rest || on_option (cut_prefix p (String.◌∷◌ c s)) false (λ r. is_blank r)
  where
    is_blank : String → Bool
    is_blank String.[] = true
    is_blank (String.◌∷◌ c r) = false

-- `strings.Cut` at the first character with the code
unfoldable pub cut_at : ℕ → String → Option (String × String)
cut_at n String.[] = none
cut_at n (String.◌∷◌ c s) =
    let rest = cut_at n s in
    if eqb (code c) n
    then some (String.[], s)
    else on_option rest none (λ r. some (String.◌∷◌ c r.0, r.1))

abbrev push_first : Char → List String → List String
push_first c [] = String.◌∷◌ c String.[] ∷ []
push_first c (s ∷ ss) = String.◌∷◌ c s ∷ ss

-- `strings.Split` at the characters with the code
unfoldable pub split_at : ℕ → String → List String
split_at n String.[] = String.[] ∷ []
split_at n (String.◌∷◌ c s) =
    let rest = split_at n s in if eqb (code c) n then String.[] ∷ rest else push_first c rest

-- `strings.Join`
unfoldable pub join_with : String → List String → String
join_with sep [] = ""
join_with sep (s ∷ []) = s
join_with sep (s ∷ (t ∷ ts)) = s ++ (sep ++ join_with sep (t ∷ ts))

unfoldable pub drop_first : ℕ → String → String
drop_first n String.[] = String.[]
drop_first n (String.◌∷◌ c s) =
    let rest = drop_first n s in if eqb (code c) n then rest else String.◌∷◌ c s

unfoldable pub drop_last : ℕ → String → String
drop_last n String.[] = String.[]
drop_last n (String.◌∷◌ c s) = kept (drop_last n s)
  where
    kept : String → String
    kept String.[] = if eqb (code c) n then String.[] else String.◌∷◌ c String.[]
    kept (String.◌∷◌ d t) = String.◌∷◌ c (String.◌∷◌ d t)

-- `strings.Trim` of one character
unfoldable pub trim : ℕ → String → String
unfolding drop_first drop_last
trim n s = drop_last n (drop_first n s)

-- `fmt.Sprintf("%s/%s", a, b)`
unfoldable pub slashed : String → String → String
slashed a b = a ++ ("/" ++ b)
