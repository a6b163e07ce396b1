-- ===== src/Sops/Aws/Region.antt =====
-- `GetRegionFromKMSARN`: the match of ^arn:aws[\w-]*:kms:(.+):[0-9]+:(key|alias)/.+$, whose `.+` is
-- greedy. A text is walked character by character.
pub mod Arn
use Prim.Native.Char.{Char, code}
use Prim.Native.String.{◌++◌}
use text.Mathlib.TextLemmas.{nil-append, cons-append}
use fork_kustomize_controlle.Prelude.Texts.{cut_prefix}
use fork_kustomize_controlle.Prelude.{
  String, Bool, true, false, not, ◌&&◌, ◌||◌, Option, none, some, eqb, leb, if◌then◌else◌,
  on_option, ◌≡◌, refl, arith,
}

abbrev pub is_digit : Char → Bool
is_digit c = leb 48 (code c) && leb (code c) 57

-- `\w` and the dash
abbrev pub is_word : Char → Bool
is_word c =
    is_digit c
    || (leb 65 (code c) && leb (code c) 90)
    || (leb 97 (code c) && leb (code c) 122 || (eqb (code c) 95 || eqb (code c) 45))

abbrev pub is_newline : Char → Bool
is_newline c = eqb (code c) 10

-- What is behind the longest run of characters that pass the test.
unfoldable pub skip_while : (Char → Bool) → String → String
skip_while p String.[] = String.[]
skip_while p (String.◌∷◌ c s) = let rest = skip_while p s in if p c then rest else String.◌∷◌ c s

-- `.*$`
unfoldable pub is_line : String → Bool
is_line String.[] = true
is_line (String.◌∷◌ c s) = let rest = is_line s in not (is_newline c) && rest

-- `.+$`
unfoldable pub is_nonempty_line : String → Bool
is_nonempty_line String.[] = false
is_nonempty_line (String.◌∷◌ c s) = is_line (String.◌∷◌ c s)

abbrev pub then_line : Option String → Bool
then_line none = false
then_line (some s) = is_nonempty_line s

-- `:(key|alias)/.+$`
unfoldable pub is_resource : String → Bool
unfolding cut_prefix is_nonempty_line
is_resource s = then_line (cut_prefix ":key/" s) || then_line (cut_prefix ":alias/" s)

-- `[0-9]+:(key|alias)/.+$`
unfoldable pub is_account : String → Bool
unfolding skip_while is_resource
is_account String.[] = false
is_account (String.◌∷◌ c s) = is_digit c && is_resource (skip_while is_digit s)

-- `:[0-9]+:(key|alias)/.+$`
unfoldable pub is_tail : String → Bool
unfolding is_account
is_tail String.[] = false
is_tail (String.◌∷◌ c s) = eqb (code c) 58 && is_account s

-- The longest group `.+` before a tail.
unfoldable pub region_of : String → Option String
unfolding is_tail
region_of String.[] = none
region_of (String.◌∷◌ c s) =
    let longer = region_of s in
    if is_newline c
    then none
    else on_option longer (if is_tail s then some (String.◌∷◌ c String.[]) else none)
        (λ r. some (String.◌∷◌ c r))

abbrev pub behind_partition : Option String → Option String
behind_partition none = none
behind_partition (some s) = cut_prefix ":kms:" (skip_while is_word s)

abbrev pub region_or_empty : Option String → String
region_or_empty none = ""
region_or_empty (some s) = on_option (region_of s) "" (λ r. r)

-- `GetRegionFromKMSARN`
unfoldable pub get_region_from_kms_arn : String → String
unfolding cut_prefix skip_while region_of
get_region_from_kms_arn arn = region_or_empty (behind_partition (cut_prefix "arn:aws" arn))

abbrev pub all_chars : (Char → Bool) → String → Bool
all_chars p String.[] = true
all_chars p (String.◌∷◌ c s) = p c && all_chars p s

abbrev pub is_colon : Char → Bool
is_colon c = eqb (code c) 58

abbrev pub starts_no_tail : String → Bool
starts_no_tail String.[] = true
starts_no_tail (String.◌∷◌ c s) = not (is_colon c)

pub is_tail-no_colon : (s : String) → starts_no_tail s ≡ true → is_tail s ≡ false
unfolding is_tail
is_tail-no_colon String.[] h = refl
is_tail-no_colon (String.◌∷◌ c s) h = ground (arith, h)

-- Without a colon there is no tail, so that no region ends there.
pub region_of-no_colon :
    (s : String) → all_chars (λ c. not (is_colon c)) s ≡ true → region_of s ≡ none
unfolding region_of
region_of-no_colon String.[] h = refl
region_of-no_colon (String.◌∷◌ c s) h =
    rw (region_of-no_colon s (ground (arith, h)))
      (rw (is_tail-no_colon s (begins s (ground (arith, h)))) (ground arith))
  where
    begins : (s : String) → all_chars (λ c. not (is_colon c)) s ≡ true → starts_no_tail s ≡ true
    begins String.[] h = refl
    begins (String.◌∷◌ c s) h = ground (arith, h)

-- No region ends in a run of digits, if none ends behind it.
pub region_of-digits :
    (s u : String)
    → all_chars is_digit s ≡ true
    → region_of u ≡ none
    → is_tail u ≡ false
    → region_of (s ++ u) ≡ none
unfolding region_of
region_of-digits String.[] u h hu hs = rw (nil-append u) hu
region_of-digits (String.◌∷◌ c s) u h hu hs = rw (cons-append c s u) (
    rw (region_of-digits s u (ground (arith, h)) hu hs)
      (rw (no_tail s (ground (arith, h))) (ground arith)))
  where
    no_tail : (s : String) → all_chars is_digit s ≡ true → is_tail (s ++ u) ≡ false
    no_tail String.[] h = rw (nil-append u) hs
    no_tail (String.◌∷◌ c s) h =
        rw (cons-append c s u) (is_tail-no_colon (String.◌∷◌ c (s ++ u)) (ground (arith, h)))
