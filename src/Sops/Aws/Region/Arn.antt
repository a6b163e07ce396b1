-- ===== src/Sops/Aws/Region/Arn.antt =====
-- The region of the ARN of a key.
use Prim.Native.Char.{Char}
use Prim.Native.String.{◌++◌}
use text.Mathlib.TextLemmas.{nil-append, cons-append}
use fork_kustomize_controlle.Prelude.{String, Bool, true, false, not, none, some, ◌≡◌, refl, arith}
use fork_kustomize_controlle.Prelude.Texts.{cut_prefix}
use fork_kustomize_controlle.Sops.Aws.Region.{
  get_region_from_kms_arn, region_of, is_tail, is_account, is_resource, skip_while,
  is_nonempty_line, is_word, is_digit, is_newline, all_chars, is_colon, is_tail-no_colon,
  region_of-no_colon, region_of-digits,
}

cut_prefix-append : (p s : String) → cut_prefix p (p ++ s) ≡ some s
unfolding cut_prefix
cut_prefix-append String.[] s = rw (nil-append s) refl
cut_prefix-append (String.◌∷◌ c p) s = rw (cons-append c p s, cut_prefix-append p s) (ground arith)

abbrev starts_not : (Char → Bool) → String → Bool
starts_not p String.[] = true
starts_not p (String.◌∷◌ c s) = not (p c)

skip_while-starts_not : (p : Char → Bool) (u : String) → starts_not p u ≡ true → skip_while p u ≡ u
unfolding skip_while
skip_while-starts_not p String.[] h = refl
skip_while-starts_not p (String.◌∷◌ c s) h = ground (arith, h)

skip_while-append :
    (p : Char → Bool) (s u : String)
    → all_chars p s ≡ true
    → starts_not p u ≡ true
    → skip_while p (s ++ u) ≡ u
unfolding skip_while
skip_while-append p String.[] u h hu = rw (nil-append u) (skip_while-starts_not p u hu)
skip_while-append p (String.◌∷◌ c s) u h hu =
    rw (cons-append c s u, skip_while-append p s u (ground (arith, h)) hu) (ground (arith, h))

abbrev pub is_some_text : String → Bool
is_some_text String.[] = false
is_some_text (String.◌∷◌ c s) = true

region_of-append :
    (r t : String)
    → is_some_text r ≡ true
    → all_chars (λ c. not (is_newline c)) r ≡ true
    → region_of t ≡ none
    → is_tail t ≡ true
    → region_of (r ++ t) ≡ some r
unfolding region_of
region_of-append String.[] t some_text line short tail = cc
region_of-append (String.◌∷◌ c String.[]) t some_text line short tail =
    rw (cons-append c String.[] t, nil-append t, short, tail) (ground (arith, line))
region_of-append (String.◌∷◌ c (String.◌∷◌ d s)) t some_text line short tail =
    rw
      (
        cons-append c (String.◌∷◌ d s) t,
        region_of-append (String.◌∷◌ d s) t refl (ground (arith, line)) short tail,
      )
      (ground (arith, line))

all_chars-append :
    (p : Char → Bool) (s t : String)
    → all_chars p s ≡ true
    → all_chars p t ≡ true
    → all_chars p (s ++ t) ≡ true
all_chars-append p String.[] t hs ht = rw (nil-append t) ht
all_chars-append p (String.◌∷◌ c s) t hs ht =
    rw (cons-append c s t) (ground (arith, hs, all_chars-append p s t (ground (arith, hs)) ht))

-- What is behind the account.
resource_no_region :
    (id : String) → all_chars (λ c. not (is_colon c)) id ≡ true → region_of (":key/" ++ id) ≡ none
unfolding region_of
resource_no_region id h =
    rw
      (
        cons-append ":" "key/" id,
        region_of-no_colon ("key/" ++ id)
            (all_chars-append (λ c. not (is_colon c)) "key/" id refl h),
        is_tail-no_colon ("key/" ++ id) (rw (cons-append "k" "ey/" id) refl),
      )
      refl

resource_no_tail : (id : String) → is_tail (":key/" ++ id) ≡ false
unfolding is_tail is_account
resource_no_tail id = rw (cons-append ":" "key/" id, cons-append "k" "ey/" id) refl

is_resource-key : (id : String) → is_nonempty_line id ≡ true → is_resource (":key/" ++ id) ≡ true
unfolding is_resource
is_resource-key id h = rw (cut_prefix-append ":key/" id, h) refl

is_account-digits :
    (account u : String)
    → is_some_text account ≡ true
    → all_chars is_digit account ≡ true
    → starts_not is_digit u ≡ true
    → is_account (account ++ u) ≡ is_resource u
unfolding is_account
is_account-digits String.[] u some_text h hu = cc
is_account-digits (String.◌∷◌ c s) u some_text h hu =
    rw (cons-append c s u, skip_while-append is_digit s u (ground (arith, h)) hu)
      (ground (arith, h))

account_no_tail :
    (account u : String)
    → is_some_text account ≡ true
    → all_chars is_digit account ≡ true
    → is_tail (account ++ u) ≡ false
account_no_tail String.[] u some_text h = cc
account_no_tail (String.◌∷◌ c s) u some_text h =
    is_tail-no_colon (String.◌∷◌ c s ++ u) (rw (cons-append c s u) (ground (arith, h)))

abbrev pub tail_of : String → String → String
tail_of account id = ":" ++ (account ++ (":key/" ++ id))

module _ (account id : String) (some_account : is_some_text account ≡ true)
    (digits : all_chars is_digit account ≡ true)
    (no_colon : all_chars (λ c. not (is_colon c)) id ≡ true) where
  tail_no_region : region_of (tail_of account id) ≡ none
  unfolding region_of
  tail_no_region =
      rw
        (
          cons-append ":" "" (account ++ (":key/" ++ id)),
          nil-append (account ++ (":key/" ++ id)),
          region_of-digits account (":key/" ++ id) digits (resource_no_region id no_colon)
              (resource_no_tail id),
          account_no_tail account (":key/" ++ id) some_account digits,
        )
        refl

  tail-is_tail : is_nonempty_line id ≡ true → is_tail (tail_of account id) ≡ true
  unfolding is_tail
  tail-is_tail line =
      rw
        (
          cons-append ":" "" (account ++ (":key/" ++ id)),
          nil-append (account ++ (":key/" ++ id)),
          is_account-digits account (":key/" ++ id) some_account digits
              (rw (cons-append ":" "key/" id) refl),
          is_resource-key id line,
        )
        refl

-- The region of the ARN of a key in any partition is the part between the service and the account,
-- if the account is a number, the region has no line break, and the id has no line break and no
-- colon.
pub get_region_from_kms_arn-roundtrip :
    (partition region account id : String)
    → all_chars is_word partition ≡ true
    → is_some_text region ≡ true
    → all_chars (λ c. not (is_newline c)) region ≡ true
    → is_some_text account ≡ true
    → all_chars is_digit account ≡ true
    → is_nonempty_line id ≡ true
    → all_chars (λ c. not (is_colon c)) id ≡ true
    → get_region_from_kms_arn
        ("arn:aws" ++ (partition ++ (":kms:" ++ (region ++ tail_of account id))))
      ≡ region
unfolding get_region_from_kms_arn
get_region_from_kms_arn-roundtrip partition region account id word some_region region_line
      some_account digits id_line no_colon =
    rw
      (
        cut_prefix-append "arn:aws" (partition ++ (":kms:" ++ (region ++ tail_of account id))),
        skip_while-append is_word partition (":kms:" ++ (region ++ tail_of account id)) word
            (rw (cons-append ":" "kms:" (region ++ tail_of account id)) refl),
        cut_prefix-append ":kms:" (region ++ tail_of account id),
        region_of-append region (tail_of account id) some_region region_line
            (tail_no_region account id some_account digits no_colon)
            (tail-is_tail account id some_account digits no_colon id_line),
      )
      refl
