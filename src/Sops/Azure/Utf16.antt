-- ===== src/Sops/Azure/Utf16.antt =====
-- `decode` of internal/sops/azkv/config.go, with `utf16.Decode`. Bytes and code points are numbers.
use fork_kustomize_controlle.Prelude.{
  ℕ, ◌+◌, ◌-◌, ◌*◌, ◌/◌, ◌%◌, ◌≤◌, ◌<◌, Bool, ◌&&◌, ◌||◌, List, [], ◌∷◌, ◌++◌, ltb, leb,
  if◌then◌else◌, ◌≡◌, refl, arith, ◌⊎◌, inl, inr, Bool-cases, ap, ◌∙◌,
}

-- What `utfbom.Skip` finds at the front of the bytes.
pub data Encoding : Type 0 where
  no_bom utf8_bom utf16_big_endian utf16_little_endian utf32_big_endian utf32_little_endian :
      Encoding

-- `binary.Read` of as many 16-bit words as fit in the bytes
unfoldable pub words_little : List ℕ → List ℕ
words_little [] = []
words_little (a ∷ []) = []
words_little (a ∷ b ∷ bs) = (a + 256 * b) ∷ words_little bs

unfoldable pub words_big : List ℕ → List ℕ
words_big [] = []
words_big (a ∷ []) = []
words_big (a ∷ b ∷ bs) = (256 * a + b) ∷ words_big bs

abbrev pub replacement : ℕ
replacement = 65533

abbrev pub is_high : ℕ → Bool
is_high w = leb 55296 w && ltb w 56320

abbrev pub is_low : ℕ → Bool
is_low w = leb 56320 w && ltb w 57344

-- The code point of a surrogate pair.
abbrev pub combine : ℕ → ℕ → ℕ
combine h l = (h - 55296) * 1024 + (l - 56320) + 65536

-- `utf16.Decode`: a surrogate that is not part of a pair is replaced.
unfoldable pub decode_words : List ℕ → List ℕ
decode_words [] = []
decode_words (w ∷ []) = (if is_high w || is_low w then replacement else w) ∷ []
decode_words (w ∷ v ∷ ws) =
    let paired = decode_words ws in
    let rest = decode_words (v ∷ ws) in
    if is_high w && is_low v
    then combine w v ∷ paired
    else (if is_high w || is_low w then replacement else w) ∷ rest

-- `utf16.Decode` of the words behind a byte order mark. Other encodings are left as they are.
unfoldable pub decode : Encoding → List ℕ → (List ℕ → List ℕ) → List ℕ
unfolding words_little words_big decode_words
decode utf16_little_endian rest utf8 = utf8 (decode_words (words_little rest))
decode utf16_big_endian rest utf8 = utf8 (decode_words (words_big rest))
decode _ rest utf8 = rest

-- The 16-bit words of a code point, as an encoder writes them.
abbrev pub encode_point : ℕ → List ℕ
encode_point c =
    if ltb c 65536 then c ∷ [] else (55296 + (c - 65536) / 1024) ∷ (56320 + (c - 65536) % 1024) ∷ []

abbrev pub encode_words : List ℕ → List ℕ
encode_words [] = []
encode_words (c ∷ cs) = encode_point c ++ encode_words cs

-- A code point that is no surrogate.
abbrev pub IsScalar : ℕ → Type 0
IsScalar c = (c < 55296) ⊎ (57344 ≤ c) × (c < 1114112)

abbrev pub AllScalar : List ℕ → Type 0
AllScalar [] = Unit
AllScalar (c ∷ cs) = IsScalar c × AllScalar cs

decode-single :
    (w : ℕ) (ws : List ℕ)
    → (is_high w || is_low w) ≡ Bool.false
    → decode_words (w ∷ ws) ≡ w ∷ decode_words ws
unfolding decode_words
decode-single w [] h = rw h refl
decode-single w (v ∷ ws) h = ground (arith, h)

decode-pair :
    (w v : ℕ) (ws : List ℕ)
    → (is_high w && is_low v) ≡ Bool.true
    → decode_words (w ∷ v ∷ ws) ≡ combine w v ∷ decode_words ws
unfolding decode_words
decode-pair w v ws h = rw h refl

combine-split :
    (c : ℕ) → 65536 ≤ c → combine (55296 + (c - 65536) / 1024) (56320 + (c - 65536) % 1024) ≡ c
combine-split c h = omega arith

pub decode_words-encode_words : (cs : List ℕ) → AllScalar cs → decode_words (encode_words cs) ≡ cs
decode_words-encode_words [] h = unfold decode_words in refl
decode_words-encode_words (c ∷ cs) (here, rest) = elim (Bool-cases (ltb c 65536)) [
  | inl small ↦ rw small (
      decode-single c (encode_words cs) (ground (arith, small, here))
      ∙ ap (λ ws. c ∷ ws) (decode_words-encode_words cs rest))
  | inr large ↦ rw large (
      decode-pair _ _ (encode_words cs) (ground (arith, large, here))
      ∙ ap2 (combine-split c (ground (arith, large))) (decode_words-encode_words cs rest))
]
  where
    ap2 : {a b : ℕ} {xs ys : List ℕ} → a ≡ b → xs ≡ ys → a ∷ xs ≡ b ∷ ys
    ap2 e f = cc (e, f)

-- The two bytes of each word, the lower one first, or the higher one first.
abbrev pub bytes_little : List ℕ → List ℕ
bytes_little [] = []
bytes_little (w ∷ ws) = (w % 256) ∷ (w / 256) ∷ bytes_little ws

abbrev pub bytes_big : List ℕ → List ℕ
bytes_big [] = []
bytes_big (w ∷ ws) = (w / 256) ∷ (w % 256) ∷ bytes_big ws

words_little-bytes_little : (ws : List ℕ) → words_little (bytes_little ws) ≡ ws
unfolding words_little
words_little-bytes_little [] = refl
words_little-bytes_little (w ∷ ws) =
    let low : w % 256 + 256 * (w / 256) ≡ w = omega arith in cc (low, words_little-bytes_little ws)

words_big-bytes_big : (ws : List ℕ) → words_big (bytes_big ws) ≡ ws
unfolding words_big
words_big-bytes_big [] = refl
words_big-bytes_big (w ∷ ws) =
    let high : 256 * (w / 256) + w % 256 ≡ w = omega arith in cc (high, words_big-bytes_big ws)

-- A file that encodes code points, none of them a surrogate, as UTF-16 with a byte order mark is
-- decoded to these code points, in either byte order; `utf8` writes out what is decoded.
pub decode-roundtrip :
    (utf8 : List ℕ → List ℕ) (cs : List ℕ)
    → AllScalar cs
    → (decode utf16_little_endian (bytes_little (encode_words cs)) utf8 ≡ utf8 cs)
      × (decode utf16_big_endian (bytes_big (encode_words cs)) utf8 ≡ utf8 cs)
unfolding decode
decode-roundtrip utf8 cs h = (
  ap (λ ws. utf8 (decode_words ws)) (words_little-bytes_little (encode_words cs))
      ∙ ap utf8 (decode_words-encode_words cs h),
  ap (λ ws. utf8 (decode_words ws)) (words_big-bytes_big (encode_words cs))
      ∙ ap utf8 (decode_words-encode_words cs h),
)
