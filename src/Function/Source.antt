-- ===== src/Function/Source.antt =====
-- internal/function/store.go: sources are stored compressed.
use flagbase.Prelude.{
  ℕ, ◌≡◌, refl, List, ◌++◌, not, Option, none, some, drop, length, if◌then◌else◌,
}
use flagbase.Text.{codes, has_prefix}

-- compress/zlib and encoding/base64: `deflate` is Writer, `inflate` is Reader, on the bytes of texts.
pub record Codec : Type 0 where
  pub deflate : List ℕ → List ℕ
  pub inflate : List ℕ → Option (List ℕ)
  pub encode_base64 : List ℕ → List ℕ
  pub decode_base64 : List ℕ → Option (List ℕ)

pub record IsCodec (codec : Codec) : Type 0 where
  pub inflate_deflate : (s : List ℕ) → codec.inflate (codec.deflate s) ≡ some s
  pub decode_encode : (b : List ℕ) → codec.decode_base64 (codec.encode_base64 b) ≡ some b

abbrev pub src_prefix : List ℕ
src_prefix = codes "zlib:"

module _ (codec : Codec) where
  unfoldable pub compress_source : List ℕ → List ℕ
  compress_source src = src_prefix ++ codec.encode_base64 (codec.deflate src)

  abbrev pub inflated : List ℕ → Option (List ℕ) → List ℕ
  inflated s none = s
  inflated s (some b) = elim (codec.inflate b) [ none ↦ s | some out ↦ out ]

  unfoldable pub decompress_source : List ℕ → List ℕ
  unfolding has_prefix
  decompress_source s =
      if not (has_prefix s src_prefix)
      then s
      else inflated s (codec.decode_base64 (drop (length src_prefix) s))

  -- What has been compressed decompresses to itself.
  pub decompress_source-compress_source :
      (law : IsCodec codec) (src : List ℕ) → decompress_source (compress_source src) ≡ src
  unfolding decompress_source compress_source has_prefix
  decompress_source-compress_source law src =
      rw (law.decode_encode (codec.deflate src), inflated) (rw (law.inflate_deflate src) refl)
