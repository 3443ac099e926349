-- ===== src/Intents/Codec.antt =====
-- internal/k8s/resource_intent_codec.go: a record as the data of a Secret, compressed where that
-- makes it shorter. The JSON codec and the two zstd codecs, which may fail to initialise, are
-- parameters.
use opensaola.Base.{
  ℕ, String, [], ◌∷◌, Option, none, some, Dict, lookup, ltb, if◌then◌else◌, ◌≡◌, refl, inl, inr,
  Bool-cases, Option-cases, subst, arith,
}
use opensaola.Intents.{ok-eq, Fallible, ok, err, encoding_failed}

abbrev pub intent_json_key : String
intent_json_key = "intent.json"

abbrev pub intent_zstd_key : String
intent_zstd_key = "intent.json.zst"

pub record Codecs (R Bytes : Type 0) : Type 0 where
  pub marshal : R → Option Bytes
  pub unmarshal : Bytes → Option R
  pub encoder : Option (Bytes → Bytes)
  pub decoder : Option (Bytes → Option Bytes)
  pub size : Bytes → ℕ

-- Decoding undoes encoding: json.Unmarshal of what json.Marshal gives, and DecodeAll of what
-- EncodeAll gives; the decoder initialises.
pub record IsInverse {R Bytes : Type 0} (c : Codecs R Bytes) : Type 0 where
  pub json : (r : R) (raw : Bytes) → c.marshal r ≡ some raw → c.unmarshal raw ≡ some r
  pub decode : Bytes → Option Bytes
  pub initialised : c.decoder ≡ some decode
  pub zstd :
      (encode : Bytes → Bytes) (raw : Bytes)
      → c.encoder ≡ some encode
      → decode (encode raw) ≡ some raw

abbrev or_failed : {A : Type 0} → Option A → Fallible A
or_failed none = err encoding_failed
or_failed (some a) = ok a

module _ {R Bytes : Type 0} (c : Codecs R Bytes) where
  abbrev compressed : (Bytes → Bytes) → Bytes → Dict Bytes
  compressed encode raw =
      if ltb (c.size (encode raw)) (c.size raw)
      then (intent_zstd_key, encode raw) ∷ []
      else (intent_json_key, raw) ∷ []

  unfoldable pub encode_with : Option (Bytes → Bytes) → Bytes → Fallible (Dict Bytes)
  encode_with none raw = err encoding_failed
  encode_with (some encode) raw = ok (compressed encode raw)

  unfoldable pub encode_raw : Option Bytes → Fallible (Dict Bytes)
  encode_raw none = err encoding_failed
  encode_raw (some raw) = encode_with c.encoder raw

  unfoldable pub encode_resource_intent : R → Fallible (Dict Bytes)
  encode_resource_intent r = encode_raw (c.marshal r)

  unfoldable pub decode_raw : Option Bytes → Fallible R
  decode_raw none = err encoding_failed
  decode_raw (some raw) = decoded (c.unmarshal raw)
    where
      decoded : Option R → Fallible R
      decoded none = err encoding_failed
      decoded (some r) = ok r

  unfoldable pub decompress : Option (Bytes → Option Bytes) → Bytes → Option Bytes
  decompress none b = none
  decompress (some decode) b = decode b

  -- One of the two keys must be there, and not both.
  unfoldable pub decode_entry : Option Bytes → Option Bytes → Fallible R
  decode_entry (some raw) none = decode_raw (some raw)
  decode_entry none (some packed) = decode_raw (decompress c.decoder packed)
  decode_entry _ _ = err encoding_failed

  unfoldable pub decode_resource_intent : Dict Bytes → Fallible R
  decode_resource_intent d = decode_entry (lookup intent_json_key d) (lookup intent_zstd_key d)

  decode-compressed :
      (r : R) (encode : Bytes → Bytes) (raw : Bytes)
      → IsInverse c
      → c.marshal r ≡ some raw
      → c.encoder ≡ some encode
      → decode_resource_intent (compressed encode raw) ≡ ok r
  unfolding decode_resource_intent decode_entry decode_raw decompress lookup
  decode-compressed r encode raw inv m n =
      elim (Bool-cases (ltb (c.size (encode raw)) (c.size raw))) [
        | inl h ↦ rw (h, inv.initialised, inv.zstd encode raw n, inv.json r raw m) refl
        | inr h ↦ rw (h, inv.json r raw m) refl
      ]

  decode-encode_with :
      (r : R) (raw : Bytes) (encoder : Option (Bytes → Bytes)) (d : Dict Bytes)
      → IsInverse c
      → c.marshal r ≡ some raw
      → c.encoder ≡ encoder
      → encode_with encoder raw ≡ ok d
      → decode_resource_intent d ≡ ok r
  unfolding encode_with
  decode-encode_with r raw none d inv m n e = absurd (ground arith)
  decode-encode_with r raw (some encode) d inv m n e =
      subst (λ x. decode_resource_intent x ≡ ok r) (ok-eq e)
        (decode-compressed r encode raw inv m n)

  -- What decodes is what was encoded, compressed or not, where decoding undoes encoding for the
  -- JSON codec and the zstd codec.
  pub decode-encode :
      (r : R) (d : Dict Bytes)
      → IsInverse c
      → encode_resource_intent r ≡ ok d
      → decode_resource_intent d ≡ ok r
  unfolding encode_resource_intent encode_raw
  decode-encode r d inv e = elim (Option-cases (c.marshal r)) [
    | inl m ↦ absurd (ground (arith, m))
    | inr (raw, m) ↦ decode-encode_with r raw c.encoder d inv m refl (rw m at e)
  ]
