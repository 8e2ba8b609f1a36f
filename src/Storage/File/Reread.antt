-- ===== src/Storage/File/Reread.antt =====
-- Each record is read back as it was written, and takes as many bytes as its Go type.
use textiplex.Prelude.{
  ℕ, suc, All, ◌+◌, ◌*◌, ◌^◌, ◌<◌, ◌≡◌, refl, ap, ◌∙◌, List, [], ◌∷◌, ◌++◌, length, drop, arith,
  length-append,
}
use mathlib.Core.List.{append_assoc}
use textiplex.Bytes.{Bytes}
use textiplex.Storage.Headers.{
  PostingListHeader, TokenFrequencyEntry, RawValue, Token, DocumentLengthEntry, DocumentId,
  max_raw_value_size,
}
use textiplex.Storage.File.Endian.{
  Endian, IsEndian, read_at, read_at-here, read_at-skip, take-append, drop-append, drop-append_eq,
}
use textiplex.Storage.File.Records.{
  encode_posting_list_header, decode_posting_list_header, encode_frequency, decode_frequency,
  encode_length, decode_length, encode_raw_value, decode_raw_value, encode_document_id,
  decode_document_id, encode_token, decode_token, chunks, IsPostingListHeader, IsFrequency,
  IsLength, IsRawValue, IsDocumentId, IsToken,
}

-- Every piece has 8 bytes.
abbrev pub IsChunks : List Bytes → Type 0
IsChunks cs = All (λ c. length c ≡ 8) cs

pub chunks-append : (cs : List Bytes) (t b : Bytes) → chunks cs t ++ b ≡ chunks cs (t ++ b)
chunks-append [] t b = refl
chunks-append (c ∷ cs) t b =
    append_assoc c (chunks cs t) b ∙ ap (λ l. c ++ l) (chunks-append cs t b)

pub length-chunks :
    (cs : List Bytes) (t : Bytes) → IsChunks cs → length (chunks cs t) ≡ 8 * length cs + length t
length-chunks [] t h = omega arith
length-chunks (c ∷ cs) t h =
    omega (arith, length-append c (chunks cs t), length-chunks cs t h.1, h.0)

pub drop-chunks :
    (cs : List Bytes) (t : Bytes) → IsChunks cs → drop (8 * length cs) (chunks cs t) ≡ t
drop-chunks [] t h = refl
drop-chunks (c ∷ cs) t h =
    ap (λ k. drop k (c ++ chunks cs t)) (mul_suc (length cs) (length c) h.0)
    ∙ drop-append c (8 * length cs) (chunks cs t)
    ∙ drop-chunks cs t h.1
  where
    mul_suc : (n m : ℕ) → m ≡ 8 → 8 * suc n ≡ m + 8 * n
    mul_suc n m h = omega arith

module _ (e : Endian) (e_ok : IsEndian e) where
  -- A read in the piece that follows the first ones.
  pub read_at-chunks :
      (pre : List Bytes) (o w : ℕ) (b : Bytes)
      → IsChunks pre
      → read_at e (8 * length pre + o) w (chunks pre b) ≡ read_at e o w b
  read_at-chunks [] o w b h = ap (λ k. read_at e k w b) (zero_add o)
    where
      zero_add : (o : ℕ) → 8 * 0 + o ≡ o
      zero_add o = omega arith
  read_at-chunks (c ∷ pre) o w b h =
      ap (λ k. read_at e k w (c ++ chunks pre b)) (mul_suc (length pre))
      ∙ read_at-skip e e_ok c 8 (8 * length pre + o) w (chunks pre b) h.0
      ∙ read_at-chunks pre o w b h.1
    where
      mul_suc : (n : ℕ) → 8 * suc n + o ≡ 8 + (8 * n + o)
      mul_suc n = omega arith

  -- A read that begins behind the first integer.
  skip : (w v o w' : ℕ) (b : Bytes) → read_at e (w + o) w' (e.put w v ++ b) ≡ read_at e o w' b
  skip w v o w' b = read_at-skip e e_ok (e.put w v) w o w' b (e_ok.0 w v)

  read_first : (w v : ℕ) (a b : Bytes) → v < 256 ^ w → read_at e 0 w ((e.put w v ++ a) ++ b) ≡ v
  read_first w v a b h = rw (append_assoc (e.put w v) a b) (read_at-here e e_ok w v (a ++ b) h)

  read_second :
      (w v w' v' : ℕ) (b : Bytes)
      → v' < 256 ^ w'
      → read_at e (w + 0) w' ((e.put w v ++ e.put w' v') ++ b) ≡ v'
  read_second w v w' v' b h =
      rw (append_assoc (e.put w v) (e.put w' v') b, skip w v 0 w' (e.put w' v' ++ b))
        (read_at-here e e_ok w' v' b h)

  length-puts : (w v w' v' : ℕ) → length (e.put w v ++ e.put w' v') ≡ w + w'
  length-puts w v w' v' =
      omega (arith, length-append (e.put w v) (e.put w' v'), e_ok.0 w v, e_ok.0 w' v')

  decode-encode_raw_value :
      (v : RawValue) (b : Bytes) → IsRawValue v → decode_raw_value e (encode_raw_value e v ++ b) ≡ v
  unfolding encode_raw_value decode_raw_value
  decode-encode_raw_value v b h =
      rw
        (
          read_first 8 v.size v.store b h.0,
          append_assoc (e.put 8 v.size) v.store b,
          drop-append_eq (e.put 8 v.size) 8 (v.store ++ b) (e_ok.0 8 v.size),
          take-append v.store max_raw_value_size b h.1,
        )
        refl

  length-encode_raw_value : (v : RawValue) → IsRawValue v → length (encode_raw_value e v) ≡ 136
  unfolding encode_raw_value
  length-encode_raw_value v h =
      omega (arith, length-append (e.put 8 v.size) v.store, e_ok.0 8 v.size, h.1)

  pub decode-encode_frequency :
      (f : TokenFrequencyEntry) (b : Bytes)
      → IsFrequency f
      → decode_frequency e (encode_frequency e f ++ b) ≡ f
  unfolding encode_frequency decode_frequency
  decode-encode_frequency f b h =
      rw
        (
          read_first 4 f.document_index (e.put 4 f.frequency) b h.0,
          read_second 4 f.document_index 4 f.frequency b h.1,
        )
        refl

  pub length-encode_frequency : (f : TokenFrequencyEntry) → length (encode_frequency e f) ≡ 8
  unfolding encode_frequency
  length-encode_frequency f = length-puts 4 f.document_index 4 f.frequency

  pub decode-encode_length :
      (l : DocumentLengthEntry) (b : Bytes)
      → IsLength l
      → decode_length e (encode_length e l ++ b) ≡ l
  unfolding encode_length decode_length
  decode-encode_length l b h =
      rw (read_first 4 l.index (e.put 4 l.length) b h.0, read_second 4 l.index 4 l.length b h.1)
        refl

  pub length-encode_length : (l : DocumentLengthEntry) → length (encode_length e l) ≡ 8
  unfolding encode_length
  length-encode_length l = length-puts 4 l.index 4 l.length

  pub decode-encode_posting_list_header :
      (h : PostingListHeader) (b : Bytes)
      → IsPostingListHeader h
      → decode_posting_list_header e (encode_posting_list_header e h ++ b) ≡ h
  unfolding encode_posting_list_header decode_posting_list_header
  decode-encode_posting_list_header h b p =
      rw (read_first 8 h.offset (e.put 8 h.length) b p.0, read_second 8 h.offset 8 h.length b p.1)
        refl

  pub length-encode_posting_list_header :
      (h : PostingListHeader) → length (encode_posting_list_header e h) ≡ 16
  unfolding encode_posting_list_header
  length-encode_posting_list_header h = length-puts 8 h.offset 8 h.length

  pub decode-encode_document_id :
      (d : DocumentId) (b : Bytes)
      → IsDocumentId d
      → decode_document_id e (encode_document_id e d ++ b) ≡ d
  unfolding encode_document_id decode_document_id
  decode-encode_document_id d b h =
      ap (λ v. record { value = v }) (decode-encode_raw_value d.value b h)

  pub length-encode_document_id :
      (d : DocumentId) → IsDocumentId d → length (encode_document_id e d) ≡ 136
  unfolding encode_document_id
  length-encode_document_id d h = length-encode_raw_value d.value h

  pub decode-encode_token :
      (t : Token) (b : Bytes) → IsToken t → decode_token e (encode_token e t ++ b) ≡ t
  unfolding encode_token decode_token
  decode-encode_token t b h =
      rw
        (
          chunks-append fields (encode_raw_value e t.value) b,
          read_at-here e e_ok 8 t.frequency_count
              (e.put 8 t.posting_list_index ++ (e.put 8 t.frequencies_index ++ tail)) h.0,
          read_at-chunks (e.put 8 t.frequency_count ∷ []) 0 8
              (e.put 8 t.posting_list_index ++ (e.put 8 t.frequencies_index ++ tail))
              (e_ok.0 8 _, tt),
          read_at-here e e_ok 8 t.posting_list_index (e.put 8 t.frequencies_index ++ tail) h.1,
          read_at-chunks (e.put 8 t.frequency_count ∷ e.put 8 t.posting_list_index ∷ []) 0 8
              (e.put 8 t.frequencies_index ++ tail) (e_ok.0 8 _, (e_ok.0 8 _, tt)),
          read_at-here e e_ok 8 t.frequencies_index tail h.2,
          drop-chunks fields tail (e_ok.0 8 _, (e_ok.0 8 _, (e_ok.0 8 _, tt))),
          decode-encode_raw_value t.value b h.3,
        )
        refl
    where
      fields : List Bytes
      fields =
          e.put 8 t.frequency_count
          ∷ e.put 8 t.posting_list_index
          ∷ e.put 8 t.frequencies_index
          ∷ []

      tail : Bytes
      tail = encode_raw_value e t.value ++ b

  pub length-encode_token : (t : Token) → IsToken t → length (encode_token e t) ≡ 160
  unfolding encode_token
  length-encode_token t h = omega (
    arith,
    length-chunks
        (e.put 8 t.frequency_count
          ∷ e.put 8 t.posting_list_index
          ∷ e.put 8 t.frequencies_index
          ∷ [])
        (encode_raw_value e t.value) (e_ok.0 8 _, (e_ok.0 8 _, (e_ok.0 8 _, tt))),
    length-encode_raw_value t.value h.3,
  )

  -- An integer at the start of the piece that follows the first ones.
  pub read_chunk :
      (pre : List Bytes) (w v : ℕ) (a b : Bytes)
      → IsChunks pre
      → v < 256 ^ w
      → read_at e (8 * length pre + 0) w (chunks pre ((e.put w v ++ a) ++ b)) ≡ v
  read_chunk pre w v a b h small =
      read_at-chunks pre 0 w ((e.put w v ++ a) ++ b) h ∙ read_first w v a b small

  pub read_whole_chunk :
      (pre : List Bytes) (v : ℕ) (b : Bytes)
      → IsChunks pre
      → v < 2 ^ 64
      → read_at e (8 * length pre + 0) 8 (chunks pre (e.put 8 v ++ b)) ≡ v
  read_whole_chunk pre v b h small =
      read_at-chunks pre 0 8 (e.put 8 v ++ b) h ∙ read_at-here e e_ok 8 v b small
