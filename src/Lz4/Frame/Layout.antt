-- ===== src/Lz4/Frame/Layout.antt =====
-- The frame format, independent of the decoder.
use adr_os.Prelude.{ℕ, ◌+◌, ◌*◌, ◌/◌, ◌%◌, ◌^◌, ◌≤◌, ◌<◌, List, [], ◌∷◌, ◌++◌, length, ◌≡◌}
use adr_os.Xxhash.{xxh32}
use adr_os.Lz4.Frame.{frame_magic, flag, read_le32, read_le64}
use adr_os.Lz4.Format.{Stream}

-- The four bytes of a word, lowest first.
abbrev pub word_bytes : ℕ → List ℕ
word_bytes w = w % 2 ^ 8 ∷ w / 2 ^ 8 % 2 ^ 8 ∷ w / 2 ^ 16 % 2 ^ 8 ∷ w / 2 ^ 24 ∷ []

-- `DataBlocks checks ip out rest res`: behind the output `out`, the bytes `ip` are blocks and an end
-- mark, which decode to the output `res` and leave the bytes `rest`. A block has its size, its
-- bytes and, if `checks` is 1, four bytes of checksum. Compressed blocks decode on their own.
pub data DataBlocks (checks : ℕ) : List ℕ → List ℕ → List ℕ → List ℕ → Type 0 where
  end_mark :
      {ip out rest res : List ℕ}
      → ip ≡ word_bytes 0 ++ rest
      → res ≡ out
      → DataBlocks checks ip out rest res
  stored :
      {ip out rest res : List ℕ} (payload check tail : List ℕ)
      → ip ≡ word_bytes (2 ^ 31 + length payload) ++ (payload ++ (check ++ tail))
      → length payload < 2 ^ 31
      → length check ≡ 4 * checks
      → DataBlocks checks tail (out ++ payload) rest res
      → DataBlocks checks ip out rest res
  packed :
      {ip out rest res : List ℕ} (payload content check tail : List ℕ)
      → ip ≡ word_bytes (length payload) ++ (payload ++ (check ++ tail))
      → length payload < 2 ^ 31
      → Stream payload [] content
      → length check ≡ 4 * checks
      → DataBlocks checks tail (out ++ content) rest res
      → DataBlocks checks ip out rest res

-- A header with the flags `flg` in front of `ip`: the magic number, the descriptor and the byte of
-- its checksum.
pub record Header (bytes : List ℕ) (flg content_size : ℕ) (ip : List ℕ) : Type 0 where
  pub bd : ℕ
  pub size_field : List ℕ
  pub dict_field : List ℕ
  pub laid_out :
      bytes
      ≡ word_bytes frame_magic
        ++ ((flg ∷ bd ∷ (size_field ++ dict_field))
            ++ (xxh32 (flg ∷ bd ∷ (size_field ++ dict_field)) 0 / 2 ^ 8 % 2 ^ 8 ∷ ip))
  pub version : flg / 2 ^ 6 % 4 ≡ 1
  pub independent : flag flg 5 ≡ 1
  pub length_size : length size_field ≡ 8 * flag flg 3
  pub length_dict : length dict_field ≡ 4 * flag flg 0
  pub size_given : flag flg 3 ≡ 1 → content_size ≡ read_le64 size_field

-- `Frame bytes res`: a header, blocks that decode to `res`, the checksum and the size of the content
-- if the flags have them.
pub record Frame (bytes res : List ℕ) : Type 0 where
  pub flg : ℕ
  pub content_size : ℕ
  pub ip : List ℕ
  pub rest : List ℕ
  pub header : Header bytes flg content_size ip
  pub blocks : DataBlocks (flag flg 4) ip [] rest res
  pub checksum : flag flg 2 ≡ 1 → (4 ≤ length rest) × (read_le32 rest ≡ xxh32 res 0)
  pub size : flag flg 3 ≡ 1 → length res ≡ content_size
