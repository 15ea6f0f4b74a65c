-- ===== src/InodeManager/Layout.antt =====
-- inode_manager.h: `struct inode`, and its bytes. Offset 0 holds `short type`, 2 the padding, 4 to
-- 16 the four unsigned ints, and from 20 on the 101 block numbers.
use cse.Base.{
  ℕ, zero, suc, ◌+◌, ◌*◌, ◌/◌, ◌%◌, ◌^◌, ◌<◌, ◌≡◌, refl, List, [], ◌∷◌, ◌++◌, arith, get_or, length,
  All, drop,
}
use cse.Base.Bytes.{Bytes}
use cse.Disk.{ndirect}

-- `padding` is the two bytes behind `type`, which a copy of the struct copies too.
pub record Inode : Type 0 where
  pub type : ℕ
  pub padding : ℕ
  pub size : ℕ
  pub atime : ℕ
  pub mtime : ℕ
  pub ctime : ℕ
  pub blocks : List ℕ

abbrev pub block_count : ℕ
block_count = ndirect + 1

-- `sizeof(struct inode)`
abbrev pub inode_size : ℕ
inode_size = 20 + 4 * block_count

-- A 16-bit and a 32-bit number, the lowest byte first, in front of some bytes.
abbrev put16 : ℕ → Bytes → Bytes
put16 n s = (n % 256) ∷ (n / 256 % 256) ∷ s

abbrev put32 : ℕ → Bytes → Bytes
put32 n s = (n % 256) ∷ (n / 256 % 256) ∷ (n / 256 / 256 % 256) ∷ (n / 256 / 256 / 256 % 256) ∷ s

abbrev byte : Bytes → ℕ → ℕ
byte s i = get_or s i 0

abbrev get16 : Bytes → ℕ
get16 s = byte s 0 + 256 * byte s 1

abbrev get32 : Bytes → ℕ
get32 s = byte s 0 + 256 * (byte s 1 + 256 * (byte s 2 + 256 * byte s 3))

unfoldable pub put_words : List ℕ → Bytes
put_words [] = []
put_words (w ∷ ws) = put32 w (put_words ws)

unfoldable pub get_words : ℕ → Bytes → List ℕ
get_words zero s = []
get_words (suc n) s = get32 s ∷ get_words n (drop 4 s)

unfoldable pub encode : Inode → Bytes
unfolding put_words
encode ino = put16 ino.type (
    put16 ino.padding
      (put32 ino.size (put32 ino.atime (put32 ino.mtime (put32 ino.ctime (put_words ino.blocks))))))

unfoldable pub decode : Bytes → Inode
unfolding get_words
decode s = record {
  type = get16 s;
  padding = get16 (drop 2 s);
  size = get32 (drop 4 s);
  atime = get32 (drop 8 s);
  mtime = get32 (drop 12 s);
  ctime = get32 (drop 16 s);
  blocks = get_words block_count (drop 20 s);
}

-- Every field is in the range of its C type, and there are 101 block numbers.
pub record IsInode (ino : Inode) : Type 0 where
  pub type_fits : ino.type < 2 ^ 16
  pub padding_fits : ino.padding < 2 ^ 16
  pub size_fits : ino.size < 2 ^ 32
  pub atime_fits : ino.atime < 2 ^ 32
  pub mtime_fits : ino.mtime < 2 ^ 32
  pub ctime_fits : ino.ctime < 2 ^ 32
  pub blocks_fit : All (λ b. b < 2 ^ 32) ino.blocks
  pub blocks_count : length ino.blocks ≡ block_count

get32-put32 : (n : ℕ) (s : Bytes) → n < 2 ^ 32 → get32 (put32 n s) ≡ n
get32-put32 n s h = omega arith

get16-put16 : (n : ℕ) (s : Bytes) → n < 2 ^ 16 → get16 (put16 n s) ≡ n
get16-put16 n s h = omega arith

get_words-put_words :
    (n : ℕ) (ws : List ℕ) (rest : Bytes)
    → length ws ≡ n
    → All (λ b. b < 2 ^ 32) ws
    → get_words n (put_words ws ++ rest) ≡ ws
unfolding get_words put_words
get_words-put_words zero [] rest e h = refl
get_words-put_words zero (w ∷ ws) rest e h = absurd (omega arith)
get_words-put_words (suc n) [] rest e h = absurd (omega arith)
get_words-put_words (suc n) (w ∷ ws) rest e h =
    rw (get_words-put_words n ws rest (omega arith) h.1, get32-put32 w (put_words ws ++ rest) h.0)
      refl

-- An inode whose fields fit their widths and that has 101 block numbers is read back from its
-- bytes, whatever bytes follow them.
pub decode-encode : (ino : Inode) (rest : Bytes) → IsInode ino → decode (encode ino ++ rest) ≡ ino
unfolding decode encode
decode-encode ino rest v = λ i. record {
  type = get16-put16 ino.type [] v.type_fits i;
  padding = get16-put16 ino.padding [] v.padding_fits i;
  size = get32-put32 ino.size [] v.size_fits i;
  atime = get32-put32 ino.atime [] v.atime_fits i;
  mtime = get32-put32 ino.mtime [] v.mtime_fits i;
  ctime = get32-put32 ino.ctime [] v.ctime_fits i;
  blocks = words i;
}
  where
    words : get_words block_count (put_words ino.blocks ++ rest) ≡ ino.blocks
    words = get_words-put_words block_count ino.blocks rest v.blocks_count v.blocks_fit
