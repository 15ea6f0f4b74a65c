-- ===== src/InodeManager/Fields.antt =====
-- inode_manager.cc: an inode that is read from any bytes, and the bytes of any inode.
use cse.Base.{
  ℕ, zero, suc, ◌+◌, ◌*◌, ◌/◌, ◌%◌, ◌^◌, ◌<◌, ◌≡◌, ◌≢◌, refl, ◌∙◌, ap, inl, inr, arith, ◌==◌,
  if◌then◌else◌, some, List, [], ◌∷◌, get_or, drop, length, All, All-append, Bool-cases, ==_iff,
  Returns,
}
use cse.Base.Bytes.{Bytes}
use cse.Disk.{block_num, inode_num, iblock, IsByte, IsBlock, IsDisk}
use cse.InodeManager.{Manager, ◌>>=◌, get_inode, put_inode}
use cse.BlockManager.Bitmap.{get_or-IsByte}
use cse.InodeManager.Layout.{
  put_words, Inode, block_count, inode_size, get_words, encode, decode, IsInode, decode-encode,
}
use cse.InodeManager.Inodes.{
  image, length-image, get_block-inside, put_block-inside, get_inode-inside, elsewhere,
}
use cse.InodeManager.Direct.{All-drop}

-- Whatever bytes memory holds, the numbers read from it fit the fields.
get_words-fit :
    (n : ℕ) (s : Bytes)
    → All IsByte s
    → All (λ b. b < 2 ^ 32) (get_words n s) × (length (get_words n s) ≡ n)
unfolding get_words
get_words-fit zero s h = (tt, refl)
get_words-fit (suc n) s h =
    let (fit, len) = get_words-fit n (drop 4 s) (All-drop 4 s h) in ((word s h, fit), ap suc len)
  where
    word :
        (s : Bytes)
        → All IsByte s
        → get_or s 0 0 + 256 * (get_or s 1 0 + 256 * (get_or s 2 0 + 256 * get_or s 3 0)) < 2 ^ 32
    word s h =
        omega (
          arith,
          get_or-IsByte s 0 h,
          get_or-IsByte s 1 h,
          get_or-IsByte s 2 h,
          get_or-IsByte s 3 h,
        )

fits_32 :
    (n : ℕ) (s : Bytes)
    → All IsByte s
    → get_or (drop n s) 0 0
        + 256
          * (get_or (drop n s) 1 0 + 256 * (get_or (drop n s) 2 0 + 256 * get_or (drop n s) 3 0))
      < 2 ^ 32
fits_32 n s h =
    let h' = All-drop n s h in
    omega (
      arith,
      get_or-IsByte (drop n s) 0 h',
      get_or-IsByte (drop n s) 1 h',
      get_or-IsByte (drop n s) 2 h',
      get_or-IsByte (drop n s) 3 h',
    )

fits_16 :
    (n : ℕ) (s : Bytes)
    → All IsByte s
    → get_or (drop n s) 0 0 + 256 * get_or (drop n s) 1 0 < 2 ^ 16
fits_16 n s h =
    let h' = All-drop n s h in
    omega (arith, get_or-IsByte (drop n s) 0 h', get_or-IsByte (drop n s) 1 h')

-- Whatever bytes stand in an inode's block, the inode that is read from them has fields that fit their
-- widths in `struct inode`, and 101 block numbers.
pub decode-IsInode : (s : Bytes) → All IsByte s → IsInode (decode s)
unfolding decode
decode-IsInode s h =
    let words = get_words-fit block_count (drop 20 s) (All-drop 20 s h) in
    record {
      type_fits = fits_16 0 s h;
      padding_fits = fits_16 2 s h;
      size_fits = fits_32 4 s h;
      atime_fits = fits_32 8 s h;
      mtime_fits = fits_32 12 s h;
      ctime_fits = fits_32 16 s h;
      blocks_fit = words.0;
      blocks_count = words.1;
    }

put_words-IsByte : (ws : List ℕ) → All IsByte (put_words ws)
unfolding put_words
put_words-IsByte [] = tt
put_words-IsByte (w ∷ ws) =
    (omega arith, (omega arith, (omega arith, (omega arith, put_words-IsByte ws))))

-- Four bytes of a word, in front of others.
word_before :
    (n : ℕ) {P : Type 0}
    → P
    → IsByte (n % 256)
      × (IsByte (n / 256 % 256)
          × (IsByte (n / 256 / 256 % 256) × (IsByte (n / 256 / 256 / 256 % 256) × P)))
word_before n h = (omega arith, (omega arith, (omega arith, (omega arith, h))))

half_before : (n : ℕ) {P : Type 0} → P → IsByte (n % 256) × (IsByte (n / 256 % 256) × P)
half_before n h = (omega arith, (omega arith, h))

encode-IsByte : (ino : Inode) → All IsByte (encode ino)
unfolding encode
encode-IsByte ino = half_before ino.type (
    half_before ino.padding (
      word_before ino.size (
        word_before ino.atime
          (word_before ino.mtime (word_before ino.ctime (put_words-IsByte ino.blocks))))))

pub image-IsBlock :
    (ino : Inode) (buf : Bytes) → IsInode ino → IsBlock buf → IsBlock (image ino buf)
image-IsBlock ino buf v h = (
  length-image ino buf v h.0,
  All-append IsByte (encode ino) (drop inode_size buf) (encode-IsByte ino)
      (All-drop inode_size buf h.1),
)

-- `put_inode` on a disk of whole blocks.
pub put_inode-IsDisk :
    (inum : ℕ) (ino : Inode) (s : Manager)
    → inum < inode_num
    → IsInode ino
    → IsDisk s.disk
    → Returns
        (λ r.
          IsDisk r.1.disk
          × (get_inode inum r.1 ≡ some (some ino, r.1))
          × ((j : ℕ) → j ≢ iblock inum block_num → r.1.disk j ≡ s.disk j)
          × (decode (r.1.disk (iblock inum block_num)) ≡ ino))
        (put_inode inum ino s)
unfolding put_inode
put_inode-IsDisk inum ino s small v d =
    let b : ℕ = iblock inum block_num in
    let buf : Bytes = image ino (s.disk b) in
    let t : Manager = record s { disk = λ j. if j == b then buf else s.disk j } in
    let at_b : t.disk b ≡ buf = rw ((==_iff b b).1 refl) refl in
    let decoded : decode (t.disk b) ≡ ino =
      ap decode at_b ∙ decode-encode ino (drop inode_size (s.disk b)) v in
    let whole : IsBlock buf = image-IsBlock ino (s.disk b) v (d b) in
    rw
      (
        put_inode,
        ◌>>=◌,
        get_block-inside b s (omega arith),
        put_block-inside b buf s (omega arith) whole.0,
      )
      (
        (λ j. elim (Bool-cases (j == b)) [ inl e ↦ rw e whole | inr e ↦ rw e (d j) ]),
        get_inode-inside inum t small ∙ ap (λ x. some (some x, t)) decoded,
        (λ j ne. elsewhere b j buf s.disk ne),
        decoded,
      )
