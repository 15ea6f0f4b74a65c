-- ===== src/InodeManager/Inodes.antt =====
-- inode_manager.cc: `put_inode` and `get_inode` together.
use cse.Base.{
  ==_iff, ap, ◌∙◌, ℕ, ◌*◌, ◌<◌, ◌≡◌, ◌≢◌, refl, some, List, [], ◌∷◌, ◌++◌, ◌==◌, if◌then◌else◌,
  arith, ltb, leb, length, length-append, drop, take_all, Returns, Returns-map, true, false, ◌∙◌,
  ap,
}
use cse.Base.Bytes.{Bytes}
use cse.Base.Index.{length-drop}
use cse.Disk.{Disk, block_size, block_num, inode_num, iblock, IsDisk, read_block, write_block}
use cse.InodeManager.{Manager, ◌>>=◌, get_block, put_block, get_inode, put_inode}
use cse.InodeManager.Layout.{Inode, inode_size, put_words, encode, decode, IsInode, decode-encode}

length-put_words : (ws : List ℕ) → length (put_words ws) ≡ 4 * length ws
unfolding put_words
length-put_words [] = refl
length-put_words (w ∷ ws) = omega (arith, length-put_words ws)

length-encode : (ino : Inode) → IsInode ino → length (encode ino) ≡ inode_size
unfolding encode
length-encode ino v = omega (arith, length-put_words ino.blocks, v.blocks_count)

-- The block that `put_inode` writes.
abbrev pub image : Inode → Bytes → Bytes
image ino buf = encode ino ++ drop inode_size buf

pub length-image :
    (ino : Inode) (buf : Bytes)
    → IsInode ino
    → length buf ≡ block_size
    → length (image ino buf) ≡ block_size
length-image ino buf v h = omega (
  arith,
  length-append (encode ino) (drop inode_size buf),
  length-encode ino v,
  length-drop inode_size buf,
  h,
)

pub get_block-inside : (b : ℕ) (s : Manager) → b < block_num → get_block b s ≡ some (s.disk b, s)
unfolding get_block read_block
get_block-inside b s h =
    let inside : ltb b block_num ≡ true = ground arith in rw (get_block, read_block, inside)

pub put_block-inside :
    (b : ℕ) (buf : Bytes) (s : Manager)
    → b < block_num
    → length buf ≡ block_size
    → put_block b buf s ≡ some (tt, record s { disk = λ j. if j == b then buf else s.disk j })
unfolding put_block write_block
put_block-inside b buf s h len =
    let inside : ltb b block_num ≡ true = ground arith in
    rw (put_block, write_block, inside, take_all block_size buf (omega (arith, len)))

pub get_inode-inside :
    (inum : ℕ) (s : Manager)
    → inum < inode_num
    → get_inode inum s ≡ some (some (decode (s.disk (iblock inum block_num))), s)
unfolding get_inode
get_inode-inside inum s small =
    let known : leb inode_num inum ≡ false = ground arith in
    rw (get_inode, known, ◌>>=◌, get_block-inside (iblock inum block_num) s (omega arith))

pub elsewhere : (b j : ℕ) (buf : Bytes) (d : Disk) → j ≢ b → (if j == b then buf else d j) ≡ d j
elsewhere b j buf d ne = ground arith

-- `put_inode` needs of the disk only that the inode's block is a whole one, and leaves it so.
pub put_inode_lem :
    (inum : ℕ) (ino : Inode) (s : Manager)
    → inum < inode_num
    → IsInode ino
    → length (s.disk (iblock inum block_num)) ≡ block_size
    → Returns
        (λ r.
          (get_inode inum r.1 ≡ some (some ino, r.1))
          × ((b : ℕ) → b ≢ iblock inum block_num → r.1.disk b ≡ s.disk b)
          × (length (r.1.disk (iblock inum block_num)) ≡ block_size))
        (put_inode inum ino s)
unfolding put_inode
put_inode_lem inum ino s small v whole =
    let b : ℕ = iblock inum block_num in
    let buf : Bytes = image ino (s.disk b) in
    let t : Manager = record s { disk = λ j. if j == b then buf else s.disk j } in
    let at_b : t.disk b ≡ buf = rw ((==_iff b b).1 refl) in
    let len : length buf ≡ block_size = length-image ino (s.disk b) v whole in
    rw
      (
        put_inode,
        ◌>>=◌,
        get_block-inside b s (omega arith),
        put_block-inside b buf s (omega arith) len,
      )
      (
        get_inode-inside inum t small
            ∙ ap (λ x. some (some x, t))
                (ap decode at_b ∙ decode-encode ino (drop inode_size (s.disk b)) v),
        (λ j ne. elsewhere b j buf s.disk ne),
        ap length at_b ∙ len,
      )

-- On a disk of whole blocks `put_inode` of a number below 4096 and an inode whose fields fit their
-- widths returns. After it `get_inode` of that number has the inode, and no other block has changed.
pub put_inode-Returns :
    (inum : ℕ) (ino : Inode) (s : Manager)
    → inum < inode_num
    → IsInode ino
    → IsDisk s.disk
    → Returns
        (λ r.
          (get_inode inum r.1 ≡ some (some ino, r.1))
          × ((b : ℕ) → b ≢ iblock inum block_num → r.1.disk b ≡ s.disk b))
        (put_inode inum ino s)
put_inode-Returns inum ino s small v d =
    Returns-map _ _ (put_inode inum ino s) (λ r h. (h.0, h.1))
      (put_inode_lem inum ino s small v (d (iblock inum block_num)).0)
