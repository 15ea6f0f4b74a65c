-- ===== src/InodeManager/Store.antt =====
-- inode_manager.cc: a disk with the files of the inodes 1 to `n`, each of which may grow to a number of
-- blocks that is its own. What `read_file`, `write_file` and `getattr` make of it.
use cse.Base.{
  ℕ, zero, suc, ◌+◌, ◌-◌, ◌*◌, ◌<◌, ◌≤◌, ◌≡◌, ◌≢◌, refl, sym, ◌∙◌, ap, ◌⊎◌, inl, inr, true, false,
  arith, ◌==◌, if◌then◌else◌, length, Bool-cases, ==_iff,
}
use cse.Base.Bytes.{Bytes}
use cse.Base.Sums.{total, total-one, total-less, total_ones}
use cse.Disk.{Disk, block_size, block_num, inode_num, iblock, ndirect, IsDisk}
use cse.BlockManager.Bitmap.{allocated}
use cse.BlockManager.Spare.{spare}
use cse.InodeManager.{Manager}
use cse.InodeManager.Layout.{decode}
use cse.InodeManager.Files.{block_at}
use cse.InodeManager.Progress.{blocks_of, leads, IsKept}
use cse.InodeManager.Stored.{inode_of, IsStored, stays-IsStored}
use cse.InodeManager.Closing.{Written}

-- The files that are there: `n` of them, and how many blocks each may have.
pub record Files : Type 0 where
  pub n : ℕ
  pub room : ℕ → ℕ

abbrev pub IsFile : Files → ℕ → Type 0
IsFile fs i = (0 < i) × (i ≤ fs.n)

-- The blocks of a file that holds a text, of those that stand first in a byte of the bitmap.
abbrev pub leads_of : ℕ → (ℕ → Bytes) → Disk → ℕ → ℕ
leads_of g texts d i = leads g (inode_of d i) (blocks_of (length (texts i)))

-- Every file holds its text, in blocks that are no other file's, and what the files may still grow by
-- is spare among the first `g` bytes of the bitmap.
pub record IsStore (g : ℕ) (fs : Files) (texts : ℕ → Bytes) (d : Disk) : Type 0 where
  pub disk : IsDisk d
  pub stored : (i : ℕ) → IsFile fs i → IsStored d (inode_of d i) (texts i)
  pub small : (i : ℕ) → IsFile fs i → length (texts i) ≤ fs.room i * block_size
  pub apart :
      (i j a b : ℕ)
      → IsFile fs i
      → IsFile fs j
      → i ≢ j
      → a < blocks_of (length (texts i))
      → b < blocks_of (length (texts j))
      → block_at (inode_of d i) a ≢ block_at (inode_of d j) b
  pub capacity :
      total fs.n (λ j. fs.room (suc j)) ≤ spare g d + total fs.n (λ j. leads_of g texts d (suc j))

-- A block of another file than `i`, or of its inode, and what it holds.
abbrev pub Elsewhere : Files → (ℕ → Bytes) → Disk → ℕ → ℕ → Bytes → Type 0
Elsewhere fs texts d i b c =
    (d b ≡ c)
    × ((j : ℕ) × (IsFile fs j × (j ≢ i))
        × ((b ≡ iblock j block_num)
            ⊎ ((a : ℕ) × (a < blocks_of (length (texts j))) × (b ≡ block_at (inode_of d j) a))))

module _ (g : ℕ) (fs : Files) (many : fs.n < inode_num)
    (direct : (i : ℕ) → IsFile fs i → fs.room i ≤ ndirect) (texts : ℕ → Bytes) (d : Disk)
    (v : IsStore g fs texts d) where
  pub Elsewhere-IsKept :
      (i b : ℕ) (c : Bytes)
      → IsFile fs i
      → Elsewhere fs texts d i b c
      → IsKept d (inode_of d i) (blocks_of (length (texts i))) b c
  Elsewhere-IsKept i b c h (e, (j, (k, ne), inl at)) = (
    omega (arith, at, k),
    omega (arith, at, k, many),
    (λ z. absurd (omega (arith, at, k, many, z))),
    (λ a lt z. omega (arith, at, k, many, z, (((v.stored i h).holds.in_range a lt)).0)),
    e,
  )
  Elsewhere-IsKept i b c h (e, (j, (k, ne), inr (a, lt, at))) =
      let (low, high) = (v.stored j k).holds.in_range a lt in
      (
        omega (arith, at, low),
        omega (arith, at, high),
        (λ z. ap (allocated d) at ∙ (v.stored j k).holds.taken a lt),
        (λ a' lt' z. v.apart i j a' a h k (λ q. ne (sym q)) lt' lt (z ∙ at)),
        e,
      )

  -- The free blocks that a file can count on.
  pub room_left :
      (i : ℕ) (buf : Bytes)
      → IsFile fs i
      → length buf ≤ fs.room i * block_size
      → length buf ≤ (blocks_of (length (texts i)) + spare g d) * block_size
  room_left zero buf h le = absurd (omega (arith, h))
  room_left (suc i) buf h le =
      let few : (j : ℕ) → leads_of g texts d j ≤ blocks_of (length (texts j)) =
        λ j. total_ones (blocks_of (length (texts j))) _ (λ a lt. ground arith) in
      let (a, b) =
        total-less fs.n i (λ j. leads_of g texts d (suc j)) (λ j. fs.room (suc j))
          (omega (arith, h))
          (λ j lt. omega (arith, few (suc j), v.small (suc j) (omega arith, omega (arith, lt)))) in
      omega (arith, le, b, v.capacity, few (suc i))

  -- The text of one file is another.
  abbrev updated : ℕ → Bytes → ℕ → Bytes
  updated i buf j = if j == i then buf else texts j

  module _ (i : ℕ) (buf : Bytes) (h : IsFile fs i) (le : length buf ≤ fs.room i * block_size)
      (m : Manager)
      (w : Written g (leads_of g texts d i + spare g d) i buf (Elsewhere fs texts d i) m) where
    other_inode : (j : ℕ) → IsFile fs j → j ≢ i → inode_of m.disk j ≡ inode_of d j
    other_inode j k ne =
        ap decode
          (w.others (iblock j block_num) (d (iblock j block_num)) (refl, (j, (k, ne), inl refl))
            (λ e. omega (arith, e, ne))).0

    -- A block of another file: what it holds, its bit, and that the file does not have it now.
    other_block :
        (j a : ℕ)
        → IsFile fs j
        → j ≢ i
        → a < blocks_of (length (texts j))
        → (m.disk (block_at (inode_of d j) a) ≡ d (block_at (inode_of d j) a))
          × (allocated m.disk (block_at (inode_of d j) a) ≡ true)
          × ((b : ℕ)
              → b < blocks_of (length buf)
              → block_at (inode_of m.disk i) b ≢ block_at (inode_of d j) a)
    other_block j a k ne lt =
        let b : ℕ = block_at (inode_of d j) a in
        let (low, high) = (v.stored j k).holds.in_range a lt in
        let (same, bit, far) =
          w.others b (d b) (refl, (j, (k, ne), inr (a, lt, refl)))
            (λ e. omega (arith, e, low, h, many)) in
        (same, bit low, far)

    other-IsStored : (j : ℕ) → IsFile fs j → j ≢ i → IsStored m.disk (inode_of m.disk j) (texts j)
    other-IsStored j k ne = rw (other_inode j k ne) (
        stays-IsStored d m.disk (inode_of d j) (texts j)
          (λ a lt.
            let (same, bit, far) = other_block j a k ne lt in
            (same, bit ∙ sym ((v.stored j k).holds.taken a lt)))
          (v.stored j k))

    -- The file that is written, whose blocks and share of the bitmap are those of its new text.
    written_leads :
        leads_of g (updated i buf) m.disk i ≡ leads g (inode_of m.disk i) (blocks_of (length buf))
    written_leads = let hit : (i == i) ≡ true = (==_iff i i).1 refl in rw hit refl

    other_leads :
        (j : ℕ) → IsFile fs j → j ≢ i → leads_of g (updated i buf) m.disk j ≡ leads_of g texts d j
    other_leads j k ne =
        let miss : (j == i) ≡ false = ground arith in rw (miss, other_inode j k ne) refl

    -- What the file gains of the bitmap is spare no more.
    capacity_lem :
        (k : ℕ)
        → i ≡ suc k
        → total fs.n (λ j. fs.room (suc j))
          ≤ spare g m.disk + total fs.n (λ j. leads_of g (updated i buf) m.disk (suc j))
    capacity_lem k e =
        let one =
          total-one fs.n k (λ j. leads_of g (updated i buf) m.disk (suc j))
            (λ j. leads_of g texts d (suc j)) (omega (arith, h, e))
            (λ j lt ne.
              other_leads (suc j) (omega arith, omega (arith, lt))
                (λ q. ne (omega (arith, q, e)))) in
        omega (
          arith,
          v.capacity,
          one,
          w.account,
          written_leads,
          ap (λ x. leads_of g (updated i buf) m.disk x) e,
          ap (λ x. leads_of g texts d x) e,
        )

    apart_lem :
        (j k a b : ℕ)
        → IsFile fs j
        → IsFile fs k
        → j ≢ k
        → a < blocks_of (length (updated i buf j))
        → b < blocks_of (length (updated i buf k))
        → block_at (inode_of m.disk j) a ≢ block_at (inode_of m.disk k) b
    apart_lem j k a b hj hk ne lt lt' = elim (Bool-cases (j == i)) [
      | inl hit ↦
          let q : j ≡ i = (==_iff j i).0 hit in
          let nk : k ≢ i = λ z. ne (q ∙ sym z) in
          let miss : (k == i) ≡ false = ground arith in
          rw (q, other_inode k hk nk) ((other_block k b hk nk (rw miss at lt')).2 a (rw hit at lt))
      | inr miss ↦
          let nj : j ≢ i = ground arith in
          elim (Bool-cases (k == i)) [
            | inl hit ↦
                let q : k ≡ i = (==_iff k i).0 hit in
                rw (q, other_inode j hj nj)
                  (λ z. (other_block j a hj nj (rw miss at lt)).2 b (rw hit at lt') (sym z))
            | inr miss' ↦
                rw (other_inode j hj nj, other_inode k hk (ground arith))
                  (v.apart j k a b hj hk ne (rw miss at lt) (rw miss' at lt'))
          ]
    ]

    pub Written-IsStore : IsStore g fs (updated i buf) m.disk
    Written-IsStore = record {
      disk = w.disk;
      stored = λ j k. elim (Bool-cases (j == i)) [
        | inl hit ↦ rw (hit, (==_iff j i).0 hit) w.stored
        | inr miss ↦ rw miss (other-IsStored j k (ground arith))
      ];
      small = λ j k. elim (Bool-cases (j == i)) [
        | inl hit ↦ rw (hit, (==_iff j i).0 hit) le
        | inr miss ↦ rw miss (v.small j k)
      ];
      apart = apart_lem;
      capacity = capacity_lem (i - 1) (omega (arith, h));
    }
