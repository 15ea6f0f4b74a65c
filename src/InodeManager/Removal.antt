-- ===== src/InodeManager/Removal.antt =====
-- inode_manager.cc: `free_inode` comes to an end on every disk, however the inodes of a file are chained.
use cse.Base.{
  ℕ, zero, suc, ◌+◌, ◌-◌, ◌*◌, ◌^◌, ◌<◌, ◌≤◌, ◌≡◌, refl, sym, ◌∙◌, ap, ◌⊎◌, inl, inr, true, arith,
  ltb, leb, Option, none, some, List, [], ◌∷◌, take, length, Bool-cases, Returns, Returns-map,
  bind-Returns,
}
use cse.Base.Index.{length-take}
use cse.Disk.{block_size, block_num, inode_num, iblock, ndirect, IsDisk}
use cse.BlockManager.{free_block}
use cse.BlockManager.Free.{Freed, free_block-Returns}
use cse.InodeManager.{
  Manager, M, ◌>>=◌, ◌>>◌, return, fault, as_int, free, deref, get_inode, put_inode,
}
use cse.InodeManager.Layout.{Inode, IsInode, decode}
use cse.InodeManager.Inodes.{get_inode-inside}
use cse.InodeManager.Fields.{decode-IsInode, put_inode-IsDisk}
use cse.InodeManager.Files.{block_at, free_direct, free_chain, chain_bound, free_inode}

-- Two operations that agree after what stands before them.
same_after :
    {A B : Type 0} (P : A × Manager → Type 0) (o : Option (A × Manager))
    (f g : A → Manager → Option (B × Manager))
    → Returns P o ⊎ (o ≡ none)
    → ((a : A) (t : Manager) → P (a, t) → f a t ≡ g a t)
    → elim o as (λ x. Option (B × Manager)) [ none ↦ none | some (a, t) ↦ f a t ]
      ≡ elim o as (λ x. Option (B × Manager)) [ none ↦ none | some (a, t) ↦ g a t ]
same_after P none f g h k = refl
same_after P (some (a, t)) f g (inl h) k = k a t h
same_after P (some (a, t)) f g (inr e) k = absurd (cc e)

free-IsDisk : (b : ℕ) (s : Manager) → IsDisk s.disk → Returns (λ r. IsDisk r.1.disk) (free b s)
unfolding free
free-IsDisk b s v =
    elim (free_block b s.disk)
        as (λ o.
          Returns (Freed b s.disk) o
          → Returns {A = Unit {0} × Manager} (λ r. IsDisk r.1.disk)
              (elim o [ none ↦ none | some d ↦ some (tt, record s { disk = d }) ])) [
                | none ↦ λ f. f
                | some d ↦ λ f. f.1
              ]
      (free_block-Returns b s.disk v)

-- The direct blocks take their bytes off the size.
free_direct-Returns :
    (bs : List ℕ) (size : ℕ) (s : Manager)
    → IsDisk s.disk
    → Returns (λ r. IsDisk r.1.disk × (r.0 ≤ size - block_size * length bs)) (free_direct bs size s)
unfolding free_direct
free_direct-Returns [] size s v = (v, omega arith)
free_direct-Returns (b ∷ bs) zero s v = (v, omega arith)
free_direct-Returns (b ∷ bs) (suc n) s v =
    bind-Returns (λ r. IsDisk r.1.disk) _ (free b s) _ (free-IsDisk b s v)
      (λ a t w.
        Returns-map _ _ (free_direct bs (suc n - block_size) t) (λ r x. (x.0, omega (arith, x.1)))
          (free_direct-Returns bs (suc n - block_size) t w))

sized-IsInode : (ino : Inode) (n : ℕ) → IsInode ino → n < 2 ^ 32 → IsInode (record ino { size = n })
sized-IsInode ino n v h = record {
  type_fits = v.type_fits;
  padding_fits = v.padding_fits;
  size_fits = h;
  atime_fits = v.atime_fits;
  mtime_fits = v.mtime_fits;
  ctime_fits = v.ctime_fits;
  blocks_fit = v.blocks_fit;
  blocks_count = v.blocks_count;
}

cleared-IsInode : (ino : Inode) → IsInode ino → IsInode (record ino { type = 0 })
cleared-IsInode ino v = record {
  type_fits = omega arith;
  padding_fits = v.padding_fits;
  size_fits = v.size_fits;
  atime_fits = v.atime_fits;
  mtime_fits = v.mtime_fits;
  ctime_fits = v.ctime_fits;
  blocks_fit = v.blocks_fit;
  blocks_count = v.blocks_count;
}

get_inode-outside : (inum : ℕ) (s : Manager) → inode_num ≤ inum → get_inode inum s ≡ some (none, s)
unfolding get_inode
get_inode-outside inum s h =
    let out : leb inode_num inum ≡ true = ground arith in rw (get_inode, out) refl

as_int-lt : (n : ℕ) → as_int n < 2 ^ 31
as_int-lt n = ground arith

-- The next inode of the chain, where something is left of the size.
abbrev rest : (ℕ → M (Unit {0})) → ℕ → ℕ → M (Unit {0})
rest chain k left = elim left [
  | zero ↦ return tt
  | suc n ↦ (do
    o ← get_inode k
    next ← deref o
    put_inode k (record next { size = suc n })
    chain k)
]

-- The size of the inode at a number is at most that of `f` inodes that are full.
abbrev IsAtMost : ℕ → ℕ → Manager → Type 0
IsAtMost f inum s =
    (ino : Inode)
    → get_inode inum s ≡ some (some ino, s)
    → as_int ino.size ≤ f * (ndirect * block_size)

-- More fuel than `f` makes no difference, whatever is done where the fuel has run out.
Agree : M (Unit {0}) → ℕ → ℕ → Type 0
Agree out f e =
    (k : ℕ) (t : Manager)
    → 0 < f
    → IsDisk t.disk
    → IsAtMost (f - 1) k t
    → free_chain out (f + e) k t ≡ free_chain fault f k t

inode_or : Inode → Option (Option Inode × Manager) → Inode
inode_or d (some (some i, s)) = i
inode_or d (some (none, s)) = d
inode_or d none = d

rest-agrees :
    (out : M (Unit {0})) (f e k left : ℕ) (u : Manager)
    → Agree out f e
    → IsDisk u.disk
    → left ≤ (f - 1) * (ndirect * block_size)
    → left < 2 ^ 31
    → rest (free_chain out (f + e)) k left u ≡ rest (free_chain fault f) k left u
unfolding Agree inode_or
rest-agrees out f e k zero u ih v le lt = refl
rest-agrees out f e k (suc n) u ih v le lt = elim (Bool-cases (ltb k inode_num)) [
  | inr beyond ↦ rw (◌>>=◌, get_inode-outside k u (ground arith)) refl
  | inl inside ↦
      let small : k < inode_num = ground arith in
      let next : Inode = decode (u.disk (iblock k block_num)) in
      let sized : Inode = record next { size = suc n } in
      let ok : IsInode sized =
        sized-IsInode next (suc n)
          (decode-IsInode (u.disk (iblock k block_num)) (v (iblock k block_num)).1)
          (omega (arith, lt)) in
      rw (◌>>=◌, ◌>>◌, get_inode-inside k u small)
        (same_after _ (put_inode k sized u) _ _ (inl (put_inode-IsDisk k sized u small ok v))
          (λ a t w. ih k t (omega (arith, le)) w.0 (λ ino q.
            let same : ino.size ≡ suc n = ap (λ x. (inode_or sized x).size) (sym q ∙ w.1) in
            rw same (ground (arith, le, lt)))))
]

ends_step :
    (out : M (Unit {0})) (f e inum : ℕ) (s : Manager)
    → Agree out f e
    → IsDisk s.disk
    → IsAtMost f inum s
    → free_chain out (suc (f + e)) inum s ≡ free_chain fault (suc f) inum s
unfolding free_chain
ends_step out f e inum s ih v bound = elim (Bool-cases (ltb inum inode_num)) [
  | inr beyond ↦ rw (free_chain, ◌>>=◌, get_inode-outside inum s (ground arith)) refl
  | inl inside ↦
      let small : inum < inode_num = ground arith in
      let ino : Inode = decode (s.disk (iblock inum block_num)) in
      let ok : IsInode ino =
        decode-IsInode (s.disk (iblock inum block_num)) (v (iblock inum block_num)).1 in
      let found : get_inode inum s ≡ some (some ino, s) = get_inode-inside inum s small in
      let size : ℕ = as_int ino.size in
      let full : length (take ndirect ino.blocks) ≡ ndirect =
        omega (arith, length-take ndirect ino.blocks, ok.blocks_count) in
      let signed : size < 2 ^ 31 = as_int-lt ino.size in
      rw (free_chain, ◌>>=◌, ◌>>◌, found)
        (same_after _ (put_inode inum (record ino { type = 0 }) s) _ _
          (inl (put_inode-IsDisk inum (record ino { type = 0 }) s small (cleared-IsInode ino ok) v))
          (λ a t w.
            same_after _ (free (iblock inum block_num) t) _ _
              (inl (free-IsDisk (iblock inum block_num) t w.0))
              (λ b t' w'.
                same_after _ (free_direct (take ndirect ino.blocks) size t') _ _
                  (inl (free_direct-Returns (take ndirect ino.blocks) size t' w'))
                  (λ left u x.
                    rest-agrees out f e (block_at ino ndirect) left u ih x.0
                      (omega (arith, x.1, full, bound ino found)) (omega (arith, x.1, signed))))))
]

ends :
    (out : M (Unit {0})) (f e inum : ℕ) (s : Manager)
    → IsDisk s.disk
    → IsAtMost f inum s
    → free_chain out (suc (f + e)) inum s ≡ free_chain fault (suc f) inum s
unfolding Agree
ends out zero e inum s v bound =
    ends_step out zero e inum s (λ k t pos w b. absurd (omega (arith, pos))) v bound
ends out (suc f) e inum s v bound =
    ends_step out (suc f) e inum s
      (λ k t pos w b.
        let n : suc f + e ≡ suc (f + e) = omega arith in
        let less : suc f - 1 ≡ f = omega arith in rw n (ends out f e k t w (rw less at b)))
      v bound

-- `free_inode` comes to an end: on any disk of whole blocks, whatever its inodes hold and however they are
-- chained, the inodes of one call are at most 41945. The fuel does not run out: with any fuel from there on
-- the result is the same, whatever is done where the fuel has run out, also where that does not fail.
pub free_inode_ends :
    (out : M (Unit {0})) (e inum : ℕ) (s : Manager)
    → IsDisk s.disk
    → free_chain out (chain_bound + e) inum s ≡ free_inode inum s
unfolding free_inode
free_inode_ends out e inum s v =
    let n : chain_bound + e ≡ suc (41944 + e) = omega arith in
    let le : IsAtMost 41944 inum s = λ ino q. omega (arith, as_int-lt ino.size) in
    ap (λ f. free_chain out f inum s) n ∙ ends out 41944 e inum s v le
