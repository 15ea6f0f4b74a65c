-- ===== src/Fuse/Existing.antt =====
-- fuse.cc: what is replied for a name that is there, or is not, over an extent client that keeps what
-- is put into it.
use cse.Base.{
  bind-Returns, ℕ, ◌≡◌, ◌≢◌, refl, inl, inr, List, ◌==◌, ==_iff, sym, ◌∙◌, All, if◌then◌else◌,
  Returns, Bool-cases,
}
use cse.Base.Bytes.{Bytes}
use cse.InodeManager.Files.{t_dir, t_file}
use cse.Directory.{Dirent, find_in, delent_loop}
use cse.Directory.Names.{IsFirst, IsFirst-find_in, without, delent_loop-without, without-same}
use cse.Directory.Text.{serialize}
use cse.YfsClient.{ExtentService, World, Status, exist}
use cse.YfsClient.Operations
use cse.YfsClient.Operations.{M, ◌>>=◌}
use cse.YfsClient.Directories.{
  ExtentLaws, IsDir, SameBut, SameAll, create_entry-Exists, unlink-Returns,
}
use cse.Fuse.{Reply, Entry, error, eexist, success}
use cse.Fuse.Handlers

-- What `unlink` leaves of the entries.
unlinked :
    (name : Bytes) (es : List Dirent)
    → All (λ e. e.inum ≢ 0) es
    → (if find_in name es == 0 then es else (delent_loop name es).0) ≡ without name es
unlinked name es numbers = elim (Bool-cases (find_in name es == 0)) [
  | inl e ↦ rw e (sym (without-same name es numbers ((==_iff (find_in name es) 0).0 e)))
  | inr e ↦ rw e (delent_loop-without name es)
]

module _ {S : Type 0} (E : ExtentService S) (laws : ExtentLaws E) (junk : ℕ) where
  -- The reply of a handler that finds the name in use, with no content changed.
  abbrev pub Refused : World S → Reply × World S → Type 0
  Refused w r = (r.0 ≡ error eexist) × SameAll E laws junk w.extents r.1.extents

  abbrev Exists : World S → (Status × Entry) × World S → Type 0
  Exists w r = (r.0.0 ≡ exist) × SameAll E laws junk w.extents r.1.extents

  createhelper-Exists :
      (parent type : ℕ) (name : Bytes) (es : List Dirent) (e : Dirent) (w : World S)
      → laws.Serves w.extents parent
      → IsDir E laws junk w.extents parent es
      → IsFirst name es e
      → e.inum ≢ 0
      → Returns (Exists w) (Handlers.fuseserver_createhelper E junk parent name type w)
  unfolding Handlers.fuseserver_createhelper Operations.create Operations.mkdir
  createhelper-Exists parent type name es e w srv d first number =
      let there : find_in name es ≢ 0 = λ q. number (sym (IsFirst-find_in name es e first) ∙ q) in
      elim (Bool-cases (type == t_file)) [
        | inl q ↦ rw q (
            bind-Returns _ (Exists w) (Operations.create_entry E junk t_file parent name 0 w) _
              (create_entry-Exists E laws junk t_file parent name 0 es w srv d there)
              λ a w' (st, same). rw st (refl, same))
        | inr q ↦ rw q (
            bind-Returns _ (Exists w) (Operations.create_entry E junk t_dir parent name 0 w) _
              (create_entry-Exists E laws junk t_dir parent name 0 es w srv d there)
              λ a w' (st, same). rw st (refl, same))
      ]

  -- `create`, `mknod` and `mkdir` of a name, over an extent client with the laws of `ExtentLaws`, in a
  -- directory in service where the first entry of that name has a number that is not 0, return and
  -- reply EEXIST, and no content changes.
  pub existing_name-Refused :
      (parent : ℕ) (name : Bytes) (es : List Dirent) (e : Dirent) (w : World S)
      → laws.Serves w.extents parent
      → IsDir E laws junk w.extents parent es
      → IsFirst name es e
      → e.inum ≢ 0
      → Returns (Refused w) (Handlers.fuseserver_create E junk parent name w)
        × Returns (Refused w) (Handlers.fuseserver_mknod E junk parent name w)
        × Returns (Refused w) (Handlers.fuseserver_mkdir E junk parent name w)
  unfolding Handlers.fuseserver_create Handlers.fuseserver_mknod Handlers.fuseserver_mkdir
  existing_name-Refused parent name es e w srv d first number = (
    bind-Returns (Exists w) (Refused w)
        (Handlers.fuseserver_createhelper E junk parent name t_file w) _
        (createhelper-Exists parent t_file name es e w srv d first number)
        (λ a w' (st, same). rw st (refl, same)),
    bind-Returns (Exists w) (Refused w)
        (Handlers.fuseserver_createhelper E junk parent name t_file w) _
        (createhelper-Exists parent t_file name es e w srv d first number)
        (λ a w' (st, same). rw st (refl, same)),
    bind-Returns (Exists w) (Refused w)
        (Handlers.fuseserver_createhelper E junk parent name t_dir w) _
        (createhelper-Exists parent t_dir name es e w srv d first number)
        (λ a w' (st, same). rw st (refl, same)),
  )

  -- `unlink` in a directory in service whose entries have numbers that are not 0, over an extent client
  -- with the laws of `ExtentLaws`, where the text of the entries of other names fits, returns and
  -- replies success, whether the name is there or not. Afterwards the directory has the entries of the
  -- other names, in their order, and every other content is as before.
  pub fuseserver_unlink-Returns :
      (parent : ℕ) (name : Bytes) (es : List Dirent) (w : World S)
      → laws.Serves w.extents parent
      → laws.Fits parent (serialize (without name es))
      → IsDir E laws junk w.extents parent es
      → All (λ e. e.inum ≢ 0) es
      → Returns
          (λ r.
            (r.0 ≡ error success)
            × IsDir E laws junk r.1.extents parent (without name es)
            × SameBut E laws junk parent w.extents r.1.extents)
          (Handlers.fuseserver_unlink E junk parent name w)
  unfolding Handlers.fuseserver_unlink
  fuseserver_unlink-Returns parent name es w srv fits d numbers =
      let left : (if find_in name es == 0 then es else (delent_loop name es).0) ≡ without name es =
        unlinked name es numbers in
      bind-Returns _ _ (Operations.unlink E junk parent name w) _
        (unlink-Returns E laws junk parent name es w srv (rw (delent_loop-without name es) fits) d)
        (λ a w' (st, dir, same). rw st (refl, rw left at dir, same))
