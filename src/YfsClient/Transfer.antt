-- ===== src/YfsClient/Transfer.antt =====
-- yfs_client.cc: `read` and `write` against the content of the file, over an extent client with the
-- laws of `ExtentLaws`.
use cse.Base.{
  bind-Returns, Returns-map, ℕ, ◌+◌, ◌<◌, ◌^◌, ◌≡◌, refl, ◌∙◌, ap, ◌∷◌, ==_iff, length, take_all,
  arith, Returns, Option-cases, inl, inr, some,
}
use cse.Base.Bytes.{Bytes}
use cse.YfsClient.{ExtentService, acquire, World, ok}
use cse.YfsClient.Content.{slice, written}
use cse.YfsClient.Content.Laws.{Written, written-Returns, slice-Written}
use cse.YfsClient.Operations
use cse.YfsClient.Operations.{M, ◌>>=◌}
use cse.YfsClient.Directories.{ExtentLaws, SameBut, SameAll, ec-Returns}

module _ {S : Type 0} (E : ExtentService S) (laws : ExtentLaws E) (junk : ℕ) where
  open laws use {content, Serves, Fits, get_lem, put_lem}

  -- `read` of a file in service, over an extent client with the laws of `ExtentLaws`, returns OK with the
  -- bytes of the file from the offset on, as many as are asked for and there. No content changes.
  pub read-Returns :
      (i size off : ℕ) (old : Bytes) (w : World S)
      → Serves w.extents i
      → Returns
          (λ r.
            (r.0 ≡ (ok, slice (content w.extents i) size off))
            × SameAll E laws junk w.extents r.1.extents)
          (Operations.read E junk i size off old w)
  unfolding Operations.read
  read-Returns i size off old w srv =
      ec-Returns _ _ (E.get i) _ (record w { locks = acquire i ∷ w.locks })
        (get_lem i w.extents srv)
        λ a s (ok', buf, same, serves).
          rw (ok', buf) (refl, record { same = same; serves = serves })

  -- `write` of data of the given size to a file in service, at any offset up to less than 2^31 bytes
  -- behind the end of a file that is shorter than 2^31 bytes, where what `write` makes of the file fits,
  -- over an extent client with the laws of `ExtentLaws`, returns OK.
  -- The file has the data at the offset and is as it was elsewhere, with zeros in a hole, and every
  -- other content is as before.
  pub write-Returns :
      (i size off : ℕ) (bytes : Bytes) (w : World S)
      → length bytes ≡ size
      → length (content w.extents i) < 2 ^ 31
      → off < length (content w.extents i) + 2 ^ 31
      → Serves w.extents i
      → ((new : Bytes) → written (content w.extents i) size off bytes ≡ some new → Fits i new)
      → Returns
          (λ r.
            (r.0 ≡ ok)
            × Written (content w.extents i) size off bytes (content r.1.extents i)
            × SameBut E laws junk i w.extents r.1.extents)
          (Operations.write E junk i size off bytes w)
  unfolding Operations.write
  write-Returns i size off bytes w h short near srv fits =
      ec-Returns _ _ (E.get i) _ (record w { locks = acquire i ∷ w.locks })
        (get_lem i w.extents srv)
        λ a s (ok', buf, same, serves).
          let result = written-Returns (content w.extents i) bytes size off h short near in
          elim (Option-cases (written (content w.extents i) size off bytes)) [
            | inl e ↦ absurd (rw e at result)
            | inr (new, e) ↦
                rw (ok', buf, take_all size bytes (omega (arith, h)), e)
                  (ec-Returns _ _ (E.put i new) _ _ (put_lem i new s (serves i srv) (fits new e))
                    λ b t (put, stored, serves'). rw put (
                      refl,
                      rw (stored i, (==_iff i i).1 refl) (rw e at result),
                      (record {
                        same = λ j ne. ground (arith, stored j, same j);
                        serves = λ j k. serves' j (serves j k);
                      }),
                    ))
          ]

  -- After a `write` of data as in `write-Returns`, of a size that is not 0, a `read` of the same size and
  -- offset returns OK with the data.
  pub read-write :
      (i size off : ℕ) (bytes old : Bytes) (w : World S)
      → length bytes ≡ size
      → 0 < size
      → length (content w.extents i) < 2 ^ 31
      → off < length (content w.extents i) + 2 ^ 31
      → Serves w.extents i
      → ((new : Bytes) → written (content w.extents i) size off bytes ≡ some new → Fits i new)
      → Returns
          (λ r. r.0 ≡ (ok, bytes))
          ((Operations.write E junk i size off bytes >>= λ _. Operations.read E junk i size off old)
            w)
  read-write i size off bytes old w h pos short near srv fits =
      bind-Returns _ (λ r. r.0 ≡ (ok, bytes)) (Operations.write E junk i size off bytes w) _
        (write-Returns i size off bytes w h short near srv fits)
        λ st w' (ok', new, same).
          Returns-map _ _ (Operations.read E junk i size off old w')
            (λ r (result, kept).
              result
              ∙ ap (λ x. (ok, x))
                  (slice-Written (content w.extents i) bytes (content w'.extents i) size off h pos
                    new))
            (read-Returns i size off old w' (same.serves i srv))
