-- ===== src/Fuse/Sharing.antt =====
-- fuse.cc: `read` and `write` requests that the kernels of any clients send, each run to its end before
-- the next one begins, over caching clients of one extent service.
use cse.Base.{
  ℕ, ◌+◌, ◌^◌, ◌<◌, ◌≡◌, refl, sym, ◌∙◌, ap, inl, inr, true, Bool, arith, ◌==◌, if◌then◌else◌, some,
  List, [], ◌∷◌, length, All, Bool-cases, ==_iff, Returns, bind-Returns,
}
use cse.Base.Bytes.{Bytes}
use cse.InodeManager.{Attr}
use cse.Extent.{Storage, System}
use cse.Extent.Coherence.{StorageLaws, view}
use cse.YfsClient.{ExtentService, World}
use cse.YfsClient.Content.{slice, written}
use cse.YfsClient.Content.Memory.{
  read_bytes, write_bytes, slice-read_bytes, write_bytes-Written, written-write_bytes,
}
use cse.Fuse.{Reply, buffer, wrote}
use cse.Fuse.Handlers
use cse.YfsClient.Operations
use cse.YfsClient.Operations.{M, ◌>>=◌, return}
use cse.YfsClient.Transfer.{read-Returns, write-Returns}
use cse.YfsClient.ExtentClient.{client_service, client_laws, InService}

-- A request of the kernel of a client.
pub data FileRequest : Type 0 where
  read : (client : Bytes) (i size off : ℕ) → FileRequest
  write : (client : Bytes) (i size off : ℕ) (bytes : Bytes) → FileRequest

abbrev pub caller : FileRequest → Bytes
caller (read c i size off) = c
caller (write c i size off bytes) = c

abbrev pub file : FileRequest → ℕ
file (read c i size off) = i
file (write c i size off bytes) = i

-- What a request makes of one memory of files, byte by byte, and its reply.
abbrev pub after : FileRequest → (ℕ → Bytes) → ℕ → Bytes
after (read c i size off) m = m
after (write c i size off bytes) m = λ j. if j == i then write_bytes (m i) off bytes else m j

abbrev pub reply : FileRequest → (ℕ → Bytes) → Reply
reply (read c i size off) m = buffer (read_bytes (m i) size off)
reply (write c i size off bytes) m = wrote size

-- The replies over one memory.
unfoldable pub replies : List FileRequest → (ℕ → Bytes) → List Reply
replies [] m = []
replies (c ∷ cs) m = reply c m ∷ replies cs (after c m)

module _ {S : Storage} (reachable : Bytes → Bool) (junk : Attr) (clock : System S → ℕ)
    (finum : ℕ) where
  abbrev service : Bytes → ExtentService (System S)
  service c = client_service S reachable junk clock c

  abbrev perform : FileRequest → M (System S) (Reply)
  perform (read c i size off) = Handlers.fuseserver_read (service c) finum i size off
  perform (write c i size off bytes) = Handlers.fuseserver_write (service c) finum i bytes size off

  unfoldable pub run_requests : List FileRequest → M (System S) (List Reply)
  run_requests [] = return []
  run_requests (c ∷ cs) = do a ← perform c; later ← run_requests cs; return (a ∷ later)

  module _ (L : StorageLaws S) (Known : ℕ → Type 0) where
    -- A `write` that a file takes, whatever fits it now.
    abbrev pub IsWrite : ℕ → ℕ → ℕ → Bytes → Type 0
    IsWrite i size off bytes =
        (length bytes ≡ size)
        × ((old : Bytes)
            → L.Fits i old
            → (length old < 2 ^ 31)
              × (off < length old + 2 ^ 31)
              × ((new : Bytes) → written old size off bytes ≡ some new → L.Fits i new))

    abbrev pub Writes : FileRequest → Type 0
    Writes (read c i size off) = Unit {0}
    Writes (write c i size off bytes) = IsWrite i size off bytes

    -- A call by a client that answers, on a file that is known to be in service.
    abbrev pub MayCall : FileRequest → Type 0
    MayCall c = (reachable (caller c) ≡ true) × Known (file c) × Writes c

    -- The state stands for the memory, in the files that are known.
    pub record Stands (s : System S) (m : ℕ → Bytes) : Type 0 where
      pub served : (j : ℕ) → Known j → InService L reachable junk clock s j
      pub same : (j : ℕ) → Known j → view L s j ≡ m j
      pub fits : (j : ℕ) → Known j → L.Fits j (m j)

    abbrev Performed : FileRequest → (ℕ → Bytes) → Reply × World (System S) → Type 0
    Performed c m r = (r.0 ≡ reply c m) × Stands r.1.extents (after c m)

    perform-Performed :
        (c : FileRequest) (w : World (System S)) (m : ℕ → Bytes)
        → Stands w.extents m
        → MayCall c
        → Returns (Performed c m) (perform c w)
    unfolding client_laws Handlers.fuseserver_read Handlers.fuseserver_write
    perform-Performed (read c i size off) w m v (here, known, writes) =
        let laws = client_laws L reachable junk clock c here in
        bind-Returns _ (Performed (read c i size off) m)
          (Operations.read (service c) finum i size off [] w) _
          (read-Returns (service c) laws finum i size off [] w (v.served i known))
          λ a w' (result, kept). (
            rw result (
                ap (λ x. buffer (slice x size off)) (v.same i known)
                ∙ ap buffer (slice-read_bytes (m i) size off)),
            record {
              served = λ j k. kept.serves j (v.served j k);
              same = λ j k. kept.same j ∙ v.same j k;
              fits = v.fits;
            },
          )
    perform-Performed (write c i size off bytes) w m v (here, known, (len, takes)) =
        let laws = client_laws L reachable junk clock c here in
        let e : view L w.extents i ≡ m i = v.same i known in
        let (short, near, fits) = takes (m i) (v.fits i known) in
        bind-Returns _ (Performed (write c i size off bytes) m)
          (Operations.write (service c) finum i size off bytes w) _
          (write-Returns (service c) laws finum i size off bytes w len (rw e short) (rw e near)
            (v.served i known) (λ new q. fits new (ap (λ x. written x size off bytes) (sym e) ∙ q)))
          λ st w' (ok', new, kept).
            let stored : view L w'.extents i ≡ write_bytes (m i) off bytes =
              write_bytes-Written (m i) bytes (view L w'.extents i) size off len (rw e at new) in
            let fitting : L.Fits i (write_bytes (m i) off bytes) =
              fits (write_bytes (m i) off bytes)
                (written-write_bytes (m i) bytes size off len short near) in
            (
              rw ok' refl,
              record {
                served = λ j k. kept.serves j (v.served j k);
                same = λ j k. elim (Bool-cases (j == i)) [
                  | inl hit ↦ rw (hit, (==_iff j i).0 hit) stored
                  | inr miss ↦ rw miss (kept.same j (ground arith) ∙ v.same j k)
                ];
                fits = λ j k. elim (Bool-cases (j == i)) [
                  | inl hit ↦ rw (hit, (==_iff j i).0 hit) fitting
                  | inr miss ↦ rw miss (v.fits j k)
                ];
              },
            )

    -- From a state that stands for a memory, the replies are those of the memory.
    pub run_requests-answers :
        (cs : List FileRequest) (w : World (System S)) (m : ℕ → Bytes)
        → Stands w.extents m
        → All MayCall cs
        → Returns (λ q. q.0 ≡ replies cs m) (run_requests cs w)
    unfolding run_requests replies
    run_requests-answers [] w m v h = refl
    run_requests-answers (c ∷ cs) w m v (h, hs) =
        bind-Returns (Performed c m) (λ q. q.0 ≡ reply c m ∷ replies cs (after c m)) (perform c w) _
          (perform-Performed c w m v h)
          λ a w' (result, v').
            bind-Returns (λ q. q.0 ≡ replies cs (after c m))
              (λ q. q.0 ≡ reply c m ∷ replies cs (after c m)) (run_requests cs w') _
              (run_requests-answers cs w' (after c m) v' hs)
              λ later u last. ap (λ x. x ∷ later) result ∙ ap (λ x. reply c m ∷ x) last
