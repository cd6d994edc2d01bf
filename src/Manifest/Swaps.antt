-- ===== src/Manifest/Swaps.antt =====
-- A manifest that was read and is written next.
use cloudy_neigh.Prelude.{◌≡◌, some, Bytes, ok}
use cloudy_neigh.ObjectStore.Defs.{Context}
use cloudy_neigh.ObjectStore.World.{World}
use cloudy_neigh.ObjectStore.World.Room.{Room}
use cloudy_neigh.ObjectStore.Document.{Codec}
use cloudy_neigh.ObjectStore.Document.Writes.{Rewritten, write_document-Rewritten}
use cloudy_neigh.ObjectStore.Document.Reads.{read_document-Found}
use cloudy_neigh.Manifest
use cloudy_neigh.Manifest.{BranchManifest}

-- When `Read` returns a manifest and its generation, and the next call of the client is a `Write` of
-- another manifest with that generation, and it returns, then it has replaced the very manifest
-- that was read, whatever other clients wrote in between. The world has a well-formed store whose
-- counter stays an int64.
pub write-read :
    (codec : Codec BranchManifest) (ctx : Context) (key : Bytes) (old new : BranchManifest)
    (gen g : Bytes) (w w1 w2 : World)
    → Room w
    → Manifest.read codec ctx key w ≡ (ok (old, gen), w1)
    → Manifest.write codec ctx key (some new) gen w1 ≡ (ok g, w2)
    → Rewritten codec key ctx old new g w1 w2
unfolding Manifest.read Manifest.write
write-read codec ctx key old new gen g w w1 w2 room r e =
    let (room1, found) = read_document-Found codec key ctx old gen w w1 r room in
    write_document-Rewritten codec key ctx old new gen g w1 w2 room1 found e
