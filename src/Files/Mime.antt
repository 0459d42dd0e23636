-- ===== src/Files/Mime.antt =====
-- files/mime.go and files/watch.go: which entries are enriched after a listing.
use dankgo.Prelude.{Bool, false, ◌&&◌, ◌||◌, List, [], if◌then◌else◌, keep}
use dankgo.Prelude.Text.{Bytes, eqb, codes}
use dankgo.Files.Entry.{Entry}

unfoldable pub needs_sniff : Bytes → Bool
needs_sniff mime =
    eqb mime [] || (eqb mime (codes "text/plain") || eqb mime (codes "application/octet-stream"))

unfoldable pub needs_desktop : Entry → Bool
needs_desktop e = eqb e.mime (codes "application/x-desktop") && e.executable

-- unenriched
unfoldable pub unenriched : List Entry → List Entry
unfolding needs_sniff needs_desktop
unenriched = keep λ e.
    if e.unreadable || (e.is_dir || e.symlink_broken)
    then false
    else needs_sniff e.mime || (e.thumbnailable || needs_desktop e)
