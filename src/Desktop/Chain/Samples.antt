-- ===== src/Desktop/Chain/Samples.antt =====
-- A chain over a table with a cycle.
use dankgo.Prelude.{◌≡◌, refl, ◌↔◌, true, [], ◌∷◌}
use dankgo.Prelude.Text.{Bytes, codes, eqb}
use dankgo.Prelude.Split.{split}
use dankgo.Prelude.Members.{contains, AreDistinct}
use dankgo.Desktop.Groups.{trim_space, index_byte, scan_lines}
use dankgo.Desktop.Chain.{
  Tables, read_kv, alias_of, parents_of, strip_mime_params, canonical_mime, add_parents, walk,
  chain_from, mime_chain,
}
use dankgo.Desktop.Chain.Walk.{chain_from-finished}
use dankgo.Desktop.Chain.Reach.{Reach, mime_chain-Reach}

abbrev html : Bytes
html = codes "text/html"

abbrev xml : Bytes
xml = codes "text/xml"

abbrev plain : Bytes
plain = codes "text/plain"

abbrev cyclic : Tables
cyclic = record {
  aliases = (codes "application/html", html) ∷ [];
  subclasses = (html, xml) ∷ (xml, plain) ∷ (html, plain) ∷ (plain, html) ∷ [];
}

read_kv-comment : read_kv (codes "# x\ntext/html text/xml \n\nbad\n") ≡ (html, xml) ∷ []
unfolding read_kv scan_lines split trim_space index_byte
read_kv-comment = refl

mime_chain-cyclic :
    mime_chain cyclic (codes "application/html; charset=utf-8") ≡ html ∷ xml ∷ plain ∷ []
unfolding mime_chain canonical_mime strip_mime_params alias_of chain_from walk parents_of
    add_parents contains eqb trim_space index_byte
mime_chain-cyclic = refl

chain_from-finished_example : (chain_from cyclic.subclasses html).1 ≡ []
chain_from-finished_example = chain_from-finished cyclic.subclasses html

mime_chain-Reach_example :
    ((x : Bytes)
      → (contains (mime_chain cyclic html) x ≡ true)
        ↔ Reach cyclic.subclasses (canonical_mime cyclic html) x)
    × AreDistinct (mime_chain cyclic html)
mime_chain-Reach_example = mime_chain-Reach cyclic html
