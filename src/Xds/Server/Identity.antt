-- ===== src/Xds/Server/Identity.antt =====
-- The node ids for which `ID` panics.
use lite_mesh.Base.{Text, none, Lacks, split-Lacks, split-second, get_elem?, ◌≡◌, ◌↔◌, ap}
use lite_mesh.Xds.Server.{node_id}

-- `ID` panics, with an index out of range, exactly for the node ids without a byte `@`.
pub node_id-none_iff : (id : Text) → (node_id id ≡ none) ↔ Lacks b'@' id
unfolding node_id
node_id-none_iff id = (split-second b'@' id, λ h. ap (λ ps. get_elem? ps 1) (split-Lacks b'@' id h))
