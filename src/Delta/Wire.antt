-- ===== src/Delta/Wire.antt =====
-- `ToProto` and `DeltaOpsFromProto`: the delta in a protobuf message.
use hubsync.Prelude.{ℕ, ◌≡◌, refl, ap, List, [], ◌∷◌, map, Bytes}
use hubsync.Model.{Digest}
use hubsync.Delta.{DeltaOp, DeltaOps, copy, literal}

-- The message's `oneof`.
pub data WireOp : Type 0 where
  copy_index : ℕ → WireOp
  data_bytes : Bytes → WireOp

pub record DeltaResponse : Type 0 where
  pub target_digest : Digest
  pub target_size : ℕ
  pub ops : List WireOp

abbrev pub to_wire : DeltaOp → WireOp
to_wire (copy index) = copy_index index
to_wire (literal bytes) = data_bytes bytes

abbrev pub from_wire : WireOp → DeltaOp
from_wire (copy_index index) = copy index
from_wire (data_bytes bytes) = literal bytes

unfoldable pub to_proto : Digest → DeltaOps → DeltaResponse
to_proto digest d = record {
  target_digest = digest;
  target_size = d.target_size;
  ops = map to_wire d.ops;
}

unfoldable pub delta_ops_from_proto : DeltaResponse → DeltaOps
delta_ops_from_proto resp = record { ops = map from_wire resp.ops; target_size = resp.target_size }

from_wire-to_wire : (ops : List DeltaOp) → map from_wire (map to_wire ops) ≡ ops
from_wire-to_wire [] = refl
from_wire-to_wire (copy index ∷ ops) = ap (λ l. copy index ∷ l) (from_wire-to_wire ops)
from_wire-to_wire (literal bytes ∷ ops) = ap (λ l. literal bytes ∷ l) (from_wire-to_wire ops)

-- A delta comes back from its message as it was.
pub delta_ops_from_proto-to_proto :
    (digest : Digest) (d : DeltaOps) → delta_ops_from_proto (to_proto digest d) ≡ d
unfolding to_proto delta_ops_from_proto
delta_ops_from_proto-to_proto digest d = ap (λ l. record d { ops = l }) (from_wire-to_wire d.ops)
