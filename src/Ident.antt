-- ===== src/Ident.antt =====
-- pkg/ident/ident.go: the identity of a process and its 10 bit worker number. The text form of the
-- identity (nodeID) is not modelled.
pub mod Worker
mod Examples
use f.Prelude.{
  ℕ, ◌-◌, ◌^◌, bit_or, ℤ, pos, leb, leb_ℤ, ltb_ℤ, Bool, ◌&&◌, Result, ok, err, ◌>>◌, require,
  reject, shl32, to_u32, ◌||◌,
}

abbrev pub node_seq_bits : ℕ
node_seq_bits = 7

abbrev pub svc_type_bits : ℕ
svc_type_bits = 3

abbrev pub max_node_seq : ℕ
max_node_seq = 2 ^ node_seq_bits - 1

abbrev pub max_svc_type : ℕ
max_svc_type = 2 ^ svc_type_bits - 1

pub data IdentError : Type 0 where
  server_id_invalid svc_type_out_of_range node_seq_out_of_range : IdentError

pub record Identity : Type 0 where
  pub server_id : ℤ
  pub svc : ℕ
  pub node_seq : ℤ
  pub worker_id : ℕ

-- `SvcType.Valid`
unfoldable pub svc_valid : ℕ → Bool
svc_valid s = leb 1 s && leb s max_svc_type

unfoldable pub new : ℤ → ℕ → ℤ → Result IdentError Identity
unfolding svc_valid
new server_id svc node_seq = do
  reject (ltb_ℤ server_id (pos 0)) server_id_invalid
  require (svc_valid svc) svc_type_out_of_range
  reject (ltb_ℤ node_seq (pos 1) || ltb_ℤ (pos max_node_seq) node_seq) node_seq_out_of_range
  ok (record {
    server_id = server_id;
    svc = svc;
    node_seq = node_seq;
    worker_id = bit_or (shl32 svc node_seq_bits) (to_u32 node_seq);
  })
