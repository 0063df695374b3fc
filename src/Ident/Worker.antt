-- ===== src/Ident/Worker.antt =====
-- The worker number of pkg/ident/ident.go.
use f.Prelude.{
  ℕ, ◌+◌, ◌*◌, ◌%◌, ◌≤◌, ◌<◌, ◌≡◌, ℤ, pos, negsuc, arith, ok, bit_or, bit_or-shifted, shl32,
  pos_part, ◌≤ℤ◌, eq_of_parts, parts_disjoint,
}
use f.Ident.{Identity, new}

-- What a successful construction fixes.
pub record IsWorker (svc : ℕ) (node_seq : ℤ) (i : Identity) : Type 0 where
  pub svc_kept : i.svc ≡ svc
  pub seq_kept : i.node_seq ≡ node_seq
  pub svc_low : 1 ≤ svc
  pub svc_high : svc ≤ 7
  pub seq_low : pos 1 ≤ℤ node_seq
  pub seq_high : node_seq ≤ℤ pos 127
  pub packed : i.worker_id ≡ svc * 128 + pos_part node_seq

packed_lem : (svc n : ℕ) → svc ≤ 7 → n ≤ 127 → bit_or (shl32 svc 7) (n % 4294967296) ≡ svc * 128 + n
packed_lem svc n h k = ground (arith, bit_or-shifted 7 svc n)

pub new-IsWorker :
    (server_id : ℤ) (svc : ℕ) (node_seq : ℤ) {i : Identity}
    → new server_id svc node_seq ≡ ok i
    → IsWorker svc node_seq i
unfolding new
new-IsWorker server_id svc (pos n) e = ground (arith, packed_lem svc n)
new-IsWorker server_id svc (negsuc n) e = ground arith

-- Two processes with the same worker number run the same service with the same sequence number,
-- and every worker number has 10 bits.
pub worker_id-injective :
    (r s : ℤ) (v w : ℕ) (m n : ℤ) {i j : Identity}
    → new r v m ≡ ok i
    → new s w n ≡ ok j
    → i.worker_id ≡ j.worker_id
    → (v ≡ w) × (m ≡ n) × (i.worker_id < 1024)
worker_id-injective r s v w m n p q e = omega (
  arith,
  new-IsWorker r v m p,
  new-IsWorker s w n q,
  eq_of_parts m n,
  parts_disjoint m,
  parts_disjoint n,
)
