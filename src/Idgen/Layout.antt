-- ===== src/Idgen/Layout.antt =====
-- The bit layout of an identifier, pkg/idgen/snowflake.go.
use f.Prelude.{
  ℕ, ◌+◌, ◌*◌, ◌/◌, ◌%◌, ◌<◌, ◌≡◌, arith, pos, bit_and, bit_or-shifted, bit_and-mask, add64, int64,
  ◌+ℤ◌, ◌^◌,
}
use f.Idgen.{compose, parse}

pub compose-sum :
    (e w s : ℕ)
    → e < 2 ^ 41
    → w < 1024
    → s < 4096
    → compose (pos e) w s ≡ e * 4194304 + w * 4096 + s
unfolding compose
compose-sum e w s he hw hs =
    ground (arith, bit_or-shifted 22 e (w * 4096), bit_or-shifted 12 (e * 1024 + w) s)

parsed_worker :
    (e w s : ℕ) → w < 1024 → s < 4096 → bit_and ((e * 4194304 + w * 4096 + s) / 4096) 1023 ≡ w
parsed_worker e w s hw hs = omega (arith, bit_and-mask 10 ((e * 4194304 + w * 4096 + s) / 4096))

parsed_seq : (e w s : ℕ) → w < 1024 → s < 4096 → bit_and (e * 4194304 + w * 4096 + s) 4095 ≡ s
parsed_seq e w s hw hs = omega (arith, bit_and-mask 12 (e * 4194304 + w * 4096 + s))

pub parse-sum :
    (e w s : ℕ)
    → e < 2 ^ 41
    → w < 1024
    → s < 4096
    → parse (e * 4194304 + w * 4096 + s) ≡ record {
      timestamp = pos (e + 1704067200000);
      worker_id = w;
      seq = s;
      svc_type = w / 128;
      node_seq = w % 128;
    }
unfolding parse add64 int64 ◌+ℤ◌
parse-sum e w s he hw hs = ground (arith, parsed_worker e w s, parsed_seq e w s, bit_and-mask 7 w)
