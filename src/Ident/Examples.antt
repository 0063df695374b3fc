-- ===== src/Ident/Examples.antt =====
-- Runs of pkg/ident/ident.go, and its theorems at concrete identities.
use f.Prelude.{◌≡◌, refl, pos, ok, err}
use f.Ident.{Identity, new, node_seq_out_of_range}

abbrev lobby_one : Identity
lobby_one = record { server_id = pos 1; svc = 2; node_seq = pos 1; worker_id = 257 }

new_lobby : new (pos 1) 2 (pos 1) ≡ ok lobby_one
unfolding new
new_lobby = refl

new_overflow : new (pos 1) 2 (pos 128) ≡ err node_seq_out_of_range
unfolding new
new_overflow = refl
