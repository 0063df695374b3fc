-- ===== src/Lobby/Transfer/Examples.antt =====
-- internal/lobby/handlers.go: a transfer of three items and ten coins, and one to a full bag.
use f.Prelude.{
  ℕ, ◌+◌, ◌≡◌, refl, arith, ℤ, pos, ◌==◌, if◌then◌else◌, Bool, true, false, Option, none, some,
  List, [], ◌∷◌, ok, ◌+ℤ◌, ◌≤ℤ◌, add64, sub64,
}
use f.Fencing.{Redis}
use f.Transfers.{Index, Transfer, unset}
use f.Lobby.Bag.{
  Item, Bag, Wallet, add_currency, remove_item_by_tpl, take_from, compact, count_item, add_item,
  stack_onto, append_item, set_balance, count_from,
}
use f.Lobby.Bag.Held.{held}
use f.Lobby.Bag.Ops.{IsBag}
use f.Lobby.Transfer.{
  Assets, Job, Receiver, Route, take_items, take_money, prepare_transfer, add_items, apply_transfer,
  credits,
}
use f.Lobby.Transfer.Items.{asked}
use f.Lobby.Transfer.Conserved.{apply_transfer-conserves}

abbrev stack : ℤ → Item
stack c = record { instance_id = 1; tpl_id = 7; count = c; obtained_at = pos 0 }

abbrev bag_with : ℕ → List Item → Bag
bag_with capacity items = record { capacity = capacity; items = items }

abbrev purse : ℤ → Wallet
purse n c = if c == 1 then n else pos 0

abbrev sender : Assets
sender = record { wallet = purse (pos 25); bag = bag_with 10 (stack (pos 5) ∷ []) }

abbrev receiver : Assets
receiver = record { wallet = purse (pos 4); bag = bag_with 10 [] }

abbrev job : Job
job = record {
  tx_id = 0;
  from_uid = 100;
  to_uid = 200;
  items = (7, pos 3) ∷ [];
  curr_type = 1;
  curr_delta = pos 10;
}

abbrev ids : ℕ → Option ℕ
ids i = some (40 + i)

abbrev stackable : ℕ → Bool
stackable tpl = true

sender-IsBag : IsBag sender.bag
unfolding held
sender-IsBag = record {
  positive = ((omega arith, refl), tt);
  room = omega arith;
  fits = λ t. ground arith;
}

receiver-IsBag : IsBag receiver.bag
unfolding held
receiver-IsBag = record { positive = tt; room = omega arith; fits = λ t. omega arith }

-- What is written for the sender, and the receiver's part.
abbrev sent : Assets
sent = record {
  wallet = set_balance (purse (pos 25)) 1 (pos 15);
  bag = bag_with 10 (stack (pos 2) ∷ []);
}

abbrev sent_job : Job
sent_job = record job { tx_id = 9 }

abbrev got : Assets
got = record {
  wallet = set_balance (purse (pos 4)) 1 (pos 14);
  bag = bag_with 10 (record (stack (pos 3)) { instance_id = 40 } ∷ []);
}

prepared : prepare_transfer (some 9) job sender ≡ ok (sent, sent_job)
unfolding prepare_transfer take_items take_money remove_item_by_tpl take_from compact count_item
    count_from add_currency add64 sub64
prepared = refl

applied : apply_transfer ids (pos 0) stackable sent_job receiver ≡ credits got
unfolding apply_transfer add_items add_item stack_onto append_item add_currency add64
applied = refl

apply_transfer-conserves_example :
    ((t : ℕ)
      → held t sent.bag.items + held t got.bag.items
        ≡ held t sender.bag.items + held t receiver.bag.items)
    × ((c : ℕ) → sent.wallet c +ℤ got.wallet c ≡ sender.wallet c +ℤ receiver.wallet c)
    × (pos 0 ≤ℤ sent.wallet 1)
unfolding held asked set_balance ◌+ℤ◌
apply_transfer-conserves_example =
    apply_transfer-conserves (some 9) ids (pos 0) stackable job sent_job sender sent receiver got
      prepared applied sender-IsBag receiver-IsBag (λ t. ground arith) (omega arith, omega arith)
      (omega arith, omega arith) (omega arith) (ground arith)

-- A store that holds nothing.
abbrev silent : Redis
silent = record {
  State = Unit {0};
  Key = ℕ;
  Value = ℕ;
  get = λ k s. none;
  set = λ k v s. s;
  set_ex = λ k v ttl s. s;
  delete = λ k s. s;
  xadd = λ k n v s. s;
  hset = λ k vs s. s;
  expire = λ k ttl s. s;
  stream = λ k s. [];
  to_number = λ v. pos v;
  of_number = λ n. 0;
}

abbrev sets : Index silent
sets = record {
  zadd = λ k n v s. s;
  zrem = λ k v s. s;
  set_keep = λ k v s. s;
  has = λ k v s. false;
}

abbrev number : Transfer → ℕ
number t = t.tx_id

abbrev route : Route silent sets number
route = record {
  epoch_key = 0;
  done_key = 1;
  tx_key = 2;
  pending_key = 3;
  epoch = pos 5;
  ttl = pos 100;
  rec = record {
    tx_id = 9;
    cargo = 0;
    state = unset;
    created_at = pos 0;
    done_at = pos 0;
    retries = pos 0;
  };
  blobs = λ a. [];
}

abbrev crowded : Receiver silent sets number
crowded = record { assets = record { wallet = purse (pos 4); bag = bag_with 0 [] }; store = tt }
